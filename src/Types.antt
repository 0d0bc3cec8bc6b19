-- ===== src/Types.antt =====
-- opapywasm/types.py: the Python values that cross the boundary, the configuration and its checks,
-- and what the program takes from Python's own library (`json`, `str.encode`, `str.lower`).
use opa_py_wasm.Base.{
  ℕ, String, Bool, true, false, ◌||◌, Option, none, some, List, [], ◌∷◌, if◌then◌else◌,
}
use opa_py_wasm.Base.Int.{ℤ, pos, ltb_ℤ, leb_ℤ}
use opa_py_wasm.Errors.{fresh, value_error}
use opa_py_wasm.Result.{Result, ok, raised}

abbrev pub Bytes : Type 0
Bytes = List ℕ

-- The Python values that may be an input, a data document, a result or a builtin's argument. A
-- float is its 64 bits; `bytes` is no JSON value, but is accepted as a document.
mutual
  pub data Value : Type 0 where
    null : Value
    bool : Bool → Value
    int : ℤ → Value
    float : ℕ → Value
    str : String → Value
    bytes : List ℕ → Value
    list : Items → Value
    dict : Fields → Value

  pub data Items : Type 0 where
    no_items : Items
    item : Value → Items → Items

  pub data Fields : Type 0 where
    end : Fields
    field : String → Value → Fields → Fields

-- Python's library, as far as the program calls it: `json.loads`, `json.dumps` with compact
-- separators and `allow_nan=False`, `str.encode("utf-8")` and `str.lower`. `ceil_ticks ms`
-- is `math.ceil(seconds / tick_seconds)` for a timeout of `ms` milliseconds.
pub record Host : Type 0 where
  pub loads : Bytes → Result Value
  pub dumps : Value → Result String
  pub encode : String → Result Bytes
  pub lower : String → String
  pub ceil_ticks : ℤ → ℤ

-- `str | int | None` with the booleans, which Python counts among the integers, kept apart.
pub data Entrypoint : Type 0 where
  by_name : String → Entrypoint
  by_id : ℤ → Entrypoint
  by_bool : Bool → Entrypoint

-- Times are whole milliseconds.
pub record PolicyConfig : Type 0 where
  pub pool_size : ℤ
  pub default_entrypoint : Option Entrypoint
  pub borrow_timeout_ms : Option ℤ
  pub strict_result : Bool
  pub max_input_bytes : ℤ
  pub max_data_bytes : ℤ
  pub max_result_bytes : ℤ
  pub max_cstring_scan_bytes : ℤ
  pub parse_raw_json_input : Bool
  pub max_memory_pages : Option ℤ
  pub eval_timeout_ms : Option ℤ
  pub strict_result_shape : Bool

abbrev pub default_config : PolicyConfig
default_config = record {
  pool_size = pos 4;
  default_entrypoint = none;
  borrow_timeout_ms = some (pos 5_000);
  strict_result = false;
  max_input_bytes = pos 1_000_000;
  max_data_bytes = pos 10_000_000;
  max_result_bytes = pos 10_000_000;
  max_cstring_scan_bytes = pos 10_000_000;
  parse_raw_json_input = true;
  max_memory_pages = some (pos 4096);
  eval_timeout_ms = some (pos 30_000);
  strict_result_shape = true;
}

abbrev given : Option ℤ → (ℤ → Bool) → Bool
given none test = false
given (some n) test = test n

abbrev any_below : ℤ → List ℤ → Bool
any_below bound [] = false
any_below bound (n ∷ ns) = ltb_ℤ n bound || any_below bound ns

-- __post_init__
unfoldable pub post_init : PolicyConfig → Result PolicyConfig
post_init c =
    if ltb_ℤ c.pool_size (pos 1)
    then raised (fresh value_error)
    else if given c.borrow_timeout_ms (λ t. ltb_ℤ t (pos 0))
    then raised (fresh value_error)
    else if given c.eval_timeout_ms (λ t. leb_ℤ t (pos 0))
    then raised (fresh value_error)
    else if given c.max_memory_pages (λ p. ltb_ℤ p (pos 1))
    then raised (fresh value_error)
    else if any_below (pos 1)
        (c.max_input_bytes ∷ c.max_data_bytes ∷ c.max_result_bytes ∷ c.max_cstring_scan_bytes ∷ [])
    then raised (fresh value_error)
    else ok c
