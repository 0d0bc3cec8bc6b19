-- ===== src/Abi.antt =====
-- opapywasm/abi.py: the ABI specification, the checks when an instance is bound to it, and the typed
-- wrappers around the OPA exports.
pub mod Conforms
pub mod Typed
use opa_py_wasm.Base.{
  ℕ, String, Bool, true, false, ◌&&◌, ◌||◌, not, Option, none, some, List, [], ◌∷◌, if◌then◌else◌,
  str_eq,
}
use opa_py_wasm.Base.Dict.{Dict, get}
use opa_py_wasm.Base.Int.{ℤ, pos, ltb_ℤ, leb_ℤ}
use opa_py_wasm.Errors.{Exn, fresh, opa, abi}
use opa_py_wasm.Result.{Result, ok, raised, Exec, lift, ◌>>=◌, ◌>>◌, pure, raise_if, then_result}
use opa_py_wasm.Types.{Bytes}
use opa_py_wasm.Runtime
use opa_py_wasm.Runtime.{
  Runtime, Extern, func, global, another, GlobalValue, integer, not_integer, has_export, get_func,
}

abbrev pub Exports : Type 0
Exports = Dict Extern

-- _EXPECTED_SIGNATURES
unfoldable pub expected_signatures : List (String × (List String × List String))
expected_signatures =
    ("opa_malloc", ("i32" ∷ [], "i32" ∷ []))
    ∷ ("opa_free", ("i32" ∷ [], []))
    ∷ ("opa_json_parse", ("i32" ∷ "i32" ∷ [], "i32" ∷ []))
    ∷ ("opa_json_dump", ("i32" ∷ [], "i32" ∷ []))
    ∷ ("opa_heap_ptr_get", ([], "i32" ∷ []))
    ∷ ("opa_heap_ptr_set", ("i32" ∷ [], []))
    ∷ ("entrypoints", ([], "i32" ∷ []))
    ∷ ("builtins", ([], "i32" ∷ []))
    ∷ ("opa_eval", ("i32" ∷ "i32" ∷ "i32" ∷ "i32" ∷ "i32" ∷ "i32" ∷ "i32" ∷ [], "i32" ∷ []))
    ∷ []

-- _REQUIRED_EXPORTS
unfoldable pub default_required : List String
default_required =
    "opa_malloc" ∷ "opa_free" ∷ "opa_json_parse" ∷ "opa_json_dump" ∷ "opa_heap_ptr_get"
    ∷ "opa_heap_ptr_set" ∷ "entrypoints" ∷ "builtins" ∷ []

abbrev pub eval_ctx_exports : List String
eval_ctx_exports =
    "opa_eval_ctx_new" ∷ "opa_eval_ctx_set_input" ∷ "opa_eval_ctx_set_data"
    ∷ "opa_eval_ctx_set_entrypoint" ∷ "eval" ∷ "opa_eval_ctx_get_result" ∷ []

abbrev pub heap_stash_exports : List String
heap_stash_exports =
    "opa_heap_blocks_stash" ∷ "opa_heap_blocks_restore" ∷ "opa_heap_stash_clear" ∷ []

pub record OpaAbiSpec : Type 0 where
  pub min_major : ℤ
  pub max_major : ℤ
  pub min_minor_for_eval : ℤ
  pub required_exports : List String

abbrev pub default_spec : OpaAbiSpec
default_spec = record {
  min_major = pos 1;
  max_major = pos 1;
  min_minor_for_eval = pos 2;
  required_exports = default_required;
}

unfoldable pub check_version : OpaAbiSpec → ℤ → ℤ → Result (Unit {0})
check_version spec major minor =
    if leb_ℤ spec.min_major major && leb_ℤ major spec.max_major
    then ok tt
    else raised (fresh (opa abi))

unfoldable pub requires_eval_fast_path : OpaAbiSpec → ℤ → Bool
requires_eval_fast_path spec minor = leb_ℤ spec.min_minor_for_eval minor

-- The version and the capability flags of an instance.
pub record OpaAbi : Type 0 where
  pub major : ℤ
  pub minor : ℤ
  pub supports_opa_eval : Bool
  pub supports_eval_context : Bool
  pub supports_heap_stash : Bool
  pub supports_value_free : Bool

abbrev both_integers : GlobalValue → GlobalValue → Result (ℤ × ℤ)
both_integers (integer major) (integer minor) = ok (major, minor)
both_integers _ _ = raised (fresh (opa abi))

-- An absent minor global, or an export of that name that is no global, counts as 0.
abbrev minor_value : Option Extern → GlobalValue
minor_value (some (global v)) = v
minor_value _ = integer (pos 0)

abbrev version_of : Option Extern → Option Extern → Result (ℤ × ℤ)
version_of (some (global v)) minor = both_integers v (minor_value minor)
version_of _ minor = raised (fresh (opa abi))

unfoldable pub read_version : Exports → Result (ℤ × ℤ)
read_version exports =
    version_of (get "opa_wasm_abi_version" exports) (get "opa_wasm_abi_minor_version" exports)

abbrev pub all_present : Exports → List String → Bool
all_present exports [] = true
all_present exports (n ∷ ns) = has_export n exports && all_present exports ns

unfoldable pub validate_required_exports : OpaAbiSpec → Exports → Result (Unit {0})
validate_required_exports spec exports =
    if all_present exports spec.required_exports then ok tt else raised (fresh (opa abi))

abbrev pub same_types : List String → List String → Bool
same_types [] [] = true
same_types (a ∷ as') (b ∷ bs) = str_eq a b && same_types as' bs
same_types _ _ = false

-- One round of the loop: an absent export is passed over.
abbrev pub check_signature : Exports → String → List String → List String → Result (Unit {0})
check_signature exports name params results =
    if has_export name exports
    then (then_result (get_func name exports) λ got.
        if same_types got.0 params && same_types got.1 results
        then ok tt
        else raised (fresh (opa abi)))
    else ok tt

unfoldable pub validate_export_signatures :
    Exports → List (String × (List String × List String)) → Result (Unit {0})
validate_export_signatures exports [] = ok tt
validate_export_signatures exports ((name, (params, results)) ∷ rest) =
    let others = validate_export_signatures exports rest in
    then_result (check_signature exports name params results) λ _. others

abbrev pub capabilities : OpaAbiSpec → Exports → ℤ → ℤ → OpaAbi
capabilities spec exports major minor = record {
  major = major;
  minor = minor;
  supports_opa_eval = has_export "opa_eval" exports && requires_eval_fast_path spec minor;
  supports_eval_context = all_present exports eval_ctx_exports;
  supports_heap_stash = all_present exports heap_stash_exports;
  supports_value_free = has_export "opa_value_free" exports;
}

-- OpaAbi.__init__
unfoldable pub bind : OpaAbiSpec → Exports → Result OpaAbi
bind spec exports = then_result (read_version exports) λ version.
    then_result (check_version spec version.0 version.1) λ _.
      then_result (validate_required_exports spec exports) λ _.
        let a = capabilities spec exports version.0 version.1 in
        if a.supports_opa_eval
        then (then_result (validate_export_signatures exports expected_signatures) λ _. ok a)
        else raised (fresh (opa abi))

module _ (rt : Runtime) where
  unfoldable pub memory_write : ℤ → Bytes → Exec rt.State (Unit {0})
  memory_write addr data' s = rt.memory_write addr data' s

  unfoldable pub memory_read : ℤ → ℤ → Exec rt.State Bytes
  memory_read start stop s = (rt.memory_read start stop s, s)

  unfoldable pub memory_len : rt.State → ℕ
  memory_len s = rt.memory_len s

  abbrev pub set_epoch_deadline : ℕ → Exec rt.State (Unit {0})
  set_epoch_deadline ticks = Runtime.set_epoch_deadline rt ticks

  abbrev pub clear_epoch_deadline : Exec rt.State (Unit {0})
  clear_epoch_deadline = Runtime.clear_epoch_deadline rt

  -- `_call`: looks the function up, then calls it.
  unfoldable pub call : String → List ℤ → Exec rt.State ℤ
  call name args = do lift (get_func name rt.exports); rt.call name args

  unfoldable pub opa_malloc : ℤ → Exec rt.State ℤ
  opa_malloc size = call "opa_malloc" (size ∷ [])

  unfoldable pub opa_free : ℤ → Exec rt.State (Unit {0})
  opa_free addr = do call "opa_free" (addr ∷ []); pure tt

  unfoldable pub opa_json_parse : ℤ → ℤ → Exec rt.State ℤ
  opa_json_parse addr length = call "opa_json_parse" (addr ∷ length ∷ [])

  unfoldable pub opa_json_dump : ℤ → Exec rt.State ℤ
  opa_json_dump value_addr = call "opa_json_dump" (value_addr ∷ [])

  unfoldable pub opa_heap_ptr_get : Exec rt.State ℤ
  opa_heap_ptr_get = call "opa_heap_ptr_get" []

  unfoldable pub opa_heap_ptr_set : ℤ → Exec rt.State (Unit {0})
  opa_heap_ptr_set addr = do call "opa_heap_ptr_set" (addr ∷ []); pure tt

  unfoldable pub entrypoints : Exec rt.State ℤ
  entrypoints = call "entrypoints" []

  unfoldable pub builtins : Exec rt.State ℤ
  builtins = call "builtins" []

  -- opa_eval(reserved, entrypoint_id, data, input, input_len, heap_ptr, format)
  unfoldable pub opa_eval : ℤ → ℤ → ℤ → ℤ → ℤ → Exec rt.State ℤ
  opa_eval entrypoint_id data_addr input_addr input_len heap_ptr =
      call "opa_eval"
        (pos 0 ∷ entrypoint_id ∷ data_addr ∷ input_addr ∷ input_len ∷ heap_ptr ∷ pos 0 ∷ [])
