-- ===== src/Policy.antt =====
-- opapywasm/policy.py, `OpaWasmPolicy`: entrypoints, the data snapshot and its versions, and the
-- shape of results. Its lifecycle is the child `Lifecycle`.
pub mod Lifecycle
pub mod Ticker
pub mod Decisions
pub mod Versions
pub mod Whole
pub mod Snapshot
pub mod Serve
pub mod Construction
pub mod Pooled
pub mod Registration
use opa_py_wasm.Base.{
  ℕ, suc, ◌+◌, String, Bool, true, false, Option, none, some, List, [], ◌∷◌, if◌then◌else◌, ◌||◌,
  ◌&&◌, ◌==◌, str_eq, length,
}
use opa_py_wasm.Base.Dict.{Dict, get}
use opa_py_wasm.Base.Int.{ℤ, pos, pos_part, neg_part, ltb_ℤ}
use opa_py_wasm.Errors.{
  kind_of, fresh, raise_from, is_value_error, opa, entrypoint, evaluation, invalid_input,
  policy_closed,
}
use opa_py_wasm.Result.{
  Result, ok, raised, then_result, or_handle, Exec, pure, lift, raise_if, modify, ◌>>=◌, ◌>>◌,
}
use opa_py_wasm.Types.{
  Bytes, Value, null, str, bytes, list, dict, Items, no_items, item, Fields, end, field, Host,
  Entrypoint, by_name, by_id, by_bool, PolicyConfig,
}
use opa_py_wasm.Memory.{is_type_or_value_error}
use opa_py_wasm.Runtime.{Runtime}
use opa_py_wasm.Instance
use opa_py_wasm.Instance.{Instance}

abbrev or_default : Option Entrypoint → Option Entrypoint → Entrypoint
or_default (some e) default = e
or_default none (some e) = e
or_default none none = by_id (pos 0)

abbrev pub same_id : ℤ → ℤ → Bool
same_id a b = pos_part a == pos_part b && neg_part a == neg_part b

-- `ident in entrypoints.values()`
unfoldable pub has_value : ℤ → Dict ℤ → Bool
has_value ident [] = false
has_value ident ((n, i) ∷ rest) = same_id i ident || has_value ident rest

abbrev pub resolved_name : Option ℤ → Result ℤ
resolved_name none = raised (fresh (opa entrypoint))
resolved_name (some ident) = ok ident

abbrev pub resolved : Dict ℤ → Entrypoint → Result ℤ
resolved entrypoints (by_bool b) = raised (fresh (opa entrypoint))
resolved entrypoints (by_id ident) =
    if has_value ident entrypoints then ok ident else raised (fresh (opa entrypoint))
resolved entrypoints (by_name name) = resolved_name (get name entrypoints)

-- _resolve_entrypoint
unfoldable pub resolve_entrypoint : PolicyConfig → Dict ℤ → Option Entrypoint → Result ℤ
resolve_entrypoint config entrypoints e =
    resolved entrypoints (or_default e config.default_entrypoint)

-- What `evaluate` returns: a JSON value, or the sentinel `UNDEFINED`.
pub data Decision : Type 0 where
  undefined : Decision
  defined : Value → Decision

unfoldable pub field_of : String → Fields → Option Value
field_of name end = none
field_of name (field n value rest) = if str_eq n name then some value else field_of name rest

-- The value at `raw[0]["result"]`, where the result set has that shape.
abbrev pub first_result : Value → Option Value
first_result (list (item (dict fields) rest)) = field_of "result" fields
first_result _ = none

abbrev pub is_empty_list : Value → Bool
is_empty_list (list no_items) = true
is_empty_list _ = false

abbrev unrecognised : PolicyConfig → Result Decision
unrecognised config =
    if config.strict_result_shape
    then raised (fresh (opa evaluation))
    else if config.strict_result
    then raised (fresh (opa evaluation))
    else ok undefined

abbrev pub simplified : PolicyConfig → Option Value → Result Decision
simplified config (some value) = ok (defined value)
simplified config none = unrecognised config

-- _simplify_result
unfoldable pub simplify_result : PolicyConfig → Value → Result Decision
simplify_result config raw =
    if is_empty_list raw
    then (if config.strict_result then raised (fresh (opa evaluation)) else ok undefined)
    else simplified config (first_result raw)

-- The fields that `set_data` and the snapshot use.
pub record DataState : Type 0 where
  pub document : Option Bytes
  pub version : ℕ
  pub closed : Bool

module _ (host : Host) (config : PolicyConfig) where
  abbrev pub parsed : Bytes → Result Bytes
  parsed raw = or_handle (then_result (host.loads raw) λ _. ok raw) λ e.
      if is_value_error (kind_of e) then raised (raise_from (opa invalid_input) e) else raised e

  abbrev pub serialised : Value → Result Bytes
  serialised (str text) = then_result (host.encode text) parsed
  serialised (bytes raw) = parsed raw
  serialised value = or_handle (then_result (host.dumps value) host.encode) λ e.
      if is_type_or_value_error (kind_of e)
      then raised (raise_from (opa invalid_input) e)
      else raised e

  abbrev pub within_limit : Bytes → Result (Option Bytes)
  within_limit raw =
      if ltb_ℤ config.max_data_bytes (pos (length raw))
      then raised (fresh (opa invalid_input))
      else ok (some raw)

  -- _serialise_data
  unfoldable pub serialise_data : Value → Result (Option Bytes)
  serialise_data null = ok none
  serialise_data value = then_result (serialised value) within_limit

  unfoldable pub set_data : Value → Exec DataState (Unit {0})
  set_data value s =
      (do
        raise_if s.closed (opa policy_closed)
        document ← lift (serialise_data value)
        modify (λ t. record t { document = document; version = t.version + 1 }))
        s

-- The snapshot as `reload_data` gets it: `None` or bytes.
abbrev pub as_value : Option Bytes → Value
as_value none = null
as_value (some raw) = bytes raw

-- _refresh_if_stale of the pool, with the policy's `_data_snapshot` and `_refresh_instance`.
unfoldable pub refresh_if_stale :
    Host → (rt : Runtime) → PolicyConfig → DataState → Exec (Instance rt) (Unit {0})
refresh_if_stale host rt config s i =
    if i.data_version == s.version
    then (ok tt, i)
    else Instance.reload_data host rt config (as_value s.document) s.version i
