-- ===== src/Policy/Decisions.antt =====
-- What the entrypoint resolution and the simplified decision may be.
use opa_py_wasm.Base.{
  String, ◌≡◌, refl, ◌⊎◌, inl, inr, true, false, Option, none, some, [], ◌∷◌, arith, if◌then◌else◌,
  Bool-cases,
}
use opa_py_wasm.Base.Dict.{Dict, get}
use opa_py_wasm.Base.Int.{ℤ}
use opa_py_wasm.Errors.{kind_of, fresh, opa, entrypoint, evaluation, kind_of-fresh}
use opa_py_wasm.Result.{Result, ok, raised}
use opa_py_wasm.Types.{
  Value, null, bool, int, float, str, bytes, list, dict, no_items, item, Entrypoint, by_name, by_id,
  by_bool, PolicyConfig,
}
use opa_py_wasm.Policy.{
  same_id, has_value, resolved_name, resolved, resolve_entrypoint, Decision, undefined, defined,
  first_result, is_empty_list, simplified, simplify_result,
}

-- An id of the policy, or an `OpaEntrypointError`.
abbrev pub IsResolved : Dict ℤ → Result ℤ → Type 0
IsResolved entrypoints (ok ident) = has_value ident entrypoints ≡ true
IsResolved entrypoints (raised e) = kind_of e ≡ opa entrypoint

same_id_self : (a : ℤ) → same_id a a ≡ true
same_id_self a = ground arith

get-has_value :
    (name : String) (entrypoints : Dict ℤ) (ident : ℤ)
    → get name entrypoints ≡ some ident
    → has_value ident entrypoints ≡ true
unfolding get has_value
get-has_value name [] ident h = ground arith
get-has_value name ((n, i) ∷ rest) ident h =
    ground (arith, get-has_value name rest ident, same_id_self ident)

named-IsResolved :
    (name : String) (entrypoints : Dict ℤ) (o : Option ℤ)
    → get name entrypoints ≡ o
    → IsResolved entrypoints (resolved_name o)
named-IsResolved name entrypoints none h = kind_of-fresh (opa entrypoint)
named-IsResolved name entrypoints (some ident) h = get-has_value name entrypoints ident h

resolved-IsResolved :
    (entrypoints : Dict ℤ) (e : Entrypoint) → IsResolved entrypoints (resolved entrypoints e)
resolved-IsResolved entrypoints (by_bool b) = kind_of-fresh (opa entrypoint)
resolved-IsResolved entrypoints (by_name name) = named-IsResolved name entrypoints _ refl
resolved-IsResolved entrypoints (by_id ident) = elim (Bool-cases (has_value ident entrypoints)) [
  | inl e ↦ rw e e
  | inr e ↦ rw e (kind_of-fresh (opa entrypoint))
]

-- Whatever the caller and the configuration ask for, the resolution gives an id that the compiled
-- policy has, or raises `OpaEntrypointError`: `opa_eval` never gets an id that the policy lacks.
pub resolve_entrypoint-IsResolved :
    (config : PolicyConfig) (entrypoints : Dict ℤ) (e : Option Entrypoint)
    → IsResolved entrypoints (resolve_entrypoint config entrypoints e)
unfolding resolve_entrypoint
resolve_entrypoint-IsResolved config entrypoints e = resolved-IsResolved entrypoints _

-- What `evaluate` may make of a raw result set.
abbrev pub IsDecision : PolicyConfig → Value → Result Decision → Type 0
IsDecision config raw (ok (defined value)) = first_result raw ≡ some value
IsDecision config raw (ok undefined) =
    (first_result raw ≡ none)
    × (config.strict_result ≡ false)
    × ((is_empty_list raw ≡ true) ⊎ (config.strict_result_shape ≡ false))
IsDecision config raw (raised e) =
    (kind_of e ≡ opa evaluation)
    × (first_result raw ≡ none)
    × ((config.strict_result ≡ true)
        ⊎ ((is_empty_list raw ≡ false) × (config.strict_result_shape ≡ true)))

no_first_result : (raw : Value) → is_empty_list raw ≡ true → first_result raw ≡ none
no_first_result (list no_items) e = refl
no_first_result (list (item v rest)) e = absurd (ground arith)
no_first_result null e = refl
no_first_result (bool b) e = refl
no_first_result (int n) e = refl
no_first_result (float n) e = refl
no_first_result (str t) e = refl
no_first_result (bytes t) e = refl
no_first_result (dict fields) e = refl

empty-IsDecision :
    (config : PolicyConfig) (raw : Value)
    → is_empty_list raw ≡ true
    → IsDecision config raw
        (if config.strict_result then raised (fresh (opa evaluation)) else ok undefined)
empty-IsDecision config raw e = elim (Bool-cases config.strict_result) [
  | inl s ↦ rw s (kind_of-fresh (opa evaluation), no_first_result raw e, inl refl)
  | inr s ↦ rw s (no_first_result raw e, refl, inl e)
]

simplified-IsDecision :
    (config : PolicyConfig) (raw : Value) (o : Option Value)
    → is_empty_list raw ≡ false
    → first_result raw ≡ o
    → IsDecision config raw (simplified config o)
simplified-IsDecision config raw (some value) n h = h
simplified-IsDecision config raw none n h = elim (Bool-cases config.strict_result_shape) [
  | inl x ↦ rw x (kind_of-fresh (opa evaluation), h, inr (n, refl))
  | inr x ↦ elim (Bool-cases config.strict_result) [
    | inl s ↦ rw (x, s) (kind_of-fresh (opa evaluation), h, inl refl)
    | inr s ↦ rw (x, s) (h, refl, inr refl)
  ]
]

-- A decision is the value of the first result, whatever the configuration. `UNDEFINED` is only
-- returned where there is no first result and `strict_result` is off, and for a result set that is
-- not empty only if `strict_result_shape` is off too. An error is an `OpaEvaluationError`, where
-- there is no first result, and `strict_result` is on, or the result set is not the empty list and
-- `strict_result_shape` is on.
pub simplify_result-IsDecision :
    (config : PolicyConfig) (raw : Value) → IsDecision config raw (simplify_result config raw)
unfolding simplify_result
simplify_result-IsDecision config raw = elim (Bool-cases (is_empty_list raw)) [
  | inl e ↦ rw e (empty-IsDecision config raw e)
  | inr e ↦ rw e (simplified-IsDecision config raw _ e refl)
]
