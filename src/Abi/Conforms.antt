-- ===== src/Abi/Conforms.antt =====
-- What a successful bind tells of the exports.
use opa_py_wasm.Base.{
  String, ◌≡◌, refl, ap, ◌↔◌, true, some, List, [], ◌∷◌, arith, eq_iff, Option-cases, inl, inr,
}
use opa_py_wasm.Base.Dict.{get}
use opa_py_wasm.Base.Int.{ℤ, pos, negsuc, ◌≤ℤ◌}
use opa_py_wasm.Result.{Result, ok, raised, then_result-eq-ok}
use opa_py_wasm.Runtime.{func, global, another, has_export, get_export, get_func}
use opa_py_wasm.Abi.{
  Exports, OpaAbi, default_spec, default_required, expected_signatures, check_version, read_version,
  requires_eval_fast_path, validate_required_exports, validate_export_signatures, bind, all_present,
  same_types, check_signature, capabilities,
}

pub same_types→eq : (xs ys : List String) → same_types xs ys ≡ true → xs ≡ ys
same_types→eq [] [] h = refl
same_types→eq [] (y ∷ ys) h = ground arith
same_types→eq (x ∷ xs) [] h = ground arith
same_types→eq (x ∷ xs) (y ∷ ys) h = ground (arith, eq_iff x y, same_types→eq xs ys)

-- Each listed function is exported as a function of the listed type.
abbrev pub HasAll : Exports → List (String × (List String × List String)) → Type 0
HasAll exports [] = Unit {0}
HasAll exports ((name, (params, results)) ∷ rest) =
    (get name exports ≡ some (func params results)) × HasAll exports rest

abbrev names : List (String × (List String × List String)) → List String
names [] = []
names ((name, _) ∷ rest) = name ∷ names rest

checked_signature :
    (exports : Exports) (name : String) (params results : List String) {u : Unit {0}}
    → has_export name exports ≡ true
    → check_signature exports name params results ≡ ok u
    → get name exports ≡ some (func params results)
unfolding has_export get_func get_export
checked_signature exports name params results present h = elim (Option-cases (get name exports)) [
  | inl e ↦ ground arith
  | inr (another, e) ↦ ground arith
  | inr (global v, e) ↦ ground arith
  | inr (func ps rs, e) ↦ ground (arith, same_types→eq ps params, same_types→eq rs results)
]

validated :
    (exports : Exports) (l : List (String × (List String × List String))) {u : Unit {0}}
    → all_present exports (names l) ≡ true
    → validate_export_signatures exports l ≡ ok u
    → HasAll exports l
unfolding validate_export_signatures
validated exports [] p h = tt
validated exports ((name, (params, results)) ∷ rest) p h =
    let (w, c, r) =
      then_result-eq-ok (check_signature exports name params results)
        (λ _. validate_export_signatures exports rest) h in
    (
      checked_signature exports name params results (ground arith) c,
      validated exports rest (ground arith) r,
    )

-- The converse: functions of the listed types pass.
same_types_self : (xs : List String) → same_types xs xs ≡ true
same_types_self [] = refl
same_types_self (x ∷ xs) = ground (arith, eq_iff x x, same_types_self xs)

validates :
    (exports : Exports) (l : List (String × (List String × List String)))
    → HasAll exports l
    → validate_export_signatures exports l ≡ ok tt
unfolding validate_export_signatures has_export get_func get_export
validates exports [] h = refl
validates exports ((name, (params, results)) ∷ rest) h =
    rw (h.0, has_export, get_func, get_export)
      (ground (arith, same_types_self params, same_types_self results, validates exports rest h.1))

-- The functions of the ABI are there with their types, and the version is 1.2 or a later 1.x.
abbrev pub IsSupported : Exports → Type 0
IsSupported exports =
    (minor : ℤ) × (read_version exports ≡ ok (pos 1, minor))
    × (pos 2 ≤ℤ minor)
    × HasAll exports expected_signatures

version_in_range :
    (major minor : ℤ) → check_version default_spec major minor ≡ ok tt → major ≡ pos 1
unfolding check_version
version_in_range (pos n) minor h = ap pos (ground arith)
version_in_range (negsuc n) minor h = ground arith

required_present :
    (exports : Exports)
    → validate_required_exports default_spec exports ≡ ok tt
    → has_export "opa_eval" exports ≡ true
    → all_present exports (names expected_signatures) ≡ true
unfolding validate_required_exports default_required expected_signatures
required_present exports h e = ground arith

-- Every check has passed when the constructor returns.
abbrev Checks : Exports → ℤ → ℤ → Type 0
Checks exports major minor =
    (check_version default_spec major minor ≡ ok tt)
    × (validate_required_exports default_spec exports ≡ ok tt)
    × (has_export "opa_eval" exports ≡ true)
    × (requires_eval_fast_path default_spec minor ≡ true)
    × (validate_export_signatures exports expected_signatures ≡ ok tt)

bound_parts :
    (exports : Exports) (a : OpaAbi) (major minor : ℤ)
    → read_version exports ≡ ok (major, minor)
    → bind default_spec exports ≡ ok a
    → Checks exports major minor
unfolding bind
bound_parts exports a major minor v h = ground arith

IsSupported-version :
    (exports : Exports) (a : OpaAbi) (v : Result (ℤ × ℤ))
    → read_version exports ≡ v
    → bind default_spec exports ≡ ok a
    → IsSupported exports
unfolding requires_eval_fast_path
IsSupported-version exports a (raised e) v h = absurd (unfold bind in ground arith)
IsSupported-version exports a (ok (major, minor)) v h =
    let (c, r, p, f, s) = bound_parts exports a major minor v h in
    (
      minor,
      ground (arith, version_in_range major minor),
      ground arith,
      validated exports expected_signatures (required_present exports r p) s,
    )

supported-present :
    (exports : Exports) (l : List (String × (List String × List String)))
    → HasAll exports l
    → all_present exports (names l) ≡ true
unfolding has_export
supported-present exports [] h = refl
supported-present exports ((name, (params, results)) ∷ rest) h =
    ground (arith, supported-present exports rest h.1)

required_ok :
    (exports : Exports)
    → all_present exports (names expected_signatures) ≡ true
    → (validate_required_exports default_spec exports ≡ ok tt)
      × (has_export "opa_eval" exports ≡ true)
unfolding validate_required_exports default_required expected_signatures
required_ok exports h = ground arith

supported-bind :
    (exports : Exports) (minor : ℤ)
    → read_version exports ≡ ok (pos 1, minor)
    → pos 2 ≤ℤ minor
    → HasAll exports expected_signatures
    → bind default_spec exports ≡ ok (capabilities default_spec exports (pos 1) minor)
unfolding bind check_version requires_eval_fast_path
supported-bind exports minor v f h =
    let (r, e) = required_ok exports (supported-present exports expected_signatures h) in
    ground (arith, validates exports expected_signatures h)

-- An instance binds exactly when its module is ABI 1.x with x at least 2, and each of the nine
-- exports that the program calls is a function of the expected type.
pub bind_iff :
    (exports : Exports) → ((a : OpaAbi) × (bind default_spec exports ≡ ok a)) ↔ IsSupported exports
bind_iff exports = (
  λ (a, h). IsSupported-version exports a (read_version exports) refl h,
  λ (minor, v, f, h).
      (capabilities default_spec exports (pos 1) minor, supported-bind exports minor v f h),
)
