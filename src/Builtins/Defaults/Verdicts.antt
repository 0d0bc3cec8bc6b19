-- ===== src/Builtins/Defaults/Verdicts.antt =====
-- Whether `yaml.is_valid` and `yaml.unmarshal` agree.
use opa_py_wasm.Base.{
  ◌≡◌, refl, ◌⊎◌, inl, inr, true, false, Option, none, some, if◌then◌else◌, Bool-cases,
}
use opa_py_wasm.Errors.{
  fresh, raise_from, kind_of, is_exception, opa, builtin, kind_of-fresh, kind_of-raise_saying,
}
use opa_py_wasm.Result.{Result, ok, raised, then_result, or_handle}
use opa_py_wasm.Types.{Value, null, bool, int, float, str, bytes, list, dict}
use opa_py_wasm.Builtins.Defaults.{
  Yaml, Library, parses, given_yaml, valid_yaml, yaml_is_valid, loaded_yaml, yaml_unmarshal,
}

-- What the two make of one value, where PyYAML is there or not.
abbrev pub Agree : Option Yaml → Result Value → Result Value → Type 0
Agree yaml (ok verdict) (ok v) = verdict ≡ bool true
Agree yaml (ok verdict) (raised e) = (verdict ≡ bool false) × (kind_of e ≡ opa builtin)
Agree yaml (raised d) (ok v) = ⊥
Agree yaml (raised d) (raised e) =
    (kind_of d ≡ kind_of e)
    × ((is_exception (kind_of d) ≡ false) ⊎ ((kind_of d ≡ opa builtin) × (yaml ≡ none)))

text-Agree :
    (yaml : Option Yaml) (r : Result Value)
    → Agree yaml (parses r λ e. is_exception (kind_of e)) (
        or_handle r
          λ e. if is_exception (kind_of e) then raised (raise_from (opa builtin) e) else raised e)
text-Agree yaml (ok v) = refl
text-Agree yaml (raised e) = elim (Bool-cases (is_exception (kind_of e))) [
  | inl x ↦ rw x (refl, kind_of-raise_saying (opa builtin) "" e)
  | inr x ↦ rw x (refl, inl x)
]

refused-Agree : (yaml : Option Yaml) → Agree yaml (ok (bool false)) (raised (fresh (opa builtin)))
refused-Agree yaml = (refl, kind_of-fresh (opa builtin))

module _ (library : Library) (yaml : Yaml) where
  with-Agree :
      (v : Value) → Agree library.yaml (valid_yaml library yaml v) (loaded_yaml library yaml v)
  with-Agree (str text) = text-Agree library.yaml (yaml.safe_load text)
  with-Agree null = refused-Agree library.yaml
  with-Agree (bool b) = refused-Agree library.yaml
  with-Agree (int n) = refused-Agree library.yaml
  with-Agree (float bits) = refused-Agree library.yaml
  with-Agree (bytes raw) = refused-Agree library.yaml
  with-Agree (list items) = refused-Agree library.yaml
  with-Agree (dict fields) = refused-Agree library.yaml

given-Agree :
    (library : Library) (o : Option Yaml) (v : Value)
    → library.yaml ≡ o
    → Agree library.yaml
        (then_result (given_yaml library o) λ yaml. valid_yaml library yaml v)
        (then_result (given_yaml library o) λ yaml. loaded_yaml library yaml v)
given-Agree library (some yaml) v e = with-Agree library yaml v
given-Agree library none v e = (refl, inr (kind_of-fresh (opa builtin), e))

-- On every value, `yaml.is_valid` is true exactly where `yaml.unmarshal` returns, and where it is
-- false, `yaml.unmarshal` raises `OpaBuiltinError`. It raises itself only where PyYAML is absent, and
-- then `OpaBuiltinError`, or what is no `Exception`; `yaml.unmarshal` raises the same class there.
pub yaml_is_valid-Agree :
    (library : Library) (v : Value)
    → Agree library.yaml (yaml_is_valid library v) (yaml_unmarshal library v)
unfolding yaml_is_valid yaml_unmarshal
yaml_is_valid-Agree library v = given-Agree library library.yaml v refl
