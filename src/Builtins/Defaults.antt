-- ===== src/Builtins/Defaults.antt =====
-- opapywasm/builtins.py, the builtins that a registry starts with: `sprintf`, `json.is_valid` and the
-- yaml builtins. PyYAML, which may be absent, and Python's own library are parameters.
pub mod Verdicts
use opa_py_wasm.Base.{
  String, Bool, true, false, Option, none, some, List, [], ◌∷◌, if◌then◌else◌, ap, ◌≡◌, refl,
}
use opa_py_wasm.Base.Dict.{Dict, get}
use opa_py_wasm.Errors.{
  Exn, fresh, raise_from, kind_of, is_exception, is_value_error, type_error, opa, builtin,
}
use opa_py_wasm.Result.{Result, ok, raised, then_result, or_handle}
use opa_py_wasm.Types.{Value, str, bool}
use opa_py_wasm.Instance.{Callable}
use opa_py_wasm.Builtins.Sprintf.{Formats, sprintf}

-- `yaml.safe_load` and `yaml.safe_dump`. Documents with dates or sets, which are no `Value`, are left
-- out.
pub record Yaml : Type 0 where
  pub safe_load : String → Result Value
  pub safe_dump : Value → Result String

-- The formats, `json.loads` of a text, and PyYAML, if it is installed.
pub record Library : Type 0 where
  pub formats : Formats
  pub loads : String → Result Value
  pub yaml : Option Yaml

abbrev pub parses : Result Value → (Exn → Bool) → Result Value
parses (ok v) caught = ok (bool true)
parses (raised e) caught = if caught e then ok (bool false) else raised e

module _ (library : Library) where
  -- _json_is_valid
  unfoldable pub json_is_valid : Value → Result Value
  json_is_valid (str text) = parses (library.loads text) λ e. is_value_error (kind_of e)
  json_is_valid value = ok (bool false)

  abbrev pub given_yaml : Option Yaml → Result Yaml
  given_yaml (some yaml) = ok yaml
  given_yaml none = raised (fresh (opa builtin))

  -- _require_yaml
  abbrev pub require_yaml : Result Yaml
  require_yaml = given_yaml library.yaml

  abbrev pub valid_yaml : Yaml → Value → Result Value
  valid_yaml yaml (str text) = parses (yaml.safe_load text) λ e. is_exception (kind_of e)
  valid_yaml yaml value = ok (bool false)

  -- _yaml_is_valid
  unfoldable pub yaml_is_valid : Value → Result Value
  yaml_is_valid value = then_result require_yaml λ yaml. valid_yaml yaml value

  -- _yaml_marshal
  unfoldable pub yaml_marshal : Value → Result Value
  yaml_marshal value =
      then_result require_yaml λ yaml. then_result (yaml.safe_dump value) λ text. ok (str text)

  abbrev pub loaded_yaml : Yaml → Value → Result Value
  loaded_yaml yaml (str text) =
      or_handle (yaml.safe_load text)
        λ e. if is_exception (kind_of e) then raised (raise_from (opa builtin) e) else raised e
  loaded_yaml yaml value = raised (fresh (opa builtin))

  -- _yaml_unmarshal
  unfoldable pub yaml_unmarshal : Value → Result Value
  yaml_unmarshal value = then_result require_yaml λ yaml. loaded_yaml yaml value

  -- `fn(*args)`: a call with another number of arguments is a `TypeError`.
  abbrev pub of_one : (Value → Result Value) → Callable
  of_one f (a ∷ []) = f a
  of_one f args = raised (fresh type_error)

  abbrev pub of_two : (Value → Value → Result Value) → Callable
  of_two f (a ∷ (b ∷ [])) = f a b
  of_two f args = raised (fresh type_error)

  abbrev pub default_builtins : Dict Callable
  default_builtins =
      ("sprintf", of_two (sprintf library.formats))
      ∷ ("json.is_valid", of_one json_is_valid)
      ∷ ("yaml.is_valid", of_one yaml_is_valid)
      ∷ ("yaml.marshal", of_one yaml_marshal)
      ∷ ("yaml.unmarshal", of_one yaml_unmarshal)
      ∷ []
