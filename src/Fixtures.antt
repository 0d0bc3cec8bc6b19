-- ===== src/Fixtures.antt =====
-- scripts/build_fixtures.py: the builder of the test fixtures. The operating system, the OPA command
-- and the tar archives are the record `Shell`, a parameter. What the script prints is left out.

pub mod Tidy
use Prim.Native.String.{◌++◌ as append}
use opa_py_wasm.Base.{
  not, ℕ, String, Bool, true, false, ◌&&◌, Option, none, some, List, [], ◌∷◌, ◌++◌, if◌then◌else◌,
  str_eq, map,
}
use opa_py_wasm.Base.Dict.{Dict, get}
use opa_py_wasm.Errors.{fresh, exit, other}
use opa_py_wasm.Errors.Chain.{is_some}
use opa_py_wasm.Result.{Result, ok, raised, Exec, pure, lift, throw, raise_if, ◌>>=◌, ◌>>◌}
use opa_py_wasm.Types.{Bytes, Value, str, list, dict, Items, no_items, item, Fields, end, field}
use opa_py_wasm.Policy.{field_of}

-- FIXTURE_ENTRYPOINTS
abbrev pub fixture_entrypoints : Dict (List String)
fixture_entrypoints =
    ("allow_true", "authz/allow" ∷ [])
    ∷ ("allow_false", "authz/allow" ∷ [])
    ∷ ("input_based", "authz/allow" ∷ [])
    ∷ ("data_based", "authz/allow" ∷ [])
    ∷ ("multi_entrypoint", "authz/allow" ∷ "authz/deny" ∷ "authz/roles" ∷ [])
    ∷ ("return_object", "authz/result" ∷ [])
    ∷ ("return_array", "authz/items" ∷ [])
    ∷ ("return_scalar", "authz/message" ∷ [])
    ∷ ("undefined_result", "authz/allow" ∷ [])
    ∷ ("null_result", "authz/result" ∷ [])
    ∷ ("slow_loop", "authz/result" ∷ [])
    ∷ ("default_builtins", "authz/result" ∷ [])
    ∷ ("unsupported_builtin", "authz/result" ∷ [])
    ∷ ("custom_builtin", "authz/result" ∷ [])
    ∷ []

-- CUSTOM_BUILTIN_FIXTURES
abbrev pub custom_builtin_fixtures : Dict String
custom_builtin_fixtures = ("custom_builtin", "my.custom_builtin") ∷ []

-- `sorted` orders names, `first_line` is `text.strip().splitlines()[0]`, and a member of an archive
-- has a content unless it is no file. `run` is `subprocess.run` with `check=True`, and gives what the
-- command writes.
pub record Shell : Type 1 where
  pub State : Type 0
  pub environ : String → Option String
  pub which : String → Option String
  pub sorted : List String → List String
  pub first_line : String → Result String
  pub loads : String → Result Value
  pub dumps : Value → Result String
  pub exists : String → State → Bool
  pub make_dirs : String → State → Result (Unit {0}) × State
  pub open_temp : State → Result String × State
  pub close_temp : String → State → State
  pub run : List String → State → Result String × State
  pub write_text : String → String → State → Result (Unit {0}) × State
  pub write_bytes : String → Bytes → State → Result (Unit {0}) × State
  pub members : String → State → Result (List (String × Option Bytes)) × State
  pub ends_with : String → String → Bool

abbrev or_opa : Option String → String
or_opa (some opa) = opa
or_opa none = "opa"

abbrev pub found_or_exit {ℓ} : {S : Type ℓ} {A : Type 0} → Option A → Exec S A
found_or_exit none = throw exit
found_or_exit (some a) = pure a

-- The declaration of a builtin that takes and gives any value.
abbrev pub declaration : String → Value
declaration name = dict (
    field "name" (str name) (
      field "description" (str (append "Test-only custom host builtin (" (append name ")."))) (
        field "decl"
          (dict (
            field "type" (str "function") (
              field "args"
                (list (
                  item (dict (field "type" (str "any") (field "name" (str "value") end))) no_items))
                (field "result" (dict (field "type" (str "any") (field "name" (str "result") end)))
                  end))))
          end)))

abbrev append_item : Items → Value → Items
append_item no_items v = item v no_items
append_item (item w rest) v = item w (append_item rest v)

abbrev replaced : String → Value → Fields → Fields
replaced name v end = field name v end
replaced name v (field n w rest) =
    let later = replaced name v rest in if str_eq n name then field n v rest else field n w later

abbrev with_builtin : Value → Fields → Option Value → Result Value
with_builtin decl fields none = ok (dict (replaced "builtins" (list (item decl no_items)) fields))
with_builtin decl fields (some (list items)) =
    ok (dict (replaced "builtins" (list (append_item items decl)) fields))
with_builtin decl fields (some v) = raised (fresh other)

-- caps.setdefault("builtins", []).append(...)
unfoldable pub add_builtin : Value → Value → Result Value
add_builtin decl (dict fields) = with_builtin decl fields (field_of "builtins" fields)
add_builtin decl v = raised (fresh other)

module _ (sh : Shell) where
  -- _opa_bin
  unfoldable pub opa_bin : Exec sh.State String
  opa_bin = found_or_exit (sh.which (or_opa (sh.environ "OPA_BIN")))

  -- _opa_version
  unfoldable pub opa_version : String → Exec sh.State String
  opa_version opa = do
    out ← sh.run (opa ∷ "version" ∷ [])
    (if str_eq out "" then pure "unknown" else lift (sh.first_line out))

  -- _write_custom_capabilities
  unfoldable pub write_custom_capabilities : String → String → String → Exec sh.State String
  write_custom_capabilities opa builtin_name dest = do
    text ← sh.run (opa ∷ "capabilities" ∷ "--current" ∷ [])
    caps ← lift (sh.loads text)
    changed ← lift (add_builtin (declaration builtin_name) caps)
    written ← lift (sh.dumps changed)
    sh.write_text dest written
    pure dest

  abbrev entry_options : List String → List String
  entry_options [] = []
  entry_options (ep ∷ eps) = "-e" ∷ ep ∷ entry_options eps

  abbrev pub capability_options : String → String → Option String → Exec sh.State (List String)
  capability_options opa tmp none = pure []
  capability_options opa tmp (some name) = do
    caps ← write_custom_capabilities opa name (append tmp "/capabilities.json")
    pure ("--capabilities" ∷ caps ∷ [])

  -- The first member whose name ends in `policy.wasm`.
  unfoldable pub policy_member : List (String × Option Bytes) → Option (Option Bytes)
  policy_member [] = none
  policy_member ((name, content) ∷ ms) =
      if sh.ends_with name "policy.wasm" then some content else policy_member ms

  -- `assert extracted is not None`
  abbrev pub extracted : Option Bytes → Exec sh.State Bytes
  extracted none = throw other
  extracted (some raw) = pure raw

  -- The body of the `with tempfile.TemporaryDirectory()` block.
  unfoldable pub build_in :
      String → String → List String → String → String → String → Exec sh.State (Unit {0})
  build_in opa stem entrypoints rego out_wasm tmp = do
    caps ← capability_options opa tmp (get stem custom_builtin_fixtures)
    sh.run (
        (opa ∷ "build" ∷ "-t" ∷ "wasm" ∷ entry_options entrypoints)
        ++ (caps ++ ("-o" ∷ append tmp "/bundle.tar.gz" ∷ rego ∷ [])))
    ms ← sh.members (append tmp "/bundle.tar.gz")
    member ← found_or_exit (policy_member ms)
    raw ← extracted member
    sh.write_bytes out_wasm raw

  -- The block: the directory is removed however it ends.
  abbrev pub with_temp :
      Result String → (String → Exec sh.State (Unit {0})) → Exec sh.State (Unit {0})
  with_temp (raised e) body s = (raised e, s)
  with_temp (ok tmp) body s = let (r, t) = body tmp s in (r, sh.close_temp tmp t)

  unfoldable pub in_temp : (String → Exec sh.State (Unit {0})) → Exec sh.State (Unit {0})
  in_temp body s = let (r, t) = sh.open_temp s in with_temp r body t

  abbrev pub known : Option (List String) → Exec sh.State (List String)
  known none = throw other
  known (some entrypoints) = pure entrypoints

  -- `rego_dir` and `wasm_dir` are REGO_DIR and WASM_DIR.
  module _ (rego_dir wasm_dir : String) where
    unfoldable pub build_one : String → String → Exec sh.State (Unit {0})
    build_one opa stem s =
        (do
          raise_if (not (sh.exists (rego_of stem) s)) exit
          entrypoints ← known (get stem fixture_entrypoints)
          sh.make_dirs wasm_dir
          in_temp (build_in opa stem entrypoints (rego_of stem) (wasm_of stem)))
          s
      where
        rego_of : String → String
        rego_of name = append rego_dir (append "/" (append name ".rego"))

        wasm_of : String → String
        wasm_of name = append wasm_dir (append "/" (append name ".wasm"))

    unfoldable pub build_all : String → List String → Exec sh.State (Unit {0})
    build_all opa [] = pure tt
    build_all opa (stem ∷ stems) = do build_one opa stem; build_all opa stems

    abbrev pub all_known : List String → Bool
    all_known [] = true
    all_known (stem ∷ stems) = is_some (get stem fixture_entrypoints) && all_known stems

    abbrev pub requested : List String → List String
    requested [] = sh.sorted (map (λ (p : String × List String). p.0) fixture_entrypoints)
    requested (stem ∷ stems) = stem ∷ stems

    -- `main`, on the arguments after the name of the script.
    unfoldable pub main : List String → Exec sh.State (Unit {0})
    main args = do
      opa ← opa_bin
      opa_version opa
      raise_if (not (all_known (requested args))) exit
      build_all opa (requested args)
