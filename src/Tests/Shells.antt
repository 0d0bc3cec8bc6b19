-- ===== src/Tests/Shells.antt =====
-- A run of the builder of the fixtures on a shell that keeps its temporary directories.
use opa_py_wasm.Base.{◌≡◌, refl, ap, String, true, none, some, List, [], ◌∷◌}
use opa_py_wasm.Base.Dict.{get}
use opa_py_wasm.Result.{ok, raised, ◌>>=◌}
use opa_py_wasm.Types.{dict, end}
use opa_py_wasm.Errors.{fresh, exit}
use opa_py_wasm.Policy
use opa_py_wasm.Fixtures
use opa_py_wasm.Fixtures.{Shell, main}
use opa_py_wasm.Fixtures.Tidy.{TempLaws, main-tidy}

abbrev rest_of : List String → List String
rest_of [] = []
rest_of (t ∷ ts) = ts

-- Every archive has one member, and every command writes nothing.
abbrev toy_shell : Shell
toy_shell = record {
  State = List String;
  environ = λ name. none;
  which = λ name. some "/bin/opa";
  sorted = λ names. names;
  first_line = λ text. ok text;
  loads = λ text. ok (dict end);
  dumps = λ v. ok "{}";
  exists = λ path s. true;
  make_dirs = λ path s. (ok tt, s);
  open_temp = λ s. (ok "/tmp/t", "/tmp/t" ∷ s);
  close_temp = λ tmp s. rest_of s;
  run = λ command s. (ok "", s);
  write_text = λ path text s. (ok tt, s);
  write_bytes = λ path raw s. (ok tt, s);
  members = λ path s. (ok (("policy.wasm", some (0 ∷ [])) ∷ []), s);
  ends_with = λ name tail. true;
}

abbrev rest_law : (tmp : String) (s rest : List String) → s ≡ tmp ∷ rest → rest_of s ≡ rest
rest_law tmp s rest h = ap rest_of h

abbrev toy_TempLaws : TempLaws toy_shell
toy_TempLaws = record {
  temps = λ s. s;
  open_law = λ s. refl;
  close_law = rest_law;
  run_law = λ command s. refl;
  dirs_law = λ path s. refl;
  text_law = λ path text s. refl;
  bytes_law = λ path raw s. refl;
  members_law = λ path s. refl;
}

-- A name that is no fixture ends the builder before it builds anything.
refuses :
    main toy_shell "rego" "wasm" ("allow_true" ∷ "no_such" ∷ []) [] ≡ (raised (fresh exit), [])
unfolding Fixtures.main Fixtures.opa_bin Fixtures.opa_version get ◌>>=◌
refuses = refl

builds : main toy_shell "rego" "wasm" ("allow_true" ∷ "custom_builtin" ∷ []) [] ≡ (ok tt, [])
unfolding Fixtures.main Fixtures.opa_bin Fixtures.opa_version Fixtures.build_all Fixtures.build_one
    Fixtures.build_in Fixtures.in_temp Fixtures.policy_member Fixtures.write_custom_capabilities
    Fixtures.add_builtin Policy.field_of get ◌>>=◌
builds = refl

main-tidy_example :
    (main toy_shell "rego" "wasm" ("custom_builtin" ∷ []) ("/tmp/other" ∷ [])).1 ≡ "/tmp/other" ∷ []
main-tidy_example =
    main-tidy toy_shell toy_TempLaws "rego" "wasm" ("custom_builtin" ∷ []) ("/tmp/other" ∷ [])
