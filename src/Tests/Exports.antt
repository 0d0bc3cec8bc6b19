-- ===== src/Tests/Exports.antt =====
-- The exports of the toy module, and what binding it tells.
use opa_py_wasm.Base.{◌≡◌, refl, true, false, ◌↔◌}
use opa_py_wasm.Base.Int.{pos}
use opa_py_wasm.Base.Dict.{get}
use opa_py_wasm.Result.{ok}
use opa_py_wasm.Runtime
use opa_py_wasm.Abi
use opa_py_wasm.Abi.Typed.{checked, wrappers_fit}
use opa_py_wasm.Abi.Conforms.{bind_iff, IsSupported}
use opa_py_wasm.Tests.Guest.{toy, toy_guest, toy_exports}

bind_iff_example :
    ((a : Abi.OpaAbi) × (Abi.bind Abi.default_spec toy_exports ≡ ok a)) ↔ IsSupported toy_exports
bind_iff_example = bind_iff toy_exports

abbrev toy_abi : Abi.OpaAbi
toy_abi = record {
  major = pos 1;
  minor = pos 3;
  supports_opa_eval = true;
  supports_eval_context = false;
  supports_heap_stash = false;
  supports_value_free = false;
}

binds : Abi.bind Abi.default_spec toy_exports ≡ ok toy_abi
unfolding Abi.bind Abi.read_version get Abi.check_version Abi.validate_required_exports
    Abi.default_required Runtime.has_export Abi.requires_eval_fast_path
    Abi.validate_export_signatures Abi.expected_signatures Runtime.get_func Runtime.get_export
binds = refl

wrappers_fit_example :
    (Abi.opa_malloc (checked toy) (pos 1) toy_guest ≡ Abi.opa_malloc toy (pos 1) toy_guest)
    × (Abi.opa_free (checked toy) (pos 1) toy_guest ≡ Abi.opa_free toy (pos 1) toy_guest)
    × (Abi.opa_json_parse (checked toy) (pos 1) (pos 2) toy_guest
        ≡ Abi.opa_json_parse toy (pos 1) (pos 2) toy_guest)
    × (Abi.opa_json_dump (checked toy) (pos 1) toy_guest ≡ Abi.opa_json_dump toy (pos 1) toy_guest)
    × (Abi.opa_heap_ptr_get (checked toy) toy_guest ≡ Abi.opa_heap_ptr_get toy toy_guest)
    × (Abi.opa_heap_ptr_set (checked toy) (pos 1) toy_guest
        ≡ Abi.opa_heap_ptr_set toy (pos 1) toy_guest)
    × (Abi.entrypoints (checked toy) toy_guest ≡ Abi.entrypoints toy toy_guest)
    × (Abi.builtins (checked toy) toy_guest ≡ Abi.builtins toy toy_guest)
    × (Abi.opa_eval (checked toy) (pos 1) (pos 2) (pos 3) (pos 4) (pos 5) toy_guest
        ≡ Abi.opa_eval toy (pos 1) (pos 2) (pos 3) (pos 4) (pos 5) toy_guest)
wrappers_fit_example =
    wrappers_fit toy toy_guest toy_abi (pos 1) (pos 2) (pos 3) (pos 4) (pos 5) binds
