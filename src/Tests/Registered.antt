-- ===== src/Tests/Registered.antt =====
-- A builtin that is registered anew on a policy, and what its dispatch calls then.
use opa_py_wasm.Base.{not, ◌&&◌, some, none, ◌≡◌, refl, true, false, [], ◌∷◌, if◌then◌else◌, str_eq}
use opa_py_wasm.Base.Int.{pos}
use opa_py_wasm.Result.{is_ok, ok, raised, ◌>>=◌}
use opa_py_wasm.Errors.{fresh, opa, builtin}
use opa_py_wasm.Types.{int, default_config}
use opa_py_wasm.Builtins.{Registry, is_registered, register}
use opa_py_wasm.Policy.Registration.{register_builtin, dispatch_with}
use opa_py_wasm.Policy.Registration.Reached.{register_builtin-dispatch}
use opa_py_wasm.Instance
use opa_py_wasm.Instance.{Instance, limits_of}
use opa_py_wasm.Tests.Guest.{toy, toy_host}
use opa_py_wasm.Tests.Scripts.{failing}

-- The builtin that the guest asks for is registered anew.
abbrev first_registry : Registry
first_registry = record { objects = failing ∷ []; published = 0 }

abbrev answering : Instance.Callable
answering args = ok (int (pos 1))

named : Instance.builtin_name (("f", pos 2) ∷ []) (pos 2) ≡ some "f"
unfolding Instance.builtin_name
named = refl

register_builtin-dispatch_example :
    let limits = limits_of default_config in
    let (o, q) = register_builtin false "f" (some answering) true first_registry in
    (is_ok o ≡ (not false && (true && not (not true && is_registered "f" first_registry))))
    × (dispatch_with toy_host toy limits q (("f", pos 2) ∷ []) (pos 2) (pos 9 ∷ []) ≡ (
        if is_ok o && str_eq "f" "f"
        then Instance.call_registered toy_host toy limits (some answering) (pos 9 ∷ [])
        else dispatch_with toy_host toy limits first_registry
            (("f", pos 2) ∷ [])
            (pos 2)
            (pos 9 ∷ [])))
register_builtin-dispatch_example =
    register_builtin-dispatch toy_host toy (limits_of default_config) (("f", pos 2) ∷ []) (pos 2)
      (pos 9 ∷ []) false "f" "f" (some answering) true first_registry named

-- What cannot be called is refused, as `test_register_non_callable_raises` has it.
refuses_other :
    register_builtin false "f" none true first_registry
    ≡ (raised (fresh (opa builtin)), first_registry)
unfolding register_builtin register ◌>>=◌
refuses_other = refl
