-- ===== src/Instance/Dispatch.antt =====
-- What the dispatch of a builtin may raise.
use opa_py_wasm.Base.{Bool-cases, inl, inr, String, ◌≡◌, true, Option, none, some, List, arith}
use opa_py_wasm.Base.Dict.{Dict, get}
use opa_py_wasm.Base.Int.{ℤ}
use opa_py_wasm.Errors.{
  IfException, Exn, kind_of, is_exception, opa, builtin, kind_of-fresh, kind_of-raise_saying,
}
use opa_py_wasm.Result.{Result, ok, raised, Exec, handled, continue, rethrow, throw, lift, ◌>>=◌}
use opa_py_wasm.Types.{Host}
use opa_py_wasm.Runtime.{Runtime}
use opa_py_wasm.Memory
use opa_py_wasm.Memory.{Limits}
use opa_py_wasm.Instance.{
  Callable, builtin_name, as_builtin_error, decode_args, wrapped, call_builtin, call_registered,
  call_named, dispatch_builtin,
}

-- An `Exception` that is raised is an `OpaBuiltinError`.
abbrev pub BuiltinErrorsOnly {ℓ} : {A : Type ℓ} → Result A → Type 0
BuiltinErrorsOnly (ok a) = Unit
BuiltinErrorsOnly (raised e) = IfException e (kind_of e ≡ opa builtin)

as_builtin_error-kind :
    (e : Exn)
    → is_exception (kind_of (as_builtin_error e)) ≡ true
    → kind_of (as_builtin_error e) ≡ opa builtin
unfolding as_builtin_error
as_builtin_error-kind e h = ground (arith, kind_of-raise_saying (opa builtin) "" e)

as_builtin_error-only :
    (e : Exn) → IfException (as_builtin_error e) (kind_of (as_builtin_error e) ≡ opa builtin)
as_builtin_error-only e = elim (Bool-cases (is_exception (kind_of (as_builtin_error e)))) [
  | inl x ↦ inr (as_builtin_error-kind e x)
  | inr x ↦ inl x
]

continue-only {ℓ κ μ} :
    {S : Type ℓ} {A : Type κ} {B : Type μ} (r : Result A) (f : A → Exec S B) (s : S)
    → BuiltinErrorsOnly r
    → ((a : A) (t : S) → BuiltinErrorsOnly (f a t).0)
    → BuiltinErrorsOnly (continue r f s).0
continue-only (ok a) f s h k = k a s
continue-only (raised e) f s h k = h

module _ (host : Host) (rt : Runtime) (limits : Limits) where
  handled-only {ℓ} :
      {A : Type ℓ} (r : Result A) (s : rt.State)
      → BuiltinErrorsOnly (handled (λ e. rethrow (as_builtin_error e)) r s).0
  unfolding rethrow
  handled-only (ok a) s = tt
  handled-only (raised e) s = as_builtin_error-only e

  wrapped-only {ℓ} :
      {A : Type ℓ} (m : Exec rt.State A) (s : rt.State)
      → BuiltinErrorsOnly (wrapped host rt limits m s).0
  wrapped-only m s = let (r, t) = m s in handled-only r t

  call_builtin-only :
      (fn : Callable) (arg_addrs : List ℤ) (s : rt.State)
      → BuiltinErrorsOnly (call_builtin host rt limits fn arg_addrs s).0
  unfolding call_builtin ◌>>=◌
  call_builtin-only fn arg_addrs s =
      continue-only _ _ _ (wrapped-only (decode_args host rt limits arg_addrs) s) λ args t.
        continue-only _ _ _ (wrapped-only (lift (fn args)) t) λ result u.
          wrapped-only (Memory.python_object_to_opa_value host rt result limits.max_result_bytes) u

  thrown-only : (s : rt.State) → BuiltinErrorsOnly (throw {A = ℤ} (opa builtin) s).0
  unfolding throw
  thrown-only s = inr (kind_of-fresh (opa builtin))

  registered-only :
      (fn : Option Callable) (arg_addrs : List ℤ) (s : rt.State)
      → BuiltinErrorsOnly (call_registered host rt limits fn arg_addrs s).0
  registered-only none arg_addrs s = thrown-only s
  registered-only (some fn) arg_addrs s = call_builtin-only fn arg_addrs s

  named-only :
      (name : Option String) (snapshot : Dict Callable) (arg_addrs : List ℤ) (s : rt.State)
      → BuiltinErrorsOnly (call_named host rt limits name snapshot arg_addrs s).0
  named-only none snapshot arg_addrs s = thrown-only s
  named-only (some name) snapshot arg_addrs s = registered-only (get name snapshot) arg_addrs s

  -- Whatever the policy asks for, whatever the callable and the guest do, an `Exception` that the
  -- dispatch of a builtin raises is an `OpaBuiltinError`.
  pub dispatch_builtin-only :
      (ids : Dict ℤ) (snapshot : Dict Callable) (builtin_id : ℤ) (arg_addrs : List ℤ) (s : rt.State)
      → BuiltinErrorsOnly (dispatch_builtin host rt limits ids snapshot builtin_id arg_addrs s).0
  unfolding dispatch_builtin
  dispatch_builtin-only ids snapshot builtin_id arg_addrs s =
      named-only (builtin_name ids builtin_id) snapshot arg_addrs s
