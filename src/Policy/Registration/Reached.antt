-- ===== src/Policy/Registration/Reached.antt =====
-- What a registration changes for the dispatch.
use opa_py_wasm.Base.{
  ◌≡◌, refl, ap, sym, ◌∙◌, String, Bool, true, false, not, ◌&&◌, some, Option, List, if◌then◌else◌,
  str_eq,
}
use opa_py_wasm.Base.Dict.{Dict, get}
use opa_py_wasm.Base.Int.{ℤ}
use opa_py_wasm.Errors.Chain.{is_some}
use opa_py_wasm.Result.{is_ok, ◌>>=◌}
use opa_py_wasm.Types.{Host}
use opa_py_wasm.Runtime.{Runtime}
use opa_py_wasm.Memory.{Limits}
use opa_py_wasm.Instance.{Callable, builtin_name, call_registered, dispatch_builtin}
use opa_py_wasm.Builtins.{Registry, is_registered, register, snapshot, view}
use opa_py_wasm.Builtins.Snapshots.{register_lem}
use opa_py_wasm.Policy.Registration.{register_builtin, dispatch_with}

module _ (host : Host) (rt : Runtime) (limits : Limits) (ids : Dict ℤ) (builtin_id : ℤ)
    (arg_addrs : List ℤ) where
  dispatched :
      (r : Registry) (other : String)
      → builtin_name ids builtin_id ≡ some other
      → dispatch_with host rt limits r ids builtin_id arg_addrs
        ≡ call_registered host rt limits (get other (view (snapshot r) r)) arg_addrs
  unfolding dispatch_with dispatch_builtin
  dispatched r other named = rw named refl

  chosen :
      (b : Bool) (fn found : Option Callable)
      → call_registered host rt limits (if b then fn else found) arg_addrs ≡ (
          if b
          then call_registered host rt limits fn arg_addrs
          else call_registered host rt limits found arg_addrs)
  chosen true fn found = refl
  chosen false fn found = refl

  -- Where the module knows the id by the name `other`: a registration is accepted exactly where the
  -- policy is not closed, what is given can be called, and replacing is on or its name is free; after
  -- it, the dispatch of the id calls what was given if the registration was accepted under `other`,
  -- and is as before if not.
  pub register_builtin-dispatch :
      (closed : Bool) (name other : String) (fn : Option Callable) (replace : Bool) (r : Registry)
      → builtin_name ids builtin_id ≡ some other
      → let (o, q) = register_builtin closed name fn replace r in
        (is_ok o ≡ (not closed && (is_some fn && not (not replace && is_registered name r))))
        × (dispatch_with host rt limits q ids builtin_id arg_addrs ≡ (
            if is_ok o && str_eq name other
            then call_registered host rt limits fn arg_addrs
            else dispatch_with host rt limits r ids builtin_id arg_addrs))
  unfolding register_builtin ◌>>=◌
  register_builtin-dispatch true name other fn replace r named = (refl, refl)
  register_builtin-dispatch false name other fn replace r named =
      let (o, q) = register name fn replace r in
      let (accepted, found) = register_lem name other fn replace r in
      (
        accepted,
        dispatched q other named
            ∙ ap (λ f. call_registered host rt limits f arg_addrs) found
            ∙ chosen (is_ok o && str_eq name other) fn (get other (view (snapshot r) r))
            ∙ ap
                (λ m.
                  if is_ok o && str_eq name other
                  then call_registered host rt limits fn arg_addrs
                  else m)
                (sym (dispatched r other named)),
      )
