-- ===== src/Policy/Registration.antt =====
-- opapywasm/policy.py, `register_builtin` on a policy with its registry, and what the dispatch of an
-- instance of the policy then calls.
pub mod Reached
use opa_py_wasm.Base.{String, Bool, List, Option}
use opa_py_wasm.Base.Dict.{Dict}
use opa_py_wasm.Base.Int.{ℤ}
use opa_py_wasm.Errors.{opa, policy_closed}
use opa_py_wasm.Result.{Exec, raise_if, ◌>>◌}
use opa_py_wasm.Types.{Host}
use opa_py_wasm.Runtime.{Runtime}
use opa_py_wasm.Memory.{Limits}
use opa_py_wasm.Instance
use opa_py_wasm.Instance.{Callable}
use opa_py_wasm.Builtins.{Registry, register, snapshot, view}

-- `closed` is what `_raise_if_closed` reads.
unfoldable pub register_builtin :
    (closed : Bool) → String → Option Callable → Bool → Exec Registry (Unit {0})
register_builtin closed name fn replace = do
  raise_if closed (opa policy_closed)
  register name fn replace

module _ (host : Host) (rt : Runtime) (limits : Limits) where
  -- `_dispatch_builtin`, which takes a snapshot of the registry that the policy shares.
  unfoldable pub dispatch_with : Registry → Dict ℤ → ℤ → List ℤ → Exec rt.State ℤ
  dispatch_with r ids builtin_id arg_addrs =
      Instance.dispatch_builtin host rt limits ids (view (snapshot r) r) builtin_id arg_addrs
