-- ===== src/Policy/Construction.antt =====
-- opapywasm/policy.py, `__init__` and `_build_instance`: the factory, the pool and the probe that reads
-- the metadata of the policy.
pub mod Teardown
use opa_py_wasm.Base.{Bool, true, false, Option, none, some, ◌∷◌, []}
use opa_py_wasm.Base.Dict.{Dict}
use opa_py_wasm.Base.Int.{ℤ}
use opa_py_wasm.Errors.{Exn}
use opa_py_wasm.Result.{
  Result, ok, raised, then_result, Exec, pure, gets, lift, modify, rethrow, catch, ◌>>=◌, ◌>>◌,
}
use opa_py_wasm.Types.{Host, PolicyConfig}
use opa_py_wasm.Runtime.{Runtime}
use opa_py_wasm.Abi.{OpaAbi, OpaAbiSpec}
use opa_py_wasm.Instance
use opa_py_wasm.Instance.{Built}
use opa_py_wasm.Policy.{DataState, as_value}

-- `_data`, `_data_version` and `_closed`, as the constructor sets them.
abbrev pub no_data : DataState
no_data = record { document = none; version = 0; closed = false }

-- What is read once from the probe.
pub record Metadata : Type 0 where
  pub entrypoints : Dict ℤ
  pub builtins : Dict ℤ
  pub abi_version : ℤ × ℤ

-- What the constructor has opened: the Store of the probe, once its runtime exists, the pool and the
-- factory with its ticker.
pub record Scaffold (rt : Runtime) : Type 0 where
  pub probe : Option rt.State
  pub pool_closed : Bool
  pub factory_closed : Bool

abbrev pub new_scaffold : {rt : Runtime} → Scaffold rt
new_scaffold = record { probe = none; pool_closed = false; factory_closed = false }

module _ (host : Host) (rt : Runtime) (config : PolicyConfig) where
  -- `probe.entrypoints()`, `probe.builtins()` and `probe.abi.abi_version`
  unfoldable pub read_metadata : OpaAbi → Exec rt.State Metadata
  read_metadata abi = do
    entrypoints ← Instance.entrypoints host rt config
    builtins ← Instance.builtins host rt config
    pure (record {
      entrypoints = entrypoints;
      builtins = builtins;
      abi_version = (abi.major, abi.minor);
    })

  -- The inner `try` block, and its `finally: probe.close()`.
  unfoldable pub read_and_close : Built rt → Exec (Scaffold rt) Metadata
  read_and_close b w =
      let (r, left) = read_metadata b.abi b.made.session.manager.store in
      (r, record w { probe = some (Instance.close rt left) })

-- `self._pool.close()` and `self._factory.close()`
unfoldable pub tear_down : {rt : Runtime} → Exec (Scaffold rt) (Unit {0})
tear_down = do
  modify (λ w. record w { pool_closed = true })
  modify (λ w. record w { factory_closed = true })

module _ (host : Host) (rt : Runtime) (config : PolicyConfig) (spec : OpaAbiSpec)
    (ensured : Result (Unit {0})) where
  abbrev pub built_on : DataState → Result rt.State → Exec (Scaffold rt) (Built rt)
  built_on d (raised e) w = (raised e, w)
  built_on d (ok store) w =
      let (r, left) =
        Instance.build host rt config spec ensured (as_value d.document) d.version store in
      (r, record w { probe = some left })

  -- _build_instance; `created` is what `create_runtime` gives.
  unfoldable pub build_instance :
      (created : Result rt.State) → DataState → Exec (Scaffold rt) (Built rt)
  build_instance created d = built_on d created

  -- OpaWasmPolicy.__init__ from the probe on.
  unfoldable pub construct : (created : Result rt.State) → Exec (Scaffold rt) Metadata
  construct created =
      catch (do b ← build_instance created no_data; read_and_close host rt config b)
        λ e. (do tear_down; rethrow e)
