-- ===== src/Policy/Construction/Teardown.antt =====
-- A policy whose construction fails leaves nothing open.
use opa_py_wasm.Base.{◌⊎◌, inl, ◌≡◌, refl, true, false, Option, none, some}
use opa_py_wasm.Result.{Result, ok, raised, handled, continue, modify, ◌>>=◌, ◌>>◌, rethrow}
use opa_py_wasm.Types.{Host, PolicyConfig}
use opa_py_wasm.Runtime
use opa_py_wasm.Runtime.{Runtime}
use opa_py_wasm.Abi.{OpaAbiSpec}
use opa_py_wasm.Data.Checkpoint.{HeapLaws}
use opa_py_wasm.Instance.{Built, started}
use opa_py_wasm.Instance.Construction.{WasBuilt, build-WasBuilt}
use opa_py_wasm.Policy.Construction.{
  Metadata, Scaffold, new_scaffold, no_data, build_instance, read_and_close, tear_down, construct,
  built_on,
}

module _ (rt : Runtime) where
  -- No Store is open: the runtime never came to be, or it was closed.
  abbrev pub NoProbe : Option rt.State → Type 0
  NoProbe none = Unit
  NoProbe (some s) = (left : rt.State) × (s ≡ Runtime.close rt left)

  -- The construction that returns leaves the pool and the factory open, and one that raises closes
  -- both. The probe is gone, unless `start`, the start of the ticker, is what raised.
  abbrev pub WasMade : {A : Type 0} → Result (Unit {0}) → Result A → Scaffold rt → Type 0
  WasMade start (ok m) w = NoProbe w.probe × (w.pool_closed ≡ false) × (w.factory_closed ≡ false)
  WasMade start (raised e) w =
      (NoProbe w.probe ⊎ (start ≡ raised e)) × (w.pool_closed ≡ true) × (w.factory_closed ≡ true)

module _ (host : Host) (rt : Runtime) (laws : HeapLaws rt) (config : PolicyConfig)
    (spec : OpaAbiSpec) (ensured : Result (Unit {0})) where
  abbrev start : Result (Unit {0})
  start = started config.eval_timeout_ms ensured

  torn_down :
      (r : Result Metadata) (w : Scaffold rt)
      → NoProbe rt w.probe
      → w.pool_closed ≡ false
      → w.factory_closed ≡ false
      → let (q, u) = handled (λ e. (do tear_down; rethrow e)) r w in WasMade rt start q u
  unfolding tear_down ◌>>=◌ modify rethrow
  torn_down (ok m) w h p f = (h, p, f)
  torn_down (raised e) w h p f = (inl h, refl, refl)

  built-WasMade :
      (r : Result (Built rt)) (s : rt.State)
      → WasBuilt host rt config spec laws ensured 0 r s
      → let (q, w) =
          continue r (read_and_close host rt config) (record new_scaffold { probe = some s }) in
        let (o, u) = handled (λ e. (do tear_down; rethrow e)) q w in WasMade rt start o u
  unfolding read_and_close tear_down ◌>>=◌ modify rethrow
  built-WasMade (ok b) s h = torn_down _ _ (_, refl) refl refl
  built-WasMade (raised e) s h = (h, refl, refl)

  created-WasMade :
      (c : Result rt.State)
      → let (q, w) =
          (do b ← built_on host rt config spec ensured no_data c; read_and_close host rt config b)
            new_scaffold in
        let (o, u) = handled (λ e. (do tear_down; rethrow e)) q w in WasMade rt start o u
  unfolding ◌>>=◌
  created-WasMade (raised e) = torn_down (raised e) new_scaffold tt refl refl
  created-WasMade (ok store) =
      built-WasMade _ _ (build-WasBuilt host rt config spec laws ensured _ 0 store)

  -- Where the guest's heap pointer is what was last set, and a failed setting leaves it: if the
  -- construction of a policy returns, the Store of the probe is closed, and the pool and the factory
  -- are open. Whatever it raises, it has closed both, and the Store of the probe was never made or is
  -- closed, unless starting the ticker for a timeout is what raised.
  pub construct-WasMade :
      (created : Result rt.State)
      → let (r, w) = construct host rt config spec ensured created new_scaffold in
        WasMade rt start r w
  unfolding construct build_instance
  construct-WasMade created = created-WasMade created
