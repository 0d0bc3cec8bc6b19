-- ===== src/Instance/Construction.antt =====
-- What the constructor of an instance leaves behind.
use opa_py_wasm.Base.{ℕ, ◌≡◌, refl, false, ◌⊎◌, inl, inr}
use opa_py_wasm.Base.Dict.{Dict}
use opa_py_wasm.Base.Int.{ℤ}
use opa_py_wasm.Result.{Result, ok, raised, then_result, pure, lift, handled, continue, ◌>>=◌, ◌>>◌}
use opa_py_wasm.Result.Keeps.{Post, Returns, Returns-bind}
use opa_py_wasm.Types.{Value, Host, PolicyConfig}
use opa_py_wasm.Runtime
use opa_py_wasm.Runtime.{Runtime}
use opa_py_wasm.Abi.{OpaAbi, OpaAbiSpec}
use opa_py_wasm.Data.{Manager, load_data}
use opa_py_wasm.Data.Checkpoint.{HeapLaws, IsClean, Loaded, load_data-Loaded}
use opa_py_wasm.Instance.{Built, assembled, load_initial, build_parts, build, started}

module _ (host : Host) (rt : Runtime) (config : PolicyConfig) (spec : OpaAbiSpec)
    (laws : HeapLaws rt) where
  -- An instance ready for use, which owns the store that it leaves.
  abbrev pub IsReady : ℕ → Built rt → rt.State → Type 0
  IsReady version b s =
      (b.made.poisoned ≡ false)
      × (b.made.session.entered_wasm ≡ false)
      × (b.made.data_version ≡ version)
      × IsClean rt laws b.made.session.manager
      × (b.made.session.manager.store ≡ s)

  -- After the constructor has raised, the runtime is closed, or starting the ticker is what raised.
  abbrev pub WasBuilt : Result (Unit {0}) → ℕ → Result (Built rt) → rt.State → Type 0
  WasBuilt ensured version (ok b) s = IsReady version b s
  WasBuilt ensured version (raised e) s =
      ((left : rt.State) × (s ≡ Runtime.close rt left))
      ⊎ (started config.eval_timeout_ms ensured ≡ raised e)

  Loaded-Post :
      (abi : OpaAbi) (ids : Dict ℤ) (version : ℕ) (r : Result (Unit {0})) (d : Manager rt)
      → Loaded rt laws r d
      → let (o, t) =
          continue (then_result r (λ _. ok d)) (λ m. pure (assembled abi ids version m)) d.store in
        Post (IsReady version) o t
  unfolding pure
  Loaded-Post abi ids version (ok u) d h = (refl, refl, refl, h, refl)
  Loaded-Post abi ids version (raised e) d h = tt

  initial-Returns :
      (abi : OpaAbi) (ids : Dict ℤ) (version : ℕ) (value : Value) (manager : Manager rt)
      → Returns (IsReady version) (
          load_initial host rt config spec value manager >>= λ m.
          pure (assembled abi ids version m))
  unfolding ◌>>=◌
  initial-Returns abi ids version value manager = record {
    at = λ s.
        let (r, d) = load_data host rt config.max_data_bytes value (record manager { store = s }) in
        Loaded-Post abi ids version r d
          (load_data-Loaded rt laws host config.max_data_bytes value
            (record manager { store = s })).0;
  }

  parts-Returns :
      (value : Value) (version : ℕ)
      → Returns (IsReady version) (build_parts host rt config spec value version)
  unfolding build_parts
  parts-Returns value version = Returns-bind _ _ λ abi.
      Returns-bind _ _
        λ manager. Returns-bind _ _ λ ids. initial-Returns abi ids version value manager

  started-WasBuilt :
      (ensured q : Result (Unit {0})) (version : ℕ) (b : Built rt) (s : rt.State)
      → started config.eval_timeout_ms ensured ≡ q
      → IsReady version b s
      → let (o, t) = continue q (λ _. pure b) s in WasBuilt ensured version o t
  unfolding pure
  started-WasBuilt ensured (ok u) version b s e h = h
  started-WasBuilt ensured (raised x) version b s e h = inr e

  outcome-WasBuilt :
      (ensured : Result (Unit {0})) (version : ℕ) (r : Result (Built rt)) (s : rt.State)
      → Post (IsReady version) r s
      → let (q, u) = handled (λ e v. (raised e, Runtime.close rt v)) r s in
        let (o, t) =
          continue q (λ b. (do lift (started config.eval_timeout_ms ensured); pure b)) u in
        WasBuilt ensured version o t
  unfolding ◌>>=◌ lift
  outcome-WasBuilt ensured version (ok b) s h = started-WasBuilt ensured _ version b s refl h
  outcome-WasBuilt ensured version (raised e) s h = inl (s, refl)

  -- Where the guest's heap pointer is what was last set, and a failed setting leaves it: an instance
  -- that the constructor returns is neither poisoned nor entered, has the version asked for and a heap
  -- that ends at its checkpoint, and owns the store; and whatever the constructor raises, it has closed
  -- the runtime, unless it is starting the ticker for a timeout that raised.
  pub build-WasBuilt :
      (ensured : Result (Unit {0})) (value : Value) (version : ℕ) (s : rt.State)
      → let (o, t) = build host rt config spec ensured value version s in
        WasBuilt ensured version o t
  unfolding build ◌>>=◌
  build-WasBuilt ensured value version s =
      outcome-WasBuilt ensured version _ _ ((parts-Returns value version).at s)
