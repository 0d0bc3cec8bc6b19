-- ===== src/Instance/Poison.antt =====
-- When an instance marks itself poisoned.
use opa_py_wasm.Base.{
  ℕ, ◌≡◌, refl, Bool, false, ◌&&◌, ◌||◌, arith, if◌then◌else◌, Bool-cases, inl, inr,
}
use opa_py_wasm.Base.Int.{ℤ}
use opa_py_wasm.Errors.{kind_of, is_exception}
use opa_py_wasm.Result.{Result, ok, raised, is_ok, failed, handled, modify, ◌>>=◌}
use opa_py_wasm.Types.{Value, Host, PolicyConfig}
use opa_py_wasm.Runtime.{Runtime}
use opa_py_wasm.Data.{load_data}
use opa_py_wasm.Data.Checkpoint.{HeapLaws, Loaded, load_data-Loaded}
use opa_py_wasm.Evaluator
use opa_py_wasm.Evaluator.{Session, on_error, encoded, evaluate_encoded}
use opa_py_wasm.Evaluator.Entered.{evaluate_encoded-flag}
use opa_py_wasm.Instance.{
  Instance, settings_of, on_session, on_manager, reload_data, evaluate, evaluate_failed,
  reload_failed,
}

module _ (host : Host) (rt : Runtime) (config : PolicyConfig) where
  -- Whether the input can be serialised, within the limit.
  abbrev pub accepted : Value → Bool
  accepted input_value = is_ok (encoded host rt (settings_of host config) input_value)

  after_evaluate :
      (r : Result Value) (i : Instance rt) (b : Bool)
      → i.session.entered_wasm ≡ b
      → let (o, j) = handled (evaluate_failed rt) r i in
        (j.poisoned ≡ (i.poisoned || (b && failed o))) × (j.data_version ≡ i.data_version)
  unfolding ◌>>=◌
  after_evaluate (ok value) i b h = ground arith
  after_evaluate (raised e) i b h = ground arith

  -- An evaluation poisons its instance exactly when it raises an `Exception` after the input was
  -- serialised, that is, after guest execution began. It never clears the mark.
  pub evaluate-poisoned :
      (input_value : Value) (entrypoint_id : ℤ) (i : Instance rt)
      → let (o, j) = evaluate host rt config input_value entrypoint_id i in
        (j.poisoned ≡ (i.poisoned || (accepted input_value && failed o)))
        × (j.data_version ≡ i.data_version)
  unfolding evaluate Evaluator.evaluate on_session ◌>>=◌
  evaluate-poisoned input_value entrypoint_id i =
      let (r, s) =
        Evaluator.evaluate host rt (settings_of host config) input_value entrypoint_id
          (record i.session { entered_wasm = false }) in
      after_evaluate r (record i { session = s }) (accepted input_value)
        (evaluate_encoded-flag host rt (settings_of host config)
          (encoded host rt (settings_of host config) input_value) entrypoint_id _ refl)

  after_reload :
      (laws : HeapLaws rt) (version : ℕ) (r : Result (Unit {0})) (i : Instance rt)
      → Loaded rt laws r i.session.manager
      → let (o, j) =
          (handled (reload_failed rt) r >>= λ _. modify λ k. record k { data_version = version })
            i in
        (j.poisoned ≡ (i.poisoned || failed o))
        × (j.data_version ≡ (if is_ok o then version else i.data_version))
        × Loaded rt laws o j.session.manager
  unfolding ◌>>=◌
  after_reload laws version (ok u) i h = (ground arith, refl, h)
  after_reload laws version (raised e) i h = elim (Bool-cases (is_exception (kind_of e))) [
    | inl x ↦ rw x (ground arith, refl, elim h [ inl n ↦ absurd (ground arith) | inr p ↦ inr p ])
    | inr x ↦ rw x (ground arith, refl, inl x)
  ]

  pub reload_data-outcome :
      (laws : HeapLaws rt) (value : Value) (version : ℕ) (i : Instance rt)
      → let (o, j) = reload_data host rt config value version i in
        (j.poisoned ≡ (i.poisoned || failed o))
        × (j.data_version ≡ (if is_ok o then version else i.data_version))
        × Loaded rt laws o j.session.manager
  unfolding reload_data on_manager ◌>>=◌
  reload_data-outcome laws value version i =
      let (r, d) = load_data host rt config.max_data_bytes value i.session.manager in
      after_reload laws version r (record i { session = record i.session { manager = d } })
        (load_data-Loaded rt laws host config.max_data_bytes value i.session.manager).0
