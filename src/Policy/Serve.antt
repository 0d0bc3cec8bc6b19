-- ===== src/Policy/Serve.antt =====
-- opapywasm/policy.py, `evaluate` and `evaluate_raw`, from the arguments to the decision, with the
-- instance that the pool has lent.
use opa_py_wasm.Base.{
  ℕ, ◌≡◌, refl, Bool, true, false, not, ◌⊎◌, ◌&&◌, Option, arith, ◌==◌, if◌then◌else◌, Bool-cases,
  inl, inr,
}
use opa_py_wasm.Base.Dict.{Dict}
use opa_py_wasm.Base.Int.{ℤ}
use opa_py_wasm.Errors.{IfException, kind_of, is_exception, is_opa}
use opa_py_wasm.Result.{Result, ok, raised, is_ok, Exec, lift, handled, continue, ◌>>=◌, ◌>>◌}
use opa_py_wasm.Types.{Bytes, Value, Host, Entrypoint, PolicyConfig}
use opa_py_wasm.Runtime.{Runtime}
use opa_py_wasm.Data.Checkpoint.{HeapLaws, HeapFailed, IsClean, Loaded}
use opa_py_wasm.Evaluator
use opa_py_wasm.Evaluator.{encoded}
use opa_py_wasm.Evaluator.Outcomes.{Finished, evaluate-Finished}
use opa_py_wasm.Instance
use opa_py_wasm.Instance.{Instance, settings_of, evaluate_failed, on_session}
use opa_py_wasm.Instance.Poison.{accepted, reload_data-outcome}
use opa_py_wasm.Policy.{
  DataState, Decision, resolve_entrypoint, simplify_result, refresh_if_stale, as_value,
}
use opa_py_wasm.Policy.Decisions.{
  IsResolved, IsDecision, resolve_entrypoint-IsResolved, simplify_result-IsDecision,
}

-- The body of `evaluate` on the borrowed instance: the entrypoint first, then the refresh of the
-- borrow, the evaluation and the simplified result.
unfoldable pub evaluate_on :
    Host
    → (rt : Runtime) → PolicyConfig
    → Dict ℤ
    → DataState
    → Value
    → Option Entrypoint
    → Exec (Instance rt) Decision
evaluate_on host rt config entrypoints state input_value e = do
  ident ← lift (resolve_entrypoint config entrypoints e)
  refresh_if_stale host rt config state
  raw ← Instance.evaluate host rt config input_value ident
  lift (simplify_result config raw)

module _ (rt : Runtime) where
  -- `Q` holds where a value is returned, and an `Exception` that is raised is one of errors.py, or,
  -- where `bare`, what a call for the heap pointer raised.
  abbrev pub Outcome : {S A : Type 0} → Bool → (A → S → Type 0) → Result A → S → Type 0
  Outcome bare Q (ok a) s = Q a s
  Outcome bare Q (raised e) s =
      IfException e ((is_opa (kind_of e) ≡ true) ⊎ ((bare ≡ true) × HeapFailed rt e))

  continue-Outcome :
      {S A B : Type 0} (bare : Bool) (Q : A → S → Type 0) (P : B → S → Type 0) (r : Result A)
      (rest : A → Exec S B) (s : S)
      → Outcome bare Q r s
      → ((a : A) → Q a s → Outcome bare P (rest a s).0 (rest a s).1)
      → Outcome bare P (continue r rest s).0 (continue r rest s).1
  continue-Outcome bare Q P (ok a) rest s h go = go a h
  continue-Outcome bare Q P (raised e) rest s h go = h

module _ (host : Host) (rt : Runtime) (config : PolicyConfig) (laws : HeapLaws rt) where
  -- An instance at a version, whose heap ends at its checkpoint.
  abbrev pub IsServed : ℕ → Instance rt → Type 0
  IsServed version i = (i.data_version ≡ version) × IsClean rt laws i.session.manager

  -- Whether the instance has to load the data, or the input cannot be serialised.
  abbrev pub loads_or_refuses : DataState → Value → Instance rt → Bool
  loads_or_refuses state input_value i =
      not (i.data_version == state.version && accepted host rt config input_value)

  module _ (bare : Bool) where
    failed-Outcome :
        (input : Result Bytes) (version : ℕ) (r : Result Value) (i : Instance rt)
        → (is_ok input ≡ false → bare ≡ true)
        → i.data_version ≡ version
        → Finished host rt (settings_of host config) laws input r i.session
        → let (o, j) = handled (evaluate_failed rt) r i in
          Outcome rt bare (λ _ k. IsServed version k) o j
    unfolding ◌>>=◌
    failed-Outcome input version (ok value) i b v h = (v, h)
    failed-Outcome (ok raw) version (raised e) i b v h =
        elim (Bool-cases (is_exception (kind_of e) && i.session.entered_wasm)) [
          | inl x ↦ rw x (typed h)
          | inr x ↦ rw x (typed h)
        ]
      where
        typed :
            IfException e (is_opa (kind_of e) ≡ true)
            → IfException e ((is_opa (kind_of e) ≡ true) ⊎ ((bare ≡ true) × HeapFailed rt e))
        typed (inl n) = inl n
        typed (inr k) = inr (inl k)
    failed-Outcome (raised y) version (raised e) i b v h =
        elim (Bool-cases (is_exception (kind_of e) && i.session.entered_wasm)) [
          | inl x ↦ rw x (typed h)
          | inr x ↦ rw x (typed h)
        ]
      where
        typed :
            IfException e ((is_opa (kind_of e) ≡ true) ⊎ HeapFailed rt e)
            → IfException e ((is_opa (kind_of e) ≡ true) ⊎ ((bare ≡ true) × HeapFailed rt e))
        typed (inl n) = inl n
        typed (inr (inl k)) = inr (inl k)
        typed (inr (inr f)) = inr (inr (b refl, f))

    evaluate-Outcome :
        (version : ℕ) (input_value : Value) (ident : ℤ) (i : Instance rt)
        → (accepted host rt config input_value ≡ false → bare ≡ true)
        → i.data_version ≡ version
        → let (o, j) = Instance.evaluate host rt config input_value ident i in
          Outcome rt bare (λ _ k. IsServed version k) o j
    unfolding Instance.evaluate on_session ◌>>=◌
    evaluate-Outcome version input_value ident i b v =
        let before = record i.session { entered_wasm = false } in
        let (r, s) =
          Evaluator.evaluate host rt (settings_of host config) input_value ident before in
        failed-Outcome (encoded host rt (settings_of host config) input_value) version r
          (record i { session = s }) b v
          (evaluate-Finished host rt (settings_of host config) laws input_value ident before)

    Loaded-Outcome :
        (version old : ℕ) (r : Result (Unit {0})) (j : Instance rt)
        → bare ≡ true
        → j.data_version ≡ (if is_ok r then version else old)
        → Loaded rt laws r j.session.manager
        → Outcome rt bare (λ _ k. k.data_version ≡ version) r j
    Loaded-Outcome version old (ok u) j b v h = v
    Loaded-Outcome version old (raised e) j b v h = elim h [
      | inl x ↦ inl x
      | inr (inl p) ↦ inr (inl (rw (p.0) refl))
      | inr (inr f) ↦ inr (inr (b, f))
    ]

    refresh-Outcome :
        (state : DataState) (i : Instance rt)
        → ((i.data_version == state.version) ≡ false → bare ≡ true)
        → let (o, j) = refresh_if_stale host rt config state i in
          Outcome rt bare (λ _ k. k.data_version ≡ state.version) o j
    unfolding refresh_if_stale
    refresh-Outcome state i b = elim (Bool-cases (i.data_version == state.version)) [
      | inl e ↦ rw e (ground arith)
      | inr e ↦
          let (p, v, h) =
            reload_data-outcome host rt config laws (as_value state.document) state.version i in
          rw e (
            Loaded-Outcome state.version i.data_version
              (Instance.reload_data host rt config (as_value state.document) state.version i).0
              (Instance.reload_data host rt config (as_value state.document) state.version i).1
              (b e) v h)
    ]

    resolved-Outcome :
        (entrypoints : Dict ℤ) (r : Result ℤ) (i : Instance rt)
        → IsResolved entrypoints r
        → Outcome rt bare (λ _ k. Unit {0}) r i
    resolved-Outcome entrypoints (ok ident) i h = tt
    resolved-Outcome entrypoints (raised e) i h = inr (inl (rw h refl))

    decided-Outcome :
        (version : ℕ) (raw : Value) (r : Result Decision) (i : Instance rt)
        → IsDecision config raw r
        → IsServed version i
        → Outcome rt bare (λ _ k. IsServed version k) r i
    decided-Outcome version raw (ok d) i h c = c
    decided-Outcome version raw (raised e) i h c = inr (inl (rw (h.0) refl))

    outcome_of :
        (entrypoints : Dict ℤ) (state : DataState) (input_value : Value) (e : Option Entrypoint)
        (i : Instance rt)
        → ((i.data_version == state.version) ≡ false → bare ≡ true)
        → (accepted host rt config input_value ≡ false → bare ≡ true)
        → let (o, j) = evaluate_on host rt config entrypoints state input_value e i in
          Outcome rt bare (λ _ k. IsServed state.version k) o j
    unfolding evaluate_on ◌>>=◌
    outcome_of entrypoints state input_value e i stale refused =
        let served = λ (d : Decision) (k : Instance rt). IsServed state.version k in
        let (r, j) = refresh_if_stale host rt config state i in
        continue-Outcome rt bare (λ _ k. Unit {0}) served (resolve_entrypoint config entrypoints e)
          _ i
          (resolved-Outcome entrypoints (resolve_entrypoint config entrypoints e) i
            (resolve_entrypoint-IsResolved config entrypoints e))
          λ ident h.
            continue-Outcome rt bare (λ _ k. k.data_version ≡ state.version) served r _ j
              (refresh-Outcome state i stale)
              λ u v.
                continue-Outcome rt bare (λ _ k. IsServed state.version k) served
                  (Instance.evaluate host rt config input_value ident j).0 _
                  (Instance.evaluate host rt config input_value ident j).1
                  (evaluate-Outcome state.version input_value ident j refused v)
                  λ raw c.
                    decided-Outcome state.version raw (simplify_result config raw) _
                      (simplify_result-IsDecision config raw) c

  -- Where the guest's heap pointer is what was last set, and a failed setting leaves it, from the
  -- arguments of `evaluate` to its decision: a decision was made on the snapshot's version of the data,
  -- and leaves the heap of the instance at its checkpoint. Whatever the guest and the builtins raise,
  -- an `Exception` that reaches the caller is one of errors.py, or was raised by a call of
  -- `opa_heap_ptr_set` or `opa_heap_ptr_get`; the latter only where the instance had another version
  -- of the data, or the input could not be serialised.
  pub evaluate_on-Outcome :
      (entrypoints : Dict ℤ) (state : DataState) (input_value : Value) (e : Option Entrypoint)
      (i : Instance rt)
      → let (o, j) = evaluate_on host rt config entrypoints state input_value e i in
        Outcome rt (loads_or_refuses state input_value i) (λ _ k. IsServed state.version k) o j
  evaluate_on-Outcome entrypoints state input_value e i =
      outcome_of (loads_or_refuses state input_value i) entrypoints state input_value e i
        (λ n. ground arith) (λ n. ground arith)
