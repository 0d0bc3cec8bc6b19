-- ===== src/Policy/Pooled/Healthy.antt =====
-- What an instance of a policy is like after a loan.
use opa_py_wasm.Base.{
  ℕ, ◌≡◌, refl, ◌∙◌, ◌⊎◌, inl, inr, Bool, true, false, not, ◌&&◌, ◌||◌, arith, ◌==◌, if◌then◌else◌,
  Bool-cases,
}
use opa_py_wasm.Base.Int.{ℤ}
use opa_py_wasm.Errors.{Exn, kind_of, is_exception}
use opa_py_wasm.Result.{Result, ok, raised, is_ok, failed, handled, continue, rethrow, ◌>>=◌}
use opa_py_wasm.Types.{Bytes, Value, Host, PolicyConfig}
use opa_py_wasm.Runtime.{Runtime}
use opa_py_wasm.Data
use opa_py_wasm.Data.Checkpoint.{HeapLaws, HasSet, IsClean, Loaded}
use opa_py_wasm.Evaluator
use opa_py_wasm.Evaluator.{
  Session, Settings, is_passthrough, translate, on_error, reset_heap_if_safe, evaluate_encoded,
  encoded,
}
use opa_py_wasm.Evaluator.Entered.{evaluate_encoded-flag}
use opa_py_wasm.Evaluator.Outcomes.{Finished, encoded-Finished}
use opa_py_wasm.Instance
use opa_py_wasm.Instance.{Instance, settings_of, evaluate_failed, on_session}
use opa_py_wasm.Instance.Poison.{reload_data-outcome, evaluate-poisoned}
use opa_py_wasm.Policy.{DataState, as_value, refresh_if_stale}
use opa_py_wasm.Policy.Pooled.{lend}

-- Whether what is raised is no `Exception`.
abbrev pub exits {ℓ} : {A : Type ℓ} → Result A → Bool
exits (ok a) = false
exits (raised e) = not (is_exception (kind_of e))

module _ (host : Host) (rt : Runtime) (settings : Settings) (laws : HeapLaws rt) where
  -- An evaluation has exited, or was in the guest and failed there, or leaves a clean heap.
  abbrev Settled : Result Value → Session rt → Type 0
  Settled (ok value) s = IsClean rt laws s.manager
  Settled (raised e) s =
      (is_exception (kind_of e) ≡ false) ⊎ ((s.entered_wasm ≡ true) ⊎ IsClean rt laws s.manager)

  reset-Settled :
      (e : Exn) (s : Session rt) (r : Result (Unit {0})) (t : rt.State)
      → IsClean rt laws s.manager
      → HasSet laws.heap s.manager.store s.manager.data_heap_ptr r t
      → let (o, u) =
          continue r
            (λ _. rethrow {A = Value} e)
            (record s { manager = record s.manager { store = t } }) in
        Settled o u
  unfolding rethrow
  reset-Settled e s (ok u) t c h = inr (inr h)
  reset-Settled e s (raised x) t c h = inr (inr (h ∙ c))

  refused-Settled :
      (e : Exn) (s : Session rt)
      → IsClean rt laws s.manager
      → let (r, t) = on_error rt host false e s in Settled r t
  unfolding on_error reset_heap_if_safe ◌>>=◌ Evaluator.on_rt Data.reset_heap_to_checkpoint
  refused-Settled e s c = elim (Bool-cases (is_exception (kind_of e))) [
    | inl x ↦ rw x (reset-Settled _ s _ _ c (laws.set_law s.manager.data_heap_ptr s.manager.store))
    | inr x ↦ rw x (inl x)
  ]

  entered-Settled :
      (raw : Bytes) (r : Result Value) (t : Session rt)
      → Finished host rt settings laws (ok raw) r t
      → t.entered_wasm ≡ true
      → Settled r t
  entered-Settled raw (ok value) t f h = f
  entered-Settled raw (raised e) t f h = inr (inl h)

  encoded-Settled :
      (input : Result Bytes) (ident : ℤ) (s : Session rt)
      → IsClean rt laws s.manager
      → s.entered_wasm ≡ false
      → let (r, t) = evaluate_encoded host rt settings input ident s in Settled r t
  encoded-Settled (raised e) ident s c h = refused-Settled e s c
  encoded-Settled (ok raw) ident s c h =
      let (r, t) = evaluate_encoded host rt settings (ok raw) ident s in
      entered-Settled raw r t (encoded-Finished host rt settings laws (ok raw) ident s)
        (evaluate_encoded-flag host rt settings (ok raw) ident s h)

module _ (host : Host) (rt : Runtime) (config : PolicyConfig) (laws : HeapLaws rt) where
  -- A loan has exited, or its instance is poisoned, or clean and at version `v`.
  abbrev pub Lent {ℓ} : {A : Type ℓ} → ℕ → Result A → Instance rt → Type 0
  Lent v r i =
      (exits r ≡ true)
      ⊎ ((i.poisoned ≡ true) ⊎ (IsClean rt laws i.session.manager × (i.data_version ≡ v)))

  failed-Lent :
      (v : ℕ) (e : Exn) (i : Instance rt)
      → i.data_version ≡ v
      → Settled host rt (settings_of host config) laws (raised e) i.session
      → let (o, j) = evaluate_failed rt e i in Lent v o j
  unfolding ◌>>=◌
  failed-Lent v e i h s = elim (Bool-cases (is_exception (kind_of e) && i.session.entered_wasm)) [
    | inl x ↦ rw x (inr (inl refl))
    | inr x ↦ rw x (elim s [
      | inl n ↦ inl (rw n refl)
      | inr (inl n) ↦ inl (ground (arith, x, n))
      | inr (inr c) ↦ inr (inr (c, h))
    ])
  ]

  handled-Lent :
      (v : ℕ) (r : Result Value) (i : Instance rt)
      → i.data_version ≡ v
      → Settled host rt (settings_of host config) laws r i.session
      → let (o, j) = handled (evaluate_failed rt) r i in Lent v o j
  handled-Lent v (ok value) i h s = inr (inr (s, h))
  handled-Lent v (raised e) i h s = failed-Lent v e i h s

  evaluate-Lent :
      (v : ℕ) (input_value : Value) (ident : ℤ) (i : Instance rt)
      → IsClean rt laws i.session.manager
      → i.data_version ≡ v
      → let (o, j) = Instance.evaluate host rt config input_value ident i in Lent v o j
  unfolding Instance.evaluate Evaluator.evaluate on_session ◌>>=◌
  evaluate-Lent v input_value ident i c h =
      let settings = settings_of host config in
      let input = encoded host rt settings input_value in
      let before = record i.session { entered_wasm = false } in
      let (r, s) = evaluate_encoded host rt settings input ident before in
      handled-Lent v r (record i { session = s }) h
        (encoded-Settled host rt settings laws input ident before c refl)

  Loaded-Lent :
      (v old : ℕ) (was : Bool) (r : Result (Unit {0})) (j : Instance rt)
      → j.poisoned ≡ (was || failed r)
      → j.data_version ≡ (if is_ok r then v else old)
      → Loaded rt laws r j.session.manager
      → Lent v r j
  Loaded-Lent v old was (ok u) j p h l = inr (inr (l, h))
  Loaded-Lent v old was (raised e) j p h l = elim (Bool-cases (is_exception (kind_of e))) [
    | inl x ↦ inr (inl (ground (arith, p, x)))
    | inr x ↦ inl (rw x refl)
  ]

  -- The refresh of an instance that is clean.
  refresh-Lent :
      (d : DataState) (i : Instance rt)
      → IsClean rt laws i.session.manager
      → let (o, j) = refresh_if_stale host rt config d i in Lent d.version o j
  unfolding refresh_if_stale
  refresh-Lent d i c = elim (Bool-cases (i.data_version == d.version)) [
    | inl e ↦ rw e (inr (inr (c, ground arith)))
    | inr e ↦
        let (p, v, h) = reload_data-outcome host rt config laws (as_value d.document) d.version i in
        rw e (
          Loaded-Lent d.version i.data_version i.poisoned
            (Instance.reload_data host rt config (as_value d.document) d.version i).0
            (Instance.reload_data host rt config (as_value d.document) d.version i).1 p v h)
  ]

  poisoned-Lent :
      (v : ℕ) (input_value : Value) (ident : ℤ) (i : Instance rt)
      → i.poisoned ≡ true
      → let (o, j) = Instance.evaluate host rt config input_value ident i in Lent v o j
  poisoned-Lent v input_value ident i h =
      let (p, _) = evaluate-poisoned host rt config input_value ident i in
      inr (inl (ground (arith, p, h)))

  refreshed-Lent :
      (v : ℕ) (input_value : Value) (ident : ℤ) (r : Result (Unit {0})) (j : Instance rt)
      → Lent v r j
      → let (o, k) = continue r (λ _. Instance.evaluate host rt config input_value ident) j in
        Lent v o k
  refreshed-Lent v input_value ident (raised e) j h = h
  refreshed-Lent v input_value ident (ok u) j (inl x) = absurd (ground arith)
  refreshed-Lent v input_value ident (ok u) j (inr (inl p)) = poisoned-Lent v input_value ident j p
  refreshed-Lent v input_value ident (ok u) j (inr (inr (c, h))) =
      evaluate-Lent v input_value ident j c h

  -- The refresh and the evaluation on a clean instance: the loan exits, or its instance is poisoned,
  -- or clean again and at the version of the data.
  pub lend-Lent :
      (input_value : Value) (ident : ℤ) (d : DataState) (i : Instance rt)
      → IsClean rt laws i.session.manager
      → let (o, j) = lend host rt config input_value ident d i in Lent d.version o j
  unfolding ◌>>=◌
  lend-Lent input_value ident d i c =
      let (r, j) = refresh_if_stale host rt config d i in
      refreshed-Lent d.version input_value ident r j (refresh-Lent d i c)
