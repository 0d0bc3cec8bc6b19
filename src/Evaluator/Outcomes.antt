-- ===== src/Evaluator/Outcomes.antt =====
-- How an evaluation ends.
use opa_py_wasm.Base.{
  ℕ, ◌≡◌, refl, ◌∙◌, Bool, true, false, Option, none, some, arith, if◌then◌else◌, Bool-cases,
  Option-cases, [], inl, inr, ◌⊎◌,
}
use opa_py_wasm.Base.Int.{ℤ}
use opa_py_wasm.Errors.{
  IfException, Kind, Exn, kind_of, is_exception, is_opa, opa, evaluation, kind_of-raise_saying,
  kind_of-raise_linked,
}
use opa_py_wasm.Errors.Chain.{walk, walk_passes, found, chain_fuel, find_typed_in_chain}
use opa_py_wasm.Result.{Result, ok, raised, handled, continue, pure, rethrow, ◌>>=◌, ◌>>◌}
use opa_py_wasm.Result.Keeps.{Returns, Returns-bind, Post}
use opa_py_wasm.Types.{Bytes, Value, Host}
use opa_py_wasm.Runtime
use opa_py_wasm.Runtime.{Runtime}
use opa_py_wasm.Data
use opa_py_wasm.Data.{Manager, reset_heap_to_checkpoint}
use opa_py_wasm.Data.Checkpoint.{HeapLaws, HeapFailed, HasSet, IsClean}
use opa_py_wasm.Abi
use opa_py_wasm.Evaluator.{
  Settings, Session, is_passthrough, translate, timeout_text, on_rt, disarm_deadline, reset_heap,
  reset_heap_if_safe, on_error, run_guest, encoded, evaluate_encoded, evaluate,
}

found-some : (r : Option (Option ℕ)) {i : ℕ} → found r ≡ some i → r ≡ some (some i)
found-some none h = cc
found-some (some o) h = cc

typed_found :
    (e : Exn) (i : ℕ)
    → find_typed_in_chain e ≡ some i
    → found (walk (λ o. is_opa o.kind) e.objects (chain_fuel e) [] (some e.root)) ≡ some i
unfolding find_typed_in_chain
typed_found e i f = f

-- What is raised instead of a foreign exception is an error of errors.py.
translate-opa :
    (host : Host) (entered : Bool) (e : Exn) → is_opa (kind_of (translate host entered e)) ≡ true
unfolding translate
translate-opa host entered e = elim (Option-cases (find_typed_in_chain e)) [
  | inl n ↦
      rw (n, translate)
        (ground (
          arith,
          kind_of-raise_saying (opa evaluation) timeout_text e,
          kind_of-raise_saying (opa evaluation) "" e,
        ))
  | inr (i, f) ↦
      let (o, at, typed) =
        walk_passes (λ o. is_opa o.kind) e.objects (chain_fuel e) [] (some e.root)
          (found-some _ (typed_found e i f)) in
      rw (f, translate) (rw ((kind_of-raise_linked i e o at).0) typed)
]

module _ (host : Host) (rt : Runtime) (settings : Settings) where
  module _ (laws : HeapLaws rt) where
    -- The heap of the session ends at the checkpoint.
    abbrev pub IsReset : Session rt → Type 0
    IsReset s = IsClean rt laws s.manager

    disarm-IsReset :
        (ticks : Option ℕ) (result : Value) (s : Session rt)
        → IsReset s
        → let (r, t) = (disarm_deadline rt ticks >> pure result) s in
          Post (λ (_ : Value) t. IsReset t) r t
    unfolding disarm_deadline ◌>>=◌ on_rt Runtime.clear_epoch_deadline
    disarm-IsReset none result s h = h
    disarm-IsReset (some ticks) result s h =
        laws.heap-deadline Runtime.no_deadline_ticks s.manager.store ∙ h

    ended-Post :
        (result : Value) (r : Result (Unit {0})) (t : rt.State) (s : Session rt)
        → HasSet laws.heap s.manager.store s.manager.data_heap_ptr r t
        → let (o, u) =
            continue r
              (λ _. (do disarm_deadline rt settings.deadline_ticks; pure result))
              (record s { manager = record s.manager { store = t } }) in
          Post (λ (_ : Value) u. IsReset u) o u
    ended-Post result (ok v) t s h = disarm-IsReset settings.deadline_ticks result _ h
    ended-Post result (raised e) t s h = tt

    last_steps-IsReset :
        (result : Value)
        → Returns
            (λ _ s. IsReset s)
            (do reset_heap rt; disarm_deadline rt settings.deadline_ticks; pure result)
    unfolding ◌>>=◌ on_rt Data.reset_heap_to_checkpoint
    last_steps-IsReset result = record {
      at = λ s. ended-Post result _ _ s (laws.set_law s.manager.data_heap_ptr s.manager.store);
    }

    run_guest-IsReset :
        (input_bytes : Bytes) (entrypoint_id : ℤ)
        → Returns (λ _ s. IsReset s) (run_guest host rt settings input_bytes entrypoint_id)
    unfolding run_guest
    run_guest-IsReset input_bytes entrypoint_id = Returns-bind _ _ λ _. Returns-bind _ _ λ _.
        Returns-bind _ _ λ _. Returns-bind _ _ λ _. Returns-bind _ _ λ _.
          Returns-bind _ _
            λ _. Returns-bind _ _ λ _. Returns-bind _ _ λ result. last_steps-IsReset result

    -- What holds when an evaluation has ended: after a decision the heap is back at the checkpoint.
    -- An `Exception` is one of the errors of errors.py; where the input was not serialised, it may be
    -- what a call for the heap pointer raised.
    abbrev pub Finished : Result Bytes → Result Value → Session rt → Type 0
    Finished input (ok value) s = IsReset s
    Finished (ok raw) (raised e) s = IfException e (is_opa (kind_of e) ≡ true)
    Finished (raised x) (raised e) s = IfException e ((is_opa (kind_of e) ≡ true) ⊎ HeapFailed rt e)

    passthrough-opa : (k : Kind) → is_passthrough k ≡ true → is_opa k ≡ true
    passthrough-opa (opa k) h = refl
    passthrough-opa k h = cc

    reraised-opa :
        (entered : Bool) (e : Exn)
        → is_opa (kind_of (if is_passthrough (kind_of e) then e else translate host entered e))
          ≡ true
    reraised-opa entered e = elim (Bool-cases (is_passthrough (kind_of e))) [
      | inl p ↦ rw p (passthrough-opa (kind_of e) p)
      | inr p ↦ rw p (translate-opa host entered e)
    ]

    entered-Finished :
        (raw : Bytes) (e : Exn) (s : Session rt)
        → let (r, t) = on_error rt host true e s in Finished (ok raw) r t
    unfolding on_error reset_heap_if_safe ◌>>=◌
    entered-Finished raw e s = elim (Bool-cases (is_exception (kind_of e))) [
      | inl x ↦ rw x (inr (reraised-opa true e))
      | inr x ↦ rw x (inl x)
    ]

    -- The handler from the outcome of its reset on, for the error that it raises at the end.
    refused-Finished :
        (x e : Exn) (s : rt.State) (p : ℤ) (r : Result (Unit {0})) (t : Session rt)
        → is_opa (kind_of e) ≡ true
        → (Abi.opa_heap_ptr_set rt p s).0 ≡ r
        → let (o, u) = continue r (λ _. rethrow {A = Value} e) t in Finished (raised x) o u
    unfolding rethrow
    refused-Finished x e s p (ok u) t k h = inr (inl k)
    refused-Finished x e s p (raised y) t k h = inr (inr (inl (p, s, h)))

    unentered-Finished :
        (e : Exn) (s : Session rt)
        → let (r, t) = on_error rt host false e s in Finished (raised e) r t
    unfolding on_error reset_heap_if_safe ◌>>=◌ on_rt Data.reset_heap_to_checkpoint
    unentered-Finished e s = elim (Bool-cases (is_exception (kind_of e))) [
      | inl x ↦ rw x (
          refused-Finished e _ s.manager.store s.manager.data_heap_ptr _ _ (reraised-opa false e)
            refl)
      | inr x ↦ rw x (inl x)
    ]

    pub encoded-Finished :
        (input : Result Bytes) (entrypoint_id : ℤ) (s : Session rt)
        → let (r, t) = evaluate_encoded host rt settings input entrypoint_id s in Finished input r t
    encoded-Finished (raised e) entrypoint_id s = unentered-Finished e s
    encoded-Finished (ok raw) entrypoint_id s =
        run_outcome (run_guest host rt settings raw entrypoint_id s).0 _
          ((run_guest-IsReset raw entrypoint_id).at s)
      where
        run_outcome :
            (r : Result Value) (t : Session rt)
            → Post (λ _ u. IsReset u) r t
            → let (o, u) = handled (on_error rt host true) r t in Finished (ok raw) o u
        run_outcome (ok value) t h = h
        run_outcome (raised e) t h = entered-Finished raw e t

    -- Where the guest's heap pointer is what was last set, and a failed setting leaves it, however an
    -- evaluation ends: after a decision the heap is back at the checkpoint. Once the input was
    -- serialised, an `Exception` that leaves the evaluation is one of errors.py, whatever the guest
    -- raised. Where it was not, an `Exception` is one of errors.py, or what `opa_heap_ptr_set` or
    -- `opa_heap_ptr_get` raised.
    pub evaluate-Finished :
        (input_value : Value) (entrypoint_id : ℤ) (s : Session rt)
        → let (r, t) = evaluate host rt settings input_value entrypoint_id s in
          Finished (encoded host rt settings input_value) r t
    unfolding evaluate
    evaluate-Finished input_value entrypoint_id s =
        encoded-Finished (encoded host rt settings input_value) entrypoint_id s
