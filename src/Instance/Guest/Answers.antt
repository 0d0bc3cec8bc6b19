-- ===== src/Instance/Guest/Answers.antt =====
-- What the handler of `evaluate` raises for each of the exceptions that reach it.
use opa_py_wasm.Base.{
  ◌≡◌, refl, sym, ap, ◌∙◌, subst, inl, inr, Bool, true, false, none, List, Bool-cases,
  if◌then◌else◌, arith, ◌⊎◌,
}
use opa_py_wasm.Errors.{
  Kind, Exn, IfException, kind_of, is_exception, is_opa, opa, evaluation, invalid_input, memory,
  builtin, abort, raise_from, kind_of-raise_saying,
}
use opa_py_wasm.Errors.Chain.{find_typed_in_chain}
use opa_py_wasm.Result.{Result, ok, raised, handled, continue, rethrow, ◌>>=◌}
use opa_py_wasm.Result.Raises.{RaisedOnly}
use opa_py_wasm.Types.{Bytes, Value, Host}
use opa_py_wasm.Runtime.{Runtime}
use opa_py_wasm.Data.Checkpoint.{HeapFailed}
use opa_py_wasm.Base.Int.{ℤ}
use opa_py_wasm.Abi
use opa_py_wasm.Data
use opa_py_wasm.Evaluator.{
  Session, is_passthrough, translate, timeout_text, on_error, on_rt, reset_heap_if_safe,
}
use opa_py_wasm.Evaluator.Wrapped.{AreForeign, kind_of-reraised}
use opa_py_wasm.Instance.Guest.{crossing}
use opa_py_wasm.Instance.Guest.Raised.{IsHostError, IsOfCall}

-- The errors that an evaluation may raise.
abbrev pub is_documented : Kind → Bool
is_documented (opa evaluation) = true
is_documented (opa invalid_input) = true
is_documented (opa memory) = true
is_documented (opa builtin) = true
is_documented (opa abort) = true
is_documented _ = false

-- No error of errors.py is among the exceptions that it links.
abbrev pub IsForeign : Exn → Type 0
IsForeign e = find_typed_in_chain e ≡ none

-- An `Exception` that is raised is documented.
abbrev pub DocumentedOnly {ℓ} : {A : Type ℓ} → Result A → Type 0
DocumentedOnly r = RaisedOnly (λ e. IfException e (is_documented (kind_of e) ≡ true)) r

module _ (host : Host) where
  -- What the handler of `evaluate` raises for `e`.
  abbrev answer : Bool → Exn → Exn
  answer entered e = if is_passthrough (kind_of e) then e else translate host entered e

  -- For an `Exception`, the handler raises a documented error.
  abbrev pub Answers : Bool → Exn → Type 0
  Answers entered e = IfException e (is_documented (kind_of (answer entered e)) ≡ true)

  passed : (k : Kind) → is_passthrough k ≡ true → is_documented k ≡ true
  passed (opa evaluation) h = refl
  passed (opa invalid_input) h = refl
  passed (opa memory) h = refl
  passed k h = cc

  Answers-passthrough :
      (entered : Bool) (e : Exn) → is_passthrough (kind_of e) ≡ true → Answers entered e
  Answers-passthrough entered e h = inr (rw h (passed (kind_of e) h))

  pub Answers-Foreign : (entered : Bool) (e : Exn) → IsForeign e → Answers entered e
  unfolding translate
  Answers-Foreign entered e f = elim (Bool-cases (is_passthrough (kind_of e))) [
    | inl p ↦ Answers-passthrough entered e p
    | inr p ↦ inr (
        rw (p, f, translate)
          (ground (
            arith,
            kind_of-raise_saying (opa evaluation) timeout_text e,
            kind_of-raise_saying (opa evaluation) "" e,
          )))
  ]

  host_error :
      (b : Exn)
      → is_exception (kind_of b) ≡ true
      → IsHostError b
      → (is_opa (kind_of b) ≡ true) × (is_documented (kind_of b) ≡ true)
  host_error b x h = elim h [
    | inl n ↦ absurd (ground arith)
    | inr k ↦ elim k [
      | inl e ↦ (ap is_opa e, ap is_documented e)
      | inr e ↦ (ap is_opa e, ap is_documented e)
    ]
  ]

  Answers-crossing :
      (wrapping : Exn → List Kind) (b : Exn)
      → AreForeign (wrapping b)
      → IsHostError b
      → Answers true (crossing wrapping b)
  Answers-crossing wrapping b f h = elim (Bool-cases (is_exception (kind_of b))) [
    | inr x ↦ rw x (inl x)
    | inl x ↦
        let (typed, documented) = host_error b x h in
        rw x (inr (ap is_documented (kind_of-reraised host b typed (wrapping b) f).0 ∙ documented))
  ]

  pub Answers-call :
      (wrapping : Exn → List Kind) (e : Exn)
      → ((b : Exn) → AreForeign (wrapping b))
      → IsOfCall wrapping IsForeign e
      → Answers true e
  Answers-call wrapping e f h = elim h [
    | inl t ↦ Answers-Foreign true e t
    | inr (b, came, k) ↦ subst (Answers true) (sym came) (Answers-crossing wrapping b (f b) k)
  ]

  -- What the first step raises, which serialises the input.
  pub Answers-invalid : (e : Exn) → Answers false (raise_from (opa invalid_input) e)
  Answers-invalid e =
      Answers-passthrough false _
        (ap is_passthrough (kind_of-raise_saying (opa invalid_input) "" e))

  pub Answers-memory : (entered : Bool) (e : Exn) → kind_of e ≡ opa memory → Answers entered e
  Answers-memory entered e k = Answers-passthrough entered e (ap is_passthrough k)

  answered :
      (entered : Bool) (e : Exn)
      → is_exception (kind_of e) ≡ true
      → Answers entered e
      → is_documented (kind_of (answer entered e)) ≡ true
  answered entered e x h = elim h [ inl n ↦ absurd (ground arith) | inr d ↦ d ]

  pub entered-Documented :
      (rt : Runtime) (r : Result Value) (s : Session rt)
      → RaisedOnly (Answers true) r
      → DocumentedOnly (handled (on_error rt host true) r s).0
  unfolding on_error reset_heap_if_safe ◌>>=◌
  entered-Documented rt (ok value) s h = tt
  entered-Documented rt (raised e) s h = elim (Bool-cases (is_exception (kind_of e))) [
    | inl x ↦ rw x (inr (answered true e x h))
    | inr x ↦ rw x (inl x)
  ]

  -- An `Exception` that is raised is documented, or a call for the heap pointer raised it.
  abbrev pub DocumentedOrHeap : {A : Type 0} → Runtime → Result A → Type 0
  DocumentedOrHeap rt r =
      RaisedOnly (λ e. IfException e ((is_documented (kind_of e) ≡ true) ⊎ HeapFailed rt e)) r

  -- The handler from the outcome of its reset on, for the error that it raises at the end.
  reset-Documented :
      (rt : Runtime) (e : Exn) (s : rt.State) (p : ℤ) (r : Result (Unit {0})) (t : Session rt)
      → is_documented (kind_of e) ≡ true
      → (Abi.opa_heap_ptr_set rt p s).0 ≡ r
      → DocumentedOrHeap rt (continue r (λ _. rethrow {A = Value} e) t).0
  unfolding rethrow
  reset-Documented rt e s p (ok u) t k h = inr (inl k)
  reset-Documented rt e s p (raised x) t k h = inr (inr (inl (p, s, h)))

  pub refused-Documented :
      (rt : Runtime) (e : Exn) (s : Session rt)
      → Answers false e
      → DocumentedOrHeap rt (on_error rt host false e s).0
  unfolding on_error reset_heap_if_safe ◌>>=◌ on_rt Data.reset_heap_to_checkpoint
  refused-Documented rt e s h = elim (Bool-cases (is_exception (kind_of e))) [
    | inl x ↦ rw x (
        reset-Documented rt _ s.manager.store s.manager.data_heap_ptr _ _ (answered false e x h)
          refl)
    | inr x ↦ rw x (inl x)
  ]

  pub turned :
      (b : Bool) (e : Exn)
      → IsForeign e
      → RaisedOnly {A = Bytes}
          (Answers false)
          (if b then raised (raise_from (opa invalid_input) e) else raised e)
  turned true e f = Answers-invalid e
  turned false e f = Answers-Foreign false e f
