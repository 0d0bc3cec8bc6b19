-- ===== src/Evaluator/Wrapped.antt =====
-- What a host callback raised reaches the caller, however often wasmtime wrapped it.
use opa_py_wasm.Base.{
  if◌then◌else◌, Bool-cases, ℕ, zero, suc, ◌<◌, ◌≡◌, refl, sym, ap, ◌∙◌, Option-cases, inl, inr,
  append-nil, Bool, true, false, none, some, List, [], ◌∷◌, ◌++◌, arith, length, length-append,
  get_elem?, get_elem?-append_last, get_elem?-lt, contains, append_assoc,
}
use opa_py_wasm.Base.All.{All, All-map, get_elem?-append_left}
use opa_py_wasm.Errors.{
  Kind, ExnObject, Exn, kind_of, or_other, opa, opa_wasm, is_opa, raise_from, raise_saying,
  kind_of-raise_linked, kind_of-raise_saying, is_exception, text_of, or_no_text,
}
use opa_py_wasm.Errors.Chain.{next_link, walk, chain_fuel, found, find_typed_in_chain}
use opa_py_wasm.Types.{Host}
use opa_py_wasm.Result.{ok, raised, ◌>>=◌}
use opa_py_wasm.Types.{Bytes, Value}
use opa_py_wasm.Base.Int.{ℤ}
use opa_py_wasm.Runtime.{Runtime}
use opa_py_wasm.Evaluator.{
  Session, Settings, is_passthrough, on_error, reset_heap_if_safe, encoded, run_guest, evaluate,
  translate,
}

-- `e`, raised again by a chain of other exceptions, each with the one before as its cause.
abbrev pub wrapped : List Kind → Exn → Exn
wrapped [] e = e
wrapped (k ∷ ks) e = raise_from k (wrapped ks e)

-- None of the exceptions around it is one of errors.py.
abbrev pub AreForeign : List Kind → Type 0
AreForeign = All (λ k. is_opa k ≡ false)

abbrev is_typed : ExnObject → Bool
is_typed o = is_opa o.kind

unseen_later : (seen : List ℕ) (i : ℕ) → All (λ j. i < j) seen → contains seen i ≡ false
unfolding contains
unseen_later [] i h = refl
unseen_later (j ∷ js) i h = ground (arith, unseen_later js i h.1)

layer : Kind → Exn → ExnObject
layer k e = record { kind = k; text = ""; cause = some e.root; context = some e.root }

module _ (objects : List ExnObject) (fuel : ℕ) (seen : List ℕ) (i : ℕ) (o : ExnObject)
    (at : get_elem? objects i ≡ some o) (new : contains seen i ≡ false) where
  walk_hit : is_opa o.kind ≡ true → walk is_typed objects (suc fuel) seen (some i) ≡ some (some i)
  unfolding walk
  walk_hit typed = rw (at, walk) (rw (new, typed))

  walk_step :
      is_opa o.kind ≡ false
      → walk is_typed objects (suc fuel) seen (some i)
        ≡ walk is_typed objects fuel (i ∷ seen) (next_link o)
  unfolding walk
  walk_step foreign = rw (at, walk) (rw (new, foreign))

module _ (e : Exn) (o : ExnObject) (at : get_elem? e.objects e.root ≡ some o)
    (typed : is_opa o.kind ≡ true) where
  root-lt : (ks : List Kind) → (wrapped ks e).root < length (wrapped ks e).objects
  unfolding raise_saying
  root-lt [] = get_elem?-lt e.objects e.root at
  root-lt (k ∷ ks) = omega (arith, length-append (wrapped ks e).objects (_ ∷ []))

  walk-wrapped :
      (ks : List Kind) (extra : List ExnObject) (fuel : ℕ) (seen : List ℕ)
      → AreForeign ks
      → length ks < fuel
      → All (λ j. (wrapped ks e).root < j) seen
      → walk is_typed ((wrapped ks e).objects ++ extra) fuel seen (some (wrapped ks e).root)
        ≡ some (some e.root)
  unfolding layer raise_saying
  walk-wrapped ks extra zero seen f enough h = absurd (omega arith)
  walk-wrapped [] extra (suc fuel) seen f enough h =
      walk_hit (e.objects ++ extra) fuel seen e.root o
        (get_elem?-append_left e.objects extra e.root at) (unseen_later seen e.root h) typed
  walk-wrapped (k ∷ ks) extra (suc fuel) seen f enough h =
      let inner = wrapped ks e in
      let n = layer k inner in
      walk_step ((inner.objects ++ n ∷ []) ++ extra) fuel seen (length inner.objects) n
        (get_elem?-append_left (inner.objects ++ n ∷ []) extra (length inner.objects)
          (get_elem?-append_last inner.objects n))
        (unseen_later seen (length inner.objects) h) f.0
      ∙ ap (λ objects. walk is_typed objects fuel (length inner.objects ∷ seen) (some inner.root))
          (append_assoc inner.objects (n ∷ []) extra)
      ∙ walk-wrapped ks (n ∷ extra) fuel (length inner.objects ∷ seen) f.1 (omega arith)
          (root-lt ks, All-map _ _ seen (λ j lt. omega (arith, root-lt ks)) h)

  length-wrapped : (ks : List Kind) → length ks < chain_fuel (wrapped ks e)
  unfolding raise_saying
  length-wrapped [] = omega arith
  length-wrapped (k ∷ ks) =
      omega (arith, length-wrapped ks, length-append (wrapped ks e).objects (_ ∷ []))

  object-wrapped : (ks : List Kind) → get_elem? (wrapped ks e).objects e.root ≡ some o
  unfolding raise_saying
  object-wrapped [] = at
  object-wrapped (k ∷ ks) =
      get_elem?-append_left (wrapped ks e).objects (_ ∷ []) e.root (object-wrapped ks)

  find-wrapped : (ks : List Kind) → AreForeign ks → find_typed_in_chain (wrapped ks e) ≡ some e.root
  unfolding find_typed_in_chain
  find-wrapped ks f = ap found (
      ap
        (λ objects. walk is_typed objects (chain_fuel (wrapped ks e)) [] (some (wrapped ks e).root))
        (sym (append-nil (wrapped ks e).objects))
      ∙ walk-wrapped ks [] (chain_fuel (wrapped ks e)) [] f (length-wrapped ks) tt)

kind_of-at :
    (e : Exn) (o : ExnObject)
    → get_elem? e.objects e.root ≡ some o
    → (kind_of e ≡ o.kind) × (text_of e ≡ o.text)
unfolding kind_of text_of
kind_of-at e o at = (ap or_other at, ap or_no_text at)

-- An exception of the class of another, and with its text.
abbrev pub SaysSame : Exn → Exn → Type 0
SaysSame e' e = (kind_of e' ≡ kind_of e) × (text_of e' ≡ text_of e)

kind_of-root :
    (e : Exn) → get_elem? e.objects e.root ≡ none → is_opa (kind_of e) ≡ true → false ≡ true
unfolding kind_of
kind_of-root e n h = ap is_opa (sym (ap or_other n)) ∙ h

-- `translate` finds the error inside any number of foreign exceptions.
translate-wrapped :
    (host : Host) (entered : Bool) (ks : List Kind) (e : Exn)
    → is_opa (kind_of e) ≡ true
    → AreForeign ks
    → SaysSame (translate host entered (wrapped ks e)) e
unfolding translate
translate-wrapped host entered ks e typed f = elim (Option-cases (get_elem? e.objects e.root)) [
  | inl n ↦ absurd (let t = kind_of-root e n typed in ground arith)
  | inr (o, at) ↦
      let (kind, text) = kind_of-at e o at in
      let opa = ap is_opa (sym kind) ∙ typed in
      let (same_kind, same_text) =
        kind_of-raise_linked e.root (wrapped ks e) o (object-wrapped e o at opa ks) in
      rw (find-wrapped e o at opa ks f, translate) (same_kind ∙ sym kind, same_text ∙ sym text)
]

-- All of them are such that `except Exception` catches them.
abbrev pub AreCaught : List Kind → Type 0
AreCaught = All (λ k. is_exception k ≡ true)

exception_of_opa : (k : Kind) → is_opa k ≡ true → is_exception k ≡ true
exception_of_opa opa_wasm h = refl
exception_of_opa (opa k) h = refl
exception_of_opa k h = cc

foreign_is_passed : (k : Kind) → is_opa k ≡ false → is_passthrough k ≡ false
foreign_is_passed (opa k) h = cc
foreign_is_passed k h = refl

module _ (host : Host) (e : Exn) (typed : is_opa (kind_of e) ≡ true) where
  wrapped_caught : (ks : List Kind) → AreCaught ks → is_exception (kind_of (wrapped ks e)) ≡ true
  wrapped_caught [] c = exception_of_opa (kind_of e) typed
  wrapped_caught (k ∷ ks) c = rw (kind_of-raise_saying k "" (wrapped ks e)) c.0

  -- What `raise` or `raise ... from` gives in the handler.
  abbrev reraised : List Kind → Exn
  reraised ks =
      if is_passthrough (kind_of (wrapped ks e))
      then wrapped ks e
      else translate host true (wrapped ks e)

  pub kind_of-reraised : (ks : List Kind) → AreForeign ks → SaysSame (reraised ks) e
  kind_of-reraised [] f = elim (Bool-cases (is_passthrough (kind_of e))) [
    | inl p ↦ rw p (refl, refl)
    | inr p ↦ rw p (translate-wrapped host true [] e typed tt)
  ]
  kind_of-reraised (k ∷ ks) f =
      rw (kind_of-raise_saying k "" (wrapped ks e), foreign_is_passed k f.0)
        (translate-wrapped host true (k ∷ ks) e typed f)

module _ (host : Host) (rt : Runtime) (settings : Settings) where
  -- An error of errors.py that a host callback raised, in an evaluation whose input could be
  -- serialised, and that wasmtime or others wrapped in any number of other `Exception`s, each raised
  -- from the one before: the evaluation raises an error of the very class that the callback raised,
  -- with its message, and leaves the guest as the failure left it.
  pub evaluate-wrapped :
      (ks : List Kind) (e : Exn) (input_value : Value) (ident : ℤ) (raw : Bytes) (s t : Session rt)
      → is_opa (kind_of e) ≡ true
      → AreForeign ks
      → AreCaught ks
      → encoded host rt settings input_value ≡ ok raw
      → run_guest host rt settings raw ident s ≡ (raised (wrapped ks e), t)
      → (e' : Exn) × (evaluate host rt settings input_value ident s ≡ (raised e', t))
        × SaysSame e' e
  unfolding evaluate on_error reset_heap_if_safe ◌>>=◌
  evaluate-wrapped ks e input_value ident raw s t typed f c accepted failed = (
    reraised host e typed ks,
    rw (accepted, failed) (rw (wrapped_caught host e typed ks c) refl),
    kind_of-reraised host e typed ks f,
  )
