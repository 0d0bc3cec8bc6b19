-- ===== src/Runtime/Stores/Leaks.antt =====
-- The constructor of a runtime neither leaks a Store nor waits for its own lock.
use opa_py_wasm.Base.{
  ℕ, zero, suc, ◌*◌, ◌<◌, min, ◌≡◌, refl, sym, ap, subst, ◌∙◌, ◌⊎◌, inl, inr, true, false, Option,
  none, some, List, [], ◌∷◌, arith, leb, Bool-cases,
}
use opa_py_wasm.Base.All.{All, All-map}
use opa_py_wasm.Base.Int.{ℤ}
use opa_py_wasm.Result.{Result, ok, raised}
use opa_py_wasm.Runtime.Instantiate
use opa_py_wasm.Runtime.Instantiate.{
  Attempt, done, overflow, wasm_error, other_error, default_memory_pages, instantiation_ceiling,
  too_few, retry, instantiate, instantiate-Ended,
}
use opa_py_wasm.Runtime.Stores.{
  Native, without, open_store, close_store, Run, blocked, exhausted, ended, released, close,
  after_attempt, rounds, guarded, construct,
}

-- Every live Store was made before.
abbrev pub AllMade : ℕ → List ℕ → Type 0
AllMade n = All (λ i. i < n)

without-AllMade : (i : ℕ) (js : List ℕ) → AllMade i js → without i js ≡ js
unfolding without
without-AllMade i [] h = refl
without-AllMade i (j ∷ js) h = ground (arith, without-AllMade i js h.1)

without_head : (i : ℕ) (js : List ℕ) → AllMade i js → without i (i ∷ js) ≡ js
unfolding without
without_head i js h = ground (arith, without-AllMade i js h)

-- How the rounds leave the Stores, from a state with the Stores `live`.
abbrev Left : List ℕ → Run → Type 0
Left live (ended (ok p) n) = (i : ℕ) × (n.mine ≡ some i) × (n.live ≡ i ∷ live)
Left live (ended (raised e) n) =
    (i : ℕ) × (n.mine ≡ some i) × AllMade i live × ((n.live ≡ live) ⊎ (n.live ≡ i ∷ live))
Left live exhausted = Unit {0}
Left live blocked = ⊥

reclosed :
    (live : List ℕ) (n : Native) (i : ℕ)
    → n.mine ≡ some i
    → AllMade i live
    → (n.live ≡ live) ⊎ (n.live ≡ i ∷ live)
    → (close_store n).live ≡ live
unfolding close_store
reclosed live n i m h (inl e) = rw m (ap (without i) e ∙ without-AllMade i live h)
reclosed live n i m h (inr e) = rw m (ap (without i) e ∙ without_head i live h)

close_opened :
    (n : Native)
    → AllMade n.made n.live
    → ((close_store (open_store n)).live ≡ n.live)
      × ((close_store (open_store n)).made ≡ suc n.made)
      × ((close_store (open_store n)).mine ≡ some n.made)
unfolding close_store open_store
close_opened n h = (without_head n.made n.live h, refl, refl)

module _ (attempt : ℕ → Attempt) (ceiling : ℕ) where
  after-Left :
      (pages : ℕ) (rest : Native → Run) (n : Native) (a : Attempt)
      → AllMade n.made n.live
      → Left n.live (rest (close_store (open_store n)))
      → Left n.live (after_attempt attempt ceiling pages rest (open_store n) a)
  unfolding open_store
  after-Left pages rest n done h go = (n.made, refl, refl)
  after-Left pages rest n (wasm_error e) h go =
      let (l, m, i) = close_opened n h in (n.made, i, h, inl l)
  after-Left pages rest n (other_error e) h go = (n.made, refl, h, inr refl)
  after-Left pages rest n (overflow e) h go = elim (Bool-cases (leb ceiling pages)) [
    | inl x ↦ rw x (let (l, m, i) = close_opened n h in (n.made, i, h, inl l))
    | inr x ↦ rw x go
  ]

  rounds-Left :
      (fuel pages : ℕ) (n : Native)
      → AllMade n.made n.live
      → Left n.live (rounds attempt ceiling fuel pages n)
  unfolding rounds
  rounds-Left zero pages n h = tt
  rounds-Left (suc fuel) pages n h =
      after-Left pages (rounds attempt ceiling fuel (min (pages * 2) ceiling)) n (attempt pages) h (
        let (l, m, i) = close_opened n h in
        let made = All-map _ (λ j. j < suc n.made) n.live (λ j lt. omega arith) h in
        subst
          (λ live.
            Left live
              (rounds attempt ceiling fuel (min (pages * 2) ceiling) (close_store (open_store n))))
          l
          (rounds-Left fuel (min (pages * 2) ceiling) (close_store (open_store n))
            (rw (m, l) made)))

-- What the constructor leaves, from a state of the Stores.
abbrev pub WasConstructed : Native → Run → Type 0
WasConstructed n (ended (ok p) m) =
    (m.held ≡ false) × ((i : ℕ) × (m.mine ≡ some i) × (m.live ≡ i ∷ n.live))
WasConstructed n (ended (raised e) m) = (m.held ≡ false) × (m.live ≡ n.live)
WasConstructed n exhausted = ⊥
WasConstructed n blocked = ⊥

-- The result of a run that ends.
abbrev pub result_of : Run → Option (Result ℕ)
result_of (ended r n) = some r
result_of _ = none

module _ (attempt : ℕ → Attempt) (ceiling : ℕ) where
  result-after_attempt :
      (pages : ℕ) (rest : Native → Run) (n : Native) (a : Attempt) (o : Option (Result ℕ))
      → result_of (rest (close_store n)) ≡ o
      → result_of (after_attempt attempt ceiling pages rest n a)
        ≡ Instantiate.after_attempt attempt ceiling pages o a
  result-after_attempt pages rest n done o h = refl
  result-after_attempt pages rest n (wasm_error e) o h = refl
  result-after_attempt pages rest n (other_error e) o h = refl
  result-after_attempt pages rest n (overflow e) o h = elim (Bool-cases (leb ceiling pages)) [
    | inl x ↦ rw x
    | inr x ↦ rw x h
  ]

  result-rounds :
      (fuel pages : ℕ) (n : Native)
      → result_of (rounds attempt ceiling fuel pages n) ≡ retry attempt ceiling fuel pages
  unfolding rounds retry
  result-rounds zero pages n = refl
  result-rounds (suc fuel) pages n =
      result-after_attempt pages (rounds attempt ceiling fuel (min (pages * 2) ceiling))
        (open_store n) (attempt pages) _
        (result-rounds fuel (min (pages * 2) ceiling) (close_store (open_store n)))

finished :
    (n : Native) (run : Run) (r : Result ℕ)
    → Left n.live run
    → result_of run ≡ some r
    → WasConstructed n (guarded (released run)) × (result_of (guarded (released run)) ≡ some r)
unfolding close
finished n (ended (ok p) m) r (i, mine, live) h = ((refl, (i, mine, live)), h)
finished n (ended (raised e) m) r (i, mine, made, live) h =
    ((refl, reclosed n.live (record m { held = true }) i mine made live), h)
finished n exhausted r l h = absurd (ground arith)
finished n blocked r l h = absurd l

open_case :
    (attempt : ℕ → Attempt) (pages : Option ℤ) (n : Native)
    → n.held ≡ false
    → AllMade n.made n.live
    → too_few pages ≡ false
    → WasConstructed n (construct attempt pages n)
      × (result_of (construct attempt pages n) ≡ instantiate attempt pages)
unfolding construct instantiate
open_case attempt pages n free made enough =
    let ceiling = instantiation_ceiling pages in
    let m = record n { held = true } in
    let (r, e, _) = instantiate-Ended attempt pages enough in
    let same = result-rounds attempt ceiling (suc ceiling) default_memory_pages m in
    let loop = rw enough at e in
    let (w, q) =
      finished n (rounds attempt ceiling (suc ceiling) default_memory_pages m) r
        (rounds-Left attempt ceiling (suc ceiling) default_memory_pages m made) (same ∙ loop) in
    rw (enough, free) (w, q ∙ sym loop)

-- Where no one holds the lock, and the live Stores are numbered as they were made: the constructor
-- of a runtime ends, and never waits for the lock that it holds itself. Its result is that of the
-- loop of attempts; if it returns, one Store more is live, its own; and whatever it raises, every
-- Store that it opened is closed. Either way the lock is free.
pub construct-WasConstructed :
    (attempt : ℕ → Attempt) (pages : Option ℤ) (n : Native)
    → n.held ≡ false
    → AllMade n.made n.live
    → WasConstructed n (construct attempt pages n)
      × (result_of (construct attempt pages n) ≡ instantiate attempt pages)
unfolding construct instantiate
construct-WasConstructed attempt pages n free made = elim (Bool-cases (too_few pages)) [
  | inl e ↦ rw e ((free, refl), refl)
  | inr e ↦ open_case attempt pages n free made e
]
