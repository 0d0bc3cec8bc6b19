-- ===== src/Pool/Progress.antt =====
-- That the threads of a pool never all wait for one another.
use opa_py_wasm.Base.{
  ℕ, suc, ◌+◌, ◌≤◌, ◌≡◌, refl, ap, ◌⊎◌, inl, inr, Bool, true, false, some, none, List, [], ◌∷◌,
  arith, length, get_elem?, Bool-cases, ltb,
}
use opa_py_wasm.Pool.{
  Slot, Pool, Thread, outside, waiting, took, refusing, building, holding, releasing_none,
  releasing, returning, replacing, closing, draining, posting, fails_closed, discards, Move, get,
  time_out, pass, refuse, wake, build, finish, restore, keep, discard, put_back, put_placeholder,
  free, drain, drained, post, System, Reach,
}
use opa_py_wasm.Pool.Weights.{sum_of, has_slot, wakes}
use opa_py_wasm.Pool.Invariant.{Inv, Reach-Inv}

-- Whether a step is the end of a wait that found no slot.
abbrev pub is_time_out : {p q : Pool} {a b : Thread} → Move p a q b → Bool
is_time_out (time_out e) = true
is_time_out _ = false

-- A step that a thread can take now, other than giving up.
pub record Advance (p : Pool) (a : Thread) : Type 0 where
  pub pool : Pool
  pub thread : Thread
  pub move : Move p a pool thread
  pub no_time_out : is_time_out move ≡ false

abbrev pub is_outside : Thread → Bool
is_outside outside = true
is_outside _ = false

List-cases : (xs : List Slot) → (xs ≡ []) ⊎ ((x : Slot) × (rest : List Slot) × (xs ≡ x ∷ rest))
List-cases [] = inl refl
List-cases (x ∷ rest) = inr (x, rest, refl)

by : {p q : Pool} {a b : Thread} (m : Move p a q b) → is_time_out m ≡ false → Advance p a
by {q} {b} m e = record { pool = q; thread = b; move = m; no_time_out = e }

-- A thread inside the pool can go on, unless it waits on an empty queue.
advance :
    (p : Pool) (a : Thread) → is_outside a ≡ false → Advance p a ⊎ ((a ≡ waiting) × (p.idle ≡ []))
advance p outside h = absurd (ground arith)
advance p waiting h = elim (List-cases p.idle) [
  | inl e ↦ inr (refl, e)
  | inr (slot, rest, e) ↦ inl (by (get e) refl)
]
advance p (took slot) h = elim (Bool-cases (fails_closed p.closed slot)) [
  | inl e ↦ inl (by (refuse slot e) refl)
  | inr e ↦ inl (by (pass slot e) refl)
]
advance p refusing h = inl (by wake refl)
advance p building h = inl (by build refl)
advance p (holding i) h = inl (by (finish none false) refl)
advance p releasing_none h = inl (by restore refl)
advance p (releasing i bad) h = elim (Bool-cases (discards p.closed bad)) [
  | inl e ↦ inl (by (discard e) refl)
  | inr e ↦ inl (by (keep e) refl)
]
advance p (returning i) h = inl (by put_back refl)
advance p (replacing i) h = inl (by put_placeholder refl)
advance p (closing i) h = inl (by free refl)
advance p draining h = elim (List-cases p.idle) [
  | inl e ↦ inl (by (drained e) refl)
  | inr (slot, rest, e) ↦ inl (by (drain e) refl)
]
advance p posting h = inl (by post refl)

-- A sum that is not zero has a member that counts.
member_of-sum :
    (w : Thread → ℕ) (xs : List Thread)
    → 1 ≤ sum_of w xs
    → (j : ℕ) × (b : Thread) × (get_elem? xs j ≡ some b) × (1 ≤ w b)
unfolding sum_of
member_of-sum w [] h = absurd (omega arith)
member_of-sum w (x ∷ xs) h = elim (Bool-cases (ltb 0 (w x))) [
  | inl e ↦ (0, x, refl, ground arith)
  | inr e ↦ let (j, b, at, k) = member_of-sum w xs (ground arith) in (suc j, b, at, k)
]

abbrev is_waiting : Thread → Bool
is_waiting waiting = true
is_waiting _ = false

-- Who has a slot out, or is on the way to put something into the queue of a closed pool.
busy : (b : Thread) → 1 ≤ has_slot b + wakes b → (is_outside b ≡ false) × (is_waiting b ≡ false)
busy outside h = absurd (omega arith)
busy waiting h = absurd (omega arith)
busy _ h = (refl, refl)

-- Some thread inside the pool can go on.
abbrev pub SomeAdvances : System → Type 0
SomeAdvances s =
    (j : ℕ) × (b : Thread) × (get_elem? s.threads j ≡ some b)
    × (is_outside b ≡ false)
    × Advance s.pool b

busy-advances :
    (s : System) (j : ℕ) (b : Thread)
    → get_elem? s.threads j ≡ some b
    → 1 ≤ has_slot b + wakes b
    → SomeAdvances s
busy-advances s j b at h =
    let (inside, goes) = busy b h in
    elim (advance s.pool b inside) [
      | inl m ↦ (j, b, at, inside, m)
      | inr (e, empty) ↦ let waits = ap is_waiting e in absurd (ground arith)
    ]

empty-advances : {s : System} → Inv s → s.pool.idle ≡ [] → SomeAdvances s
empty-advances {s} h empty =
    let none_left : length s.pool.idle ≡ 0 = ap length empty in
    elim (Bool-cases s.pool.closed) [
      | inl c ↦
          let (j, b, at, k) = member_of-sum wakes s.threads (omega (arith, h.woken c)) in
          busy-advances s j b at (omega arith)
      | inr c ↦
          let (j, b, at, k) =
            member_of-sum has_slot s.threads (omega (arith, h.open_slots c, h.max)) in
          busy-advances s j b at (omega arith)
    ]

-- In every state that threads reach in which a thread is inside the pool, to borrow, to release or to
-- close: some thread inside it can take a step other than the end of a wait by its timeout. So the
-- threads never all wait for one another, also where waits have no timeout, before and after `close`.
pub no_deadlock :
    {size n : ℕ} {s : System}
    → Reach size n s
    → (k : ℕ) (a : Thread) → get_elem? s.threads k ≡ some a
    → is_outside a ≡ false
    → SomeAdvances s
no_deadlock {s} r k a at inside = elim (advance s.pool a inside) [
  | inl m ↦ (k, a, at, inside, m)
  | inr (e, empty) ↦ empty-advances (Reach-Inv r) empty
]
