-- ===== src/Pool/Safety.antt =====
-- What every interleaving of the threads of a pool keeps: loans, slots and wake-ups.
use opa_py_wasm.Base.{
  ℕ, zero, suc, ◌+◌, ◌≤◌, ◌≡◌, refl, ap, true, false, ◌⊎◌, inl, inr, Bool-cases, some, List, [],
  ◌∷◌, arith, length, get_elem?,
}
use opa_py_wasm.Pool.{Pool, Thread, System, Step, pick, Reach, start, next, init}
use opa_py_wasm.Pool.Weights.{sum_of, sum_of-set, le-sum_of, has_slot, in_use, wakes, one_if, owns}
use opa_py_wasm.Pool.Ownership.{known, placed}
use opa_py_wasm.Pool.Steps.{Move-Local}
use opa_py_wasm.Pool.Invariant.{Reach-Inv}

-- Two different threads that both carry weight count twice.
two-le-sum_of :
    {A : Type 0} (w : A → ℕ) (xs : List A) (j k : ℕ) (a b : A)
    → get_elem? xs j ≡ some a
    → get_elem? xs k ≡ some b
    → (j ≡ k) ⊎ (w a + w b ≤ sum_of w xs)
unfolding sum_of
two-le-sum_of w [] j k a b ha hb = absurd (ground arith)
two-le-sum_of w (x ∷ xs) zero zero a b ha hb = inl refl
two-le-sum_of w (x ∷ xs) zero (suc k) a b ha hb = inr (ground (arith, le-sum_of w xs k b hb))
two-le-sum_of w (x ∷ xs) (suc j) zero a b ha hb = inr (ground (arith, le-sum_of w xs j a ha))
two-le-sum_of w (x ∷ xs) (suc j) (suc k) a b ha hb = elim (two-le-sum_of w xs j k a b ha hb) [
  | inl e ↦ inl (ap suc e)
  | inr h ↦ inr (omega arith)
]

known≤1 : (i n : ℕ) → known i n ≤ 1
known≤1 i n = ground arith

-- In every state that threads reach from a new pool: where the threads `j` and `k` both have
-- instance `i` in hand, they are the same thread; and while a thread has the instance, it is
-- neither idle in the queue nor freed.
pub exclusive_loan :
    {size n : ℕ} {s : System}
    → Reach size n s
    → (i j k : ℕ) (a b : Thread) → get_elem? s.threads j ≡ some a
    → get_elem? s.threads k ≡ some b
    → 1 ≤ owns i a
    → 1 ≤ owns i b
    → (j ≡ k) × (placed i s.pool ≡ 0)
exclusive_loan {s} r i j k a b ha hb oa ob =
    let owned = (Reach-Inv r).owned i in
    let one = known≤1 i s.pool.next_instance in
    let le = le-sum_of (owns i) s.threads j a ha in
    elim (two-le-sum_of (owns i) s.threads j k a b ha hb) [
      | inl e ↦ (e, omega arith)
      | inr h ↦ absurd (omega arith)
    ]

-- In every state that threads reach, an instance that was freed has been freed only once, and is
-- neither idle in the queue nor in the hands of any thread.
pub freed_once :
    {size n : ℕ} {s : System}
    → Reach size n s
    → (i : ℕ) → 1 ≤ sum_of (one_if i) s.pool.freed
    → (sum_of (one_if i) s.pool.freed ≡ 1) × (placed i s.pool ≡ 1) × (sum_of (owns i) s.threads ≡ 0)
freed_once {s} r i h =
    let owned = (Reach-Inv r).owned i in
    let one = known≤1 i s.pool.next_instance in (omega arith, omega arith, omega arith)

init-size : (size : ℕ) (p : Pool) → init size ≡ some p → p.max_size ≡ size
unfolding init
init-size zero p e = absurd (ground arith)
init-size (suc m) p e = ground arith

Reach-size : {size n : ℕ} {s : System} → Reach size n s → s.pool.max_size ≡ size
Reach-size {size} (start {p} e) = init-size size p e
Reach-size (next r (pick i e m)) =
    let l = Move-Local m (Reach-Inv r).bounded (Reach-Inv r).max in
    omega (arith, l.max, Reach-size r)

-- In every state that threads reach, while the pool is open, each of its slots is either in the
-- queue or out with a thread, and they add up to the size: none is lost, also when a factory fails, an evaluation
-- poisons its instance or a wait times out.
pub slots_conserved :
    {size n : ℕ} {s : System}
    → Reach size n s
    → s.pool.closed ≡ false
    → length s.pool.idle + sum_of has_slot s.threads ≡ size
slots_conserved r c = omega (arith, (Reach-Inv r).open_slots c, Reach-size r)

-- In every state that threads reach, open or closed, at most `size` threads are past the closed
-- check with a slot, and the queue holds at most `size` slots.
pub at_most_size :
    {size n : ℕ} {s : System}
    → Reach size n s
    → (sum_of in_use s.threads ≤ size) × (length s.pool.idle ≤ size)
at_most_size r =
    let e = Reach-size r in
    (omega (arith, (Reach-Inv r).used), omega (arith, (Reach-Inv r).bounded))

-- In every state of a closed pool that threads reach, no wake-up is lost: as long as no thread is
-- on its way to put a slot or the sentinel into the queue, the queue holds one, so that a thread
-- that waits in `get` can draw it.
pub no_lost_wake :
    {size n : ℕ} {s : System}
    → Reach size n s
    → s.pool.closed ≡ true
    → sum_of wakes s.threads ≡ 0
    → 1 ≤ length s.pool.idle
no_lost_wake r c h = omega (arith, (Reach-Inv r).woken c)

closed_kept :
    {size n : ℕ} {s t : System}
    → Reach size n s
    → Step s t
    → s.pool.closed ≡ true
    → t.pool.closed ≡ true
closed_kept r (pick {p} i e m) c =
    let l = Move-Local m (Reach-Inv r).bounded (Reach-Inv r).max in
    elim (Bool-cases p.closed) [ inl d ↦ d | inr d ↦ absurd (ground (arith, l.opened d)) ]

-- A step of any thread leaves a closed pool closed, and takes no thread past the closed check:
-- the number of those that have a slot to use never grows again.
pub no_loan_after_close :
    {size n : ℕ} {s t : System}
    → Reach size n s
    → Step s t
    → s.pool.closed ≡ true
    → (t.pool.closed ≡ true) × (sum_of in_use t.threads ≤ sum_of in_use s.threads)
no_loan_after_close {s} r (pick {p} {a} {b} i e m) c =
    let l = Move-Local m (Reach-Inv r).bounded (Reach-Inv r).max in
    let d = closed_kept r (pick i e m) c in
    (d, omega (arith, l.used d, sum_of-set in_use s.threads i a b e))
