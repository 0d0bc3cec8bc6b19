-- ===== src/Pool/Weights.antt =====
-- Sums over threads and slots, and how a step changes them.
use opa_py_wasm.Base.{
  ℕ, zero, suc, ◌+◌, ◌≤◌, ◌≡◌, refl, some, List, [], ◌∷◌, ◌++◌, arith, ◌==◌, if◌then◌else◌,
  get_elem?, set, replicate,
}
use opa_py_wasm.Pool.{
  Slot, live, sentinel, Thread, took, refusing, building, holding, releasing_none, releasing,
  returning, replacing, closing, draining, posting,
}

module _ {ℓ} {A : Type ℓ} (w : A → ℕ) where
  unfoldable pub sum_of : List A → ℕ
  sum_of [] = 0
  sum_of (x ∷ xs) = w x + sum_of xs

  pub sum_of-append : (xs ys : List A) → sum_of (xs ++ ys) ≡ sum_of xs + sum_of ys
  unfolding sum_of
  sum_of-append [] ys = omega arith
  sum_of-append (x ∷ xs) ys = omega (arith, sum_of-append xs ys)

  pub sum_of-set :
      (xs : List A) (i : ℕ) (a b : A)
      → get_elem? xs i ≡ some a
      → sum_of (set xs i b) + w a ≡ sum_of xs + w b
  unfolding sum_of
  sum_of-set [] i a b h = ground arith
  sum_of-set (x ∷ xs) zero a b h = ground arith
  sum_of-set (x ∷ xs) (suc i) a b h = omega (arith, sum_of-set xs i a b h)

  pub le-sum_of : (xs : List A) (i : ℕ) (a : A) → get_elem? xs i ≡ some a → w a ≤ sum_of xs
  unfolding sum_of
  le-sum_of [] i a h = ground arith
  le-sum_of (x ∷ xs) zero a h = ground arith
  le-sum_of (x ∷ xs) (suc i) a h = omega (arith, le-sum_of xs i a h)

  pub sum_of-replicate : (n : ℕ) (a : A) → w a ≡ 0 → sum_of (replicate n a) ≡ 0
  unfolding sum_of
  sum_of-replicate zero a h = refl
  sum_of-replicate (suc n) a h = omega (arith, sum_of-replicate n a h)

pub sum_of_mono {ℓ} :
    {A : Type ℓ} (v w : A → ℕ) → ((a : A) → v a ≤ w a) → (xs : List A) → sum_of v xs ≤ sum_of w xs
unfolding sum_of
sum_of_mono v w h [] = omega arith
sum_of_mono v w h (x ∷ xs) = omega (arith, h x, sum_of_mono v w h xs)

-- The slot of the queue that a thread has out.
abbrev pub has_slot : Thread → ℕ
has_slot (took slot) = 1
has_slot building = 1
has_slot (holding i) = 1
has_slot releasing_none = 1
has_slot (releasing i bad) = 1
has_slot (returning i) = 1
has_slot (replacing i) = 1
has_slot _ = 0

-- The slot that a thread has out past the closed check of `_take_slot`.
abbrev pub in_use : Thread → ℕ
in_use (took slot) = 0
in_use t = has_slot t

-- What is only there once the pool is closed.
abbrev pub is_stop : Slot → ℕ
is_stop sentinel = 1
is_stop _ = 0

abbrev pub stopped : Thread → ℕ
stopped (took slot) = is_stop slot
stopped refusing = 1
stopped draining = 1
stopped posting = 1
stopped _ = 0

-- A thread that will put a slot, or the sentinel, into the queue of a closed pool.
abbrev pub wakes : Thread → ℕ
wakes (took slot) = 1
wakes refusing = 1
wakes draining = 1
wakes posting = 1
wakes _ = 0

-- Instance `i` in a slot, and in the hands of a thread.
abbrev pub one_if : ℕ → ℕ → ℕ
one_if i j = if i == j then 1 else 0

abbrev pub slot_has : ℕ → Slot → ℕ
slot_has i (live j) = one_if i j
slot_has i _ = 0

abbrev pub owns : ℕ → Thread → ℕ
owns i (took slot) = slot_has i slot
owns i (holding j) = one_if i j
owns i (releasing j bad) = one_if i j
owns i (returning j) = one_if i j
owns i (replacing j) = one_if i j
owns i (closing j) = one_if i j
owns i _ = 0
