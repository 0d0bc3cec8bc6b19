-- ===== src/Pool/Invariant.antt =====
-- The invariant of every interleaving of the threads of a pool.
use opa_py_wasm.Base.{
  ℕ, zero, suc, ◌+◌, ◌≤◌, ◌≡◌, refl, inl, inr, true, false, some, [], arith, length, set, replicate,
  ap, Bool-cases, subst,
}
use opa_py_wasm.Pool.{
  placeholder, Pool, Thread, outside, waiting, took, refusing, building, holding, releasing_none,
  releasing, returning, replacing, closing, draining, posting, System, Step, pick, Reach, start,
  next, init, all_outside,
}
use opa_py_wasm.Pool.Steps.{Move-Local}
use opa_py_wasm.Pool.Ownership.{known, placed, Move-owned}
use opa_py_wasm.Pool.Weights.{
  sum_of, sum_of-set, le-sum_of, sum_of-replicate, sum_of_mono, has_slot, in_use, is_stop, stopped,
  wakes, slot_has, owns,
}

-- What holds of the pool and its threads together, at every point of every interleaving.
pub record Inv (s : System) : Type 0 where
  pub max : 1 ≤ s.pool.max_size
  pub bounded : length s.pool.idle ≤ s.pool.max_size
  pub open_slots :
      s.pool.closed ≡ false → length s.pool.idle + sum_of has_slot s.threads ≡ s.pool.max_size
  pub open_quiet : s.pool.closed ≡ false → sum_of is_stop s.pool.idle + sum_of stopped s.threads ≡ 0
  pub used : sum_of in_use s.threads ≤ s.pool.max_size
  pub woken : s.pool.closed ≡ true → 1 ≤ length s.pool.idle + sum_of wakes s.threads
  pub owned : (i : ℕ) → placed i s.pool + sum_of (owns i) s.threads ≤ known i s.pool.next_instance

in_use≤has_slot : (t : Thread) → in_use t ≤ has_slot t
in_use≤has_slot outside = omega arith
in_use≤has_slot waiting = omega arith
in_use≤has_slot (took slot) = omega arith
in_use≤has_slot refusing = omega arith
in_use≤has_slot building = omega arith
in_use≤has_slot (holding i) = omega arith
in_use≤has_slot releasing_none = omega arith
in_use≤has_slot (releasing i bad) = omega arith
in_use≤has_slot (returning i) = omega arith
in_use≤has_slot (replacing i) = omega arith
in_use≤has_slot (closing i) = omega arith
in_use≤has_slot draining = omega arith
in_use≤has_slot posting = omega arith

open_slots_kept :
    {s t : System}
    → Inv s
    → Step s t
    → t.pool.closed ≡ false
    → length t.pool.idle + sum_of has_slot t.threads ≡ t.pool.max_size
open_slots_kept {s} h (pick {p} {a} {b} i e m) c =
    let l = Move-Local m h.bounded h.max in
    let le = le-sum_of has_slot s.threads i a e in
    let still = le-sum_of stopped s.threads i a e in
    let slots = h.open_slots (l.opened c) in
    let quiet = h.open_quiet (l.opened c) in
    omega
      (arith, sum_of-set has_slot s.threads i a b e, l.max, l.slots c (omega arith) (omega arith))

open_quiet_kept :
    {s t : System}
    → Inv s
    → Step s t
    → t.pool.closed ≡ false
    → sum_of is_stop t.pool.idle + sum_of stopped t.threads ≡ 0
open_quiet_kept {s} h (pick {p} {a} {b} i e m) c =
    let l = Move-Local m h.bounded h.max in
    let still = le-sum_of stopped s.threads i a e in
    let quiet = h.open_quiet (l.opened c) in
    omega (arith, sum_of-set stopped s.threads i a b e, l.quiet c (omega arith))

used_kept : {s t : System} → Inv s → Step s t → sum_of in_use t.threads ≤ t.pool.max_size
used_kept {s} {t} h (pick {p} {a} {b} i e m) =
    let l = Move-Local m h.bounded h.max in
    elim (Bool-cases p.closed) [
      | inl c ↦ omega (
        arith,
        sum_of-set in_use s.threads i a b e,
        l.max,
        l.used c,
        h.used,
        le-sum_of in_use s.threads i a e,
      )
      | inr c ↦ omega (
        arith,
        open_slots_kept h (pick i e m) c,
        sum_of_mono in_use has_slot in_use≤has_slot (set s.threads i b),
      )
    ]

woken_kept :
    {s t : System}
    → Inv s
    → Step s t
    → t.pool.closed ≡ true
    → 1 ≤ length t.pool.idle + sum_of wakes t.threads
woken_kept {s} h (pick {p} {a} {b} i e m) c =
    let step = sum_of-set wakes s.threads i a b e in
    let le = le-sum_of wakes s.threads i a e in
    elim ((Move-Local m h.bounded h.max).woken c) [
      | inl w ↦ omega arith
      | inr w ↦ omega (arith, h.woken w.0, w.1)
    ]

Step-Inv : {s t : System} → Inv s → Step s t → Inv t
Step-Inv {s} h (pick {p} {a} {b} i e m) = record {
  max = omega (arith, (Move-Local m h.bounded h.max).max, h.max);
  bounded = (Move-Local m h.bounded h.max).bounded;
  open_slots = open_slots_kept h (pick i e m);
  open_quiet = open_quiet_kept h (pick i e m);
  used = used_kept h (pick i e m);
  woken = woken_kept h (pick i e m);
  owned = λ j. omega (arith, h.owned j, Move-owned j m, sum_of-set (owns j) s.threads i a b e);
}

length-replicate {ℓ} : {A : Type ℓ} (n : ℕ) (x : A) → length (replicate n x) ≡ n
length-replicate zero x = refl
length-replicate (suc n) x = ap suc (length-replicate n x)

new_pool : ℕ → Pool
new_pool m = record {
  max_size = m;
  idle = replicate m placeholder;
  closed = false;
  created = 0;
  recreated = 0;
  next_instance = 0;
  freed = [];
}

new_pool-Inv : (m n : ℕ) → Inv (record { pool = new_pool (suc m); threads = all_outside n })
unfolding new_pool sum_of
new_pool-Inv m n = record {
  max = omega arith;
  bounded = omega (arith, length-replicate m placeholder);
  open_slots =
      λ c. omega (arith, length-replicate m placeholder, sum_of-replicate has_slot n outside refl);
  open_quiet = λ c.
      omega (
        arith,
        sum_of-replicate is_stop m placeholder refl,
        sum_of-replicate stopped n outside refl,
      );
  used = omega (arith, sum_of-replicate in_use n outside refl);
  woken = λ c. absurd (ground arith);
  owned = λ i. ground (
    arith,
    sum_of-replicate (slot_has i) m placeholder refl,
    sum_of-replicate (owns i) n outside refl,
  );
}

start-Inv :
    (size n : ℕ) (p : Pool)
    → init size ≡ some p
    → Inv (record { pool = p; threads = all_outside n })
unfolding init new_pool
start-Inv zero n p e = absurd (ground arith)
start-Inv (suc m) n p e =
    subst (λ q. Inv (record { pool = q; threads = all_outside n })) (ground arith)
      (new_pool-Inv m n)

pub Reach-Inv : {size n : ℕ} {s : System} → Reach size n s → Inv s
Reach-Inv {size} {n} (start {p} e) = start-Inv size n p e
Reach-Inv (next r s) = Step-Inv (Reach-Inv r) s
