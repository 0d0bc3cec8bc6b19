-- ===== src/Pool/Accounted.antt =====
-- That an open pool loses no instance.
use opa_py_wasm.Base.{
  ℕ, zero, suc, ◌+◌, ◌≤◌, ◌<◌, ◌≡◌, refl, false, some, [], ◌∷◌, arith, length, replicate,
}
use opa_py_wasm.Pool.{
  Slot, placeholder, live, sentinel, Pool, Thread, outside, put_nowait, create_instance, init,
  all_outside, Move, enter, get, time_out, pass, refuse, wake, build, build_fails, finish, restore,
  keep, discard, put_back, put_placeholder, free, start_close, drain, drained, post, System, pick,
  Reach, start, next,
}
use opa_py_wasm.Pool.Weights.{
  sum_of, sum_of-append, sum_of-set, sum_of-replicate, le-sum_of, slot_has, has_slot, owns,
}
use opa_py_wasm.Pool.Steps.{Move-Local}
use opa_py_wasm.Pool.Ownership.{known, placed, free-placed, count-placed}
use opa_py_wasm.Pool.Invariant.{Reach-Inv}

-- With room, or of what is no instance, a put keeps count.
put-kept :
    (i : ℕ) (slot : Slot) (p : Pool)
    → length p.idle < p.max_size
    → (placed i (put_nowait slot p) ≡ placed i p + slot_has i slot)
      × ((put_nowait slot p).next_instance ≡ p.next_instance)
unfolding put_nowait sum_of
put-kept i slot p h = ground (arith, sum_of-append (slot_has i) p.idle (slot ∷ []))

put_empty-kept :
    (i : ℕ) (slot : Slot) (p : Pool)
    → slot_has i slot ≡ 0
    → (placed i (put_nowait slot p) ≡ placed i p)
      × ((put_nowait slot p).next_instance ≡ p.next_instance)
unfolding put_nowait sum_of
put_empty-kept i slot p h = ground (arith, sum_of-append (slot_has i) p.idle (slot ∷ []))

-- Where the mover's slot fits into the queue, a step neither loses an instance nor copies one.
Move-accounted :
    {p q : Pool} {a b : Thread} (i : ℕ)
    → Move p a q b
    → length p.idle + has_slot a ≤ p.max_size
    → placed i q + owns i b + known i p.next_instance
      ≡ placed i p + owns i a + known i q.next_instance
unfolding create_instance sum_of
Move-accounted i (enter c) h = refl
Move-accounted i (get {p} {slot} {rest} e) h = ground arith
Move-accounted i (time_out e) h = refl
Move-accounted i (pass placeholder e) h = refl
Move-accounted i (pass (live j) e) h = refl
Move-accounted i (pass sentinel e) h = refl
Move-accounted i (refuse {p} slot e) h = ground (arith, free-placed i slot p)
Move-accounted i (wake {p}) h = ground (arith, put_empty-kept i sentinel p refl)
Move-accounted i (build {p}) h = ground arith
Move-accounted i build_fails h = refl
Move-accounted i (finish loan bad) h = refl
Move-accounted i (restore {p}) h = ground (arith, put_empty-kept i placeholder p refl)
Move-accounted i (keep e) h = refl
Move-accounted i (discard {p} e) h = ground (arith, count-placed i p.closed p)
Move-accounted n (put_back {p} {i}) h = ground (arith, put-kept n (live i) p)
Move-accounted i (put_placeholder {p}) h = ground (arith, put_empty-kept i placeholder p refl)
Move-accounted n (free {p} {i}) h = ground (arith, free-placed n (live i) p)
Move-accounted i (start_close e) h = refl
Move-accounted i (drain {p} {slot} {rest} e) h =
    ground (arith, free-placed i slot (record p { idle = rest }))
Move-accounted i (drained e) h = refl
Move-accounted i (post {p}) h = ground (arith, put_empty-kept i sentinel p refl)

new-accounted :
    (size n : ℕ) (p : Pool) (i : ℕ)
    → init size ≡ some p
    → placed i p + sum_of (owns i) (all_outside n) ≡ known i p.next_instance
unfolding init sum_of
new-accounted zero n p i e = absurd (ground arith)
new-accounted (suc m) n p i e =
    let same : some (record {
      max_size = suc m;
      idle = placeholder ∷ replicate m placeholder;
      closed = false;
      created = 0;
      recreated = 0;
      next_instance = 0;
      freed = [];
    })
        ≡ some p =
      e in
    let slots = sum_of-replicate (slot_has i) m placeholder refl in
    let threads = sum_of-replicate (owns i) n outside refl in ground arith

-- In every state that threads reach, while the pool is open, each instance that the factory has made
-- is in one place: idle in the queue, in the hands of one thread, or freed. None is lost, and none is
-- there that was not made.
pub none_lost :
    {size n : ℕ} {s : System}
    → Reach size n s
    → s.pool.closed ≡ false
    → (i : ℕ) → placed i s.pool + sum_of (owns i) s.threads ≡ known i s.pool.next_instance
none_lost {size} {n} (start {p} e) c i = new-accounted size n p i e
none_lost (next {s} r (pick {p} {a} {b} k e m)) c i =
    let inv = Reach-Inv r in
    let opened = (Move-Local m inv.bounded inv.max).opened c in
    let slots = inv.open_slots opened in
    let mine = le-sum_of has_slot s.threads k a e in
    omega (
      arith,
      none_lost r opened i,
      Move-accounted i m (omega arith),
      sum_of-set (owns i) s.threads k a b e,
      le-sum_of (owns i) s.threads k a e,
    )
