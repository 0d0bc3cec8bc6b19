-- ===== src/Pool/Ownership.antt =====
-- Where an instance of the pool is: in a slot of the queue, in the hands of a thread, or freed.
use opa_py_wasm.Base.{ℕ, ◌+◌, ◌≤◌, ◌≡◌, refl, Bool, [], ◌∷◌, arith, ltb, if◌then◌else◌}
use opa_py_wasm.Pool.{
  Slot, placeholder, live, sentinel, Pool, Thread, put_nowait, free_slot, create_instance,
  count_recreated, Move, enter, get, time_out, pass, refuse, wake, build, build_fails, finish,
  restore, keep, discard, put_back, put_placeholder, free, start_close, drain, drained, post,
}
use opa_py_wasm.Pool.Weights.{sum_of, sum_of-append, one_if, slot_has, owns}

-- Whether instance `i` is among the first `n` that the factory built.
abbrev pub known : ℕ → ℕ → ℕ
known i n = if ltb i n then 1 else 0

-- How often instance `i` is in the queue or among the freed ones.
abbrev pub placed : ℕ → Pool → ℕ
placed i p = sum_of (slot_has i) p.idle + sum_of (one_if i) p.freed

put-placed :
    (i : ℕ) (slot : Slot) (p : Pool)
    → (placed i (put_nowait slot p) ≤ placed i p + slot_has i slot)
      × ((put_nowait slot p).next_instance ≡ p.next_instance)
unfolding put_nowait sum_of
put-placed i slot p = ground (arith, sum_of-append (slot_has i) p.idle (slot ∷ []))

pub free-placed :
    (i : ℕ) (slot : Slot) (p : Pool)
    → (placed i (free_slot slot p) ≡ placed i p + slot_has i slot)
      × ((free_slot slot p).next_instance ≡ p.next_instance)
unfolding free_slot sum_of
free-placed i placeholder p = (omega arith, refl)
free-placed i (live j) p = (omega arith, refl)
free-placed i sentinel p = (omega arith, refl)

pub count-placed :
    (i : ℕ) (closed : Bool) (p : Pool)
    → (placed i (count_recreated closed p) ≡ placed i p)
      × ((count_recreated closed p).next_instance ≡ p.next_instance)
unfolding count_recreated
count-placed i closed p = ground arith

-- A step moves an instance and never copies it; only the factory makes one.
pub Move-owned :
    {p q : Pool} {a b : Thread} (i : ℕ)
    → Move p a q b
    → placed i q + owns i b + known i p.next_instance
      ≤ placed i p + owns i a + known i q.next_instance
unfolding create_instance sum_of
Move-owned i (enter c) = omega arith
Move-owned i (get {p} {slot} {rest} e) = ground arith
Move-owned i (time_out e) = omega arith
Move-owned i (pass placeholder e) = omega arith
Move-owned i (pass (live j) e) = omega arith
Move-owned i (pass sentinel e) = omega arith
Move-owned i (refuse {p} slot e) = ground (arith, free-placed i slot p)
Move-owned i (wake {p}) = ground (arith, put-placed i sentinel p)
Move-owned i (build {p}) = ground arith
Move-owned i build_fails = omega arith
Move-owned i (finish loan bad) = omega arith
Move-owned i (restore {p}) = ground (arith, put-placed i placeholder p)
Move-owned i (keep e) = omega arith
Move-owned i (discard {p} e) = ground (arith, count-placed i p.closed p)
Move-owned n (put_back {p} {i}) = ground (arith, put-placed n (live i) p)
Move-owned i (put_placeholder {p}) = ground (arith, put-placed i placeholder p)
Move-owned n (free {p} {i}) = ground (arith, free-placed n (live i) p)
Move-owned i (start_close e) = omega arith
Move-owned i (drain {p} {slot} {rest} e) =
    ground (arith, free-placed i slot (record p { idle = rest }))
Move-owned i (drained e) = omega arith
Move-owned i (post {p}) = ground (arith, put-placed i sentinel p)
