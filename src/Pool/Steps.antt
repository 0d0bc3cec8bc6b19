-- ===== src/Pool/Steps.antt =====
-- What one step of a thread does to the pool and to the thread.
use opa_py_wasm.Base.{
  ℕ, suc, ◌+◌, ◌≤◌, ◌≡◌, refl, ◌⊎◌, Bool, true, false, [], ◌∷◌, arith, length, length-append,
}
use opa_py_wasm.Pool.{
  Slot, placeholder, live, sentinel, Pool, Thread, put_nowait, free_slot, create_instance, discards,
  fails_closed, count_recreated, Move, enter, get, time_out, pass, refuse, wake, build, build_fails,
  finish, restore, keep, discard, put_back, put_placeholder, free, start_close, drain, drained,
  post,
}
use opa_py_wasm.Pool.Weights.{sum_of, sum_of-append, has_slot, in_use, is_stop, stopped, wakes}

-- The pool after a put, as far as the sums read it.
put-length :
    (slot : Slot) (p : Pool)
    → length p.idle ≤ p.max_size
    → (length (put_nowait slot p).idle ≤ p.max_size)
      × (length p.idle ≤ length (put_nowait slot p).idle)
      × (suc (length p.idle) ≤ p.max_size → length (put_nowait slot p).idle ≡ suc (length p.idle))
      × (1 ≤ p.max_size → 1 ≤ length (put_nowait slot p).idle)
unfolding put_nowait
put-length slot p h = ground (arith, length-append p.idle (slot ∷ []))

put-sum :
    (w : Slot → ℕ) (slot : Slot) (p : Pool)
    → sum_of w (put_nowait slot p).idle ≤ sum_of w p.idle + w slot
unfolding put_nowait sum_of
put-sum w slot p = ground (arith, sum_of-append w p.idle (slot ∷ []))

put_same :
    (slot : Slot) (p : Pool)
    → ((put_nowait slot p).max_size ≡ p.max_size)
      × ((put_nowait slot p).closed ≡ p.closed)
      × ((put_nowait slot p).next_instance ≡ p.next_instance)
unfolding put_nowait
put_same slot p = ground arith

free_same :
    (slot : Slot) (p : Pool)
    → ((free_slot slot p).max_size ≡ p.max_size)
      × ((free_slot slot p).closed ≡ p.closed)
      × ((free_slot slot p).next_instance ≡ p.next_instance)
      × ((free_slot slot p).idle ≡ p.idle)
unfolding free_slot
free_same placeholder p = (refl, refl, refl, refl)
free_same (live i) p = (refl, refl, refl, refl)
free_same sentinel p = (refl, refl, refl, refl)

count_same :
    (closed : Bool) (p : Pool)
    → ((count_recreated closed p).max_size ≡ p.max_size)
      × ((count_recreated closed p).closed ≡ p.closed)
      × ((count_recreated closed p).next_instance ≡ p.next_instance)
      × ((count_recreated closed p).idle ≡ p.idle)
unfolding count_recreated
count_same closed p = ground arith

-- What a step does to the pool and its own thread, given what the pool keeps.
pub record Local (p : Pool) (a : Thread) (q : Pool) (b : Thread) : Type 0 where
  pub max : q.max_size ≡ p.max_size
  pub opened : q.closed ≡ false → p.closed ≡ false
  pub bounded : length q.idle ≤ q.max_size
  pub slots :
      q.closed ≡ false
      → stopped a ≡ 0
      → length p.idle + has_slot a ≤ p.max_size
      → length q.idle + has_slot b ≡ length p.idle + has_slot a
  pub quiet :
      q.closed ≡ false
      → stopped a ≡ 0
      → sum_of is_stop q.idle + stopped b ≤ sum_of is_stop p.idle + stopped a
  pub used : q.closed ≡ true → in_use b ≤ in_use a
  pub woken :
      q.closed ≡ true
      → (1 ≤ length q.idle + wakes b)
        ⊎ ((p.closed ≡ true) × (length p.idle + wakes a ≤ length q.idle + wakes b))

pub Move-Local :
    {p q : Pool} {a b : Thread}
    → Move p a q b
    → length p.idle ≤ p.max_size
    → 1 ≤ p.max_size
    → Local p a q b
unfolding create_instance discards fails_closed sum_of
Move-Local (enter c) h m = ground arith
Move-Local (get {p} {slot} {rest} e) h m = ground arith
Move-Local (time_out e) h m = ground arith
Move-Local (pass placeholder e) h m = ground arith
Move-Local (pass (live i) e) h m = ground arith
Move-Local (pass sentinel e) h m = ground arith
Move-Local (refuse {p} slot e) h m = ground (arith, free_same slot p)
Move-Local (wake {p}) h m =
    ground (arith, put_same sentinel p, put-length sentinel p h, put-sum is_stop sentinel p)
Move-Local build h m = ground arith
Move-Local build_fails h m = ground arith
Move-Local (finish loan bad) h m = ground arith
Move-Local (restore {p}) h m =
    ground
      (arith, put_same placeholder p, put-length placeholder p h, put-sum is_stop placeholder p)
Move-Local (keep e) h m = ground arith
Move-Local (discard {p} e) h m = ground (arith, count_same p.closed p)
Move-Local (put_back {p} {i}) h m =
    ground (arith, put_same (live i) p, put-length (live i) p h, put-sum is_stop (live i) p)
Move-Local (put_placeholder {p}) h m =
    ground
      (arith, put_same placeholder p, put-length placeholder p h, put-sum is_stop placeholder p)
Move-Local (free {p} {i}) h m = ground (arith, free_same (live i) p)
Move-Local (start_close e) h m = ground arith
Move-Local (drain {p} {slot} {rest} e) h m =
    ground (arith, free_same slot (record p { idle = rest }))
Move-Local (drained e) h m = ground arith
Move-Local (post {p}) h m =
    ground (arith, put_same sentinel p, put-length sentinel p h, put-sum is_stop sentinel p)
