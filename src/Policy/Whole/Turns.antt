-- ===== src/Policy/Whole/Turns.antt =====
-- opapywasm/policy.py and opapywasm/pool.py, the threads of a whole policy: where each stands, its
-- atomic steps, and what their interleavings reach.
use opa_py_wasm.Base.{
  ℕ, ◌≡◌, Bool, true, false, ◌||◌, some, List, [], ◌∷◌, ◌==◌, get_elem?, set, replicate,
}
use opa_py_wasm.Policy.Versions.{Document}
use opa_py_wasm.Policy.Whole.{
  Item, Slot, placeholder, full, sentinel, Whole, init, put_nowait, free_slot, fails_closed,
  publish, create_instance, count_recreated, enter_eval, exit_eval, mark_closed,
}

-- Where a thread stands; `called` is the version that was current when it called `evaluate_raw`.
pub data Thread : Type 0 where
  away : Thread
  offering : Document → Thread
  entered : (called : ℕ) → Thread
  waiting : (called : ℕ) → Thread
  took : (called : ℕ) → Slot → Thread
  refusing : Thread
  building : (called : ℕ) → Thread
  constructing : (called version : ℕ) (document : Document) → Thread
  unbuilt : Thread
  lent : (called : ℕ) → Item → Thread
  snapped : (called : ℕ) → Item → (version : ℕ) (document : Document) → Thread
  evaluating : (called : ℕ) → Item → Thread
  releasing : Item → (bad : Bool) → Thread
  returning : Item → Thread
  replacing : Item → Thread
  freeing : Item → Thread
  leaving : Thread
  stopping : Thread
  draining : Thread
  posting : Thread
  marking : Thread

-- Where `_take_slot` leaves a thread that drew a slot of an open pool.
abbrev pub drawn : ℕ → Slot → Thread
drawn called placeholder = building called
drawn called (full it) = lent called it
drawn called sentinel = refusing

abbrev pub stops : Bool → Thread
stops true = stopping
stops false = away

-- The atomic steps of one thread.
pub data Turn : Whole → Thread → Whole → Thread → Type 0 where
  -- set_data: the check and the serialisation, and the block under the data lock
  offer : {w : Whole} (d : Document) → w.closed ≡ false → Turn w away w (offering d)
  write : {w : Whole} {d : Document} → Turn w (offering d) (publish d w) away
  -- evaluate_raw: _enter_eval
  enter : {w : Whole} → Turn w away (enter_eval w) (entered w.version)
  -- borrow: the first read of the event
  admit : {w : Whole} {n : ℕ} → w.pool_closed ≡ false → Turn w (entered n) w (waiting n)
  reject : {w : Whole} {n : ℕ} → w.pool_closed ≡ true → Turn w (entered n) w leaving
  -- _take_slot
  get :
      {w : Whole} {n : ℕ} {slot : Slot} {rest : List Slot}
      → w.idle ≡ slot ∷ rest
      → Turn w (waiting n) (record w { idle = rest }) (took n slot)
  time_out : {w : Whole} {n : ℕ} → w.idle ≡ [] → Turn w (waiting n) w leaving
  pass :
      {w : Whole} {n : ℕ} (slot : Slot)
      → fails_closed w.pool_closed slot ≡ false
      → Turn w (took n slot) w (drawn n slot)
  refuse :
      {w : Whole} {n : ℕ} (slot : Slot)
      → fails_closed w.pool_closed slot ≡ true
      → Turn w (took n slot) (free_slot slot w) refusing
  wake : {w : Whole} → Turn w refusing (put_nowait sentinel w) leaving
  -- _build_instance: the snapshot, and the constructor
  snapshot_build : {w : Whole} {n : ℕ} → Turn w (building n) w (constructing n w.version w.document)
  construct :
      {w : Whole} {n v : ℕ} {d : Document}
      → Turn w
          (constructing n v d)
          (create_instance w)
          (lent n (record { number = w.next_instance; version = v; document = d }))
  construct_fails : {w : Whole} {n v : ℕ} {d : Document} → Turn w (constructing n v d) w unbuilt
  -- _refresh_if_stale
  snapshot :
      {w : Whole} {n : ℕ} {it : Item} → Turn w (lent n it) w (snapped n it w.version w.document)
  fresh :
      {w : Whole} {n v : ℕ} {it : Item} {d : Document}
      → (it.version == v) ≡ true
      → Turn w (snapped n it v d) w (evaluating n it)
  reload :
      {w : Whole} {n v : ℕ} {it : Item} {d : Document}
      → (it.version == v) ≡ false
      → Turn w (snapped n it v d) w (evaluating n (record it { version = v; document = d }))
  -- the reload raises: an `Exception` poisons the instance, another exception does not
  reload_fails :
      {w : Whole} {n v : ℕ} {it : Item} {d : Document} (left : Document) (poisoned : Bool)
      → (it.version == v) ≡ false
      → Turn w (snapped n it v d) w (releasing (record it { document = left }) poisoned)
  -- the evaluation ends, with a decision or with an error that may have poisoned the instance
  finish :
      {w : Whole} {n : ℕ} {it : Item} (poisoned : Bool)
      → Turn w (evaluating n it) w (releasing it poisoned)
  -- _release
  restore : {w : Whole} → Turn w unbuilt (put_nowait placeholder w) leaving
  keep :
      {w : Whole} {it : Item} {bad : Bool}
      → w.pool_closed || bad ≡ false
      → Turn w (releasing it bad) w (returning it)
  discard :
      {w : Whole} {it : Item} {bad : Bool}
      → w.pool_closed || bad ≡ true
      → Turn w (releasing it bad) (count_recreated w.pool_closed w) (replacing it)
  put_back : {w : Whole} {it : Item} → Turn w (returning it) (put_nowait (full it) w) leaving
  put_placeholder :
      {w : Whole} {it : Item} → Turn w (replacing it) (put_nowait placeholder w) (freeing it)
  free : {w : Whole} {it : Item} → Turn w (freeing it) (free_slot (full it) w) leaving
  -- _exit_eval, and the stop of the ticker
  exit : {w : Whole} → Turn w leaving (exit_eval w).0 (stops (exit_eval w).1)
  stop : {w : Whole} → Turn w stopping (record w { stopped = true }) away
  -- close: the pool's, which a second call passes by, and then the block under the lifecycle lock; the
  -- second call is not made to wait for the first one's drain
  start_close :
      {w : Whole} → w.pool_closed ≡ false → Turn w away (record w { pool_closed = true }) draining
  close_again : {w : Whole} → w.pool_closed ≡ true → Turn w away w marking
  drain :
      {w : Whole} {slot : Slot} {rest : List Slot}
      → w.idle ≡ slot ∷ rest
      → Turn w draining (free_slot slot (record w { idle = rest })) draining
  drained : {w : Whole} → w.idle ≡ [] → Turn w draining w posting
  post : {w : Whole} → Turn w posting (put_nowait sentinel w) marking
  mark : {w : Whole} → Turn w marking (mark_closed w).0 (stops (mark_closed w).1)

pub record Scene : Type 0 where
  pub whole : Whole
  pub threads : List Thread

pub data Act (s : Scene) : Scene → Type 0 where
  turn :
      {w : Whole} {a b : Thread} (i : ℕ)
      → get_elem? s.threads i ≡ some a
      → Turn s.whole a w b
      → Act s (record { whole = w; threads = set s.threads i b })

-- What some interleaving of `n` threads reaches from a new policy with a pool of the given size.
pub data Reaches (size n : ℕ) : Scene → Type 0 where
  begin :
      {w : Whole}
      → init size ≡ some w
      → Reaches size n (record { whole = w; threads = replicate n away })
  then' : {s t : Scene} → Reaches size n s → Act s t → Reaches size n t
