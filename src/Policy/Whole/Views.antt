-- ===== src/Policy/Whole/Views.antt =====
-- The three sides of the whole: the pool, the data document, and the lifecycle.
use opa_py_wasm.Base.{ℕ, List, [], ◌∷◌, map}
use opa_py_wasm.Pool
use opa_py_wasm.Pool.{Pool}
use opa_py_wasm.Policy.Versions
use opa_py_wasm.Policy.Versions.{Holder, Shared}
use opa_py_wasm.Policy.Lifecycle
use opa_py_wasm.Policy.Lifecycle.{Life}
use opa_py_wasm.Policy.Whole.{Item, Slot, placeholder, full, sentinel, Whole}
use opa_py_wasm.Policy.Whole.Turns.{
  Thread, away, offering, entered, waiting, took, refusing, building, constructing, unbuilt, lent,
  snapped, evaluating, releasing, returning, replacing, freeing, leaving, stopping, draining,
  posting, marking,
}

-- The pool: of an instance it sees the number.
abbrev pub slot_of : Slot → Pool.Slot
slot_of placeholder = Pool.placeholder
slot_of (full it) = Pool.live it.number
slot_of sentinel = Pool.sentinel

abbrev pub pool_of : Whole → Pool
pool_of w = record {
  max_size = w.max_size;
  idle = map slot_of w.idle;
  closed = w.pool_closed;
  created = w.created;
  recreated = w.recreated;
  next_instance = w.next_instance;
  freed = w.freed;
}

abbrev pub pool_thread : Thread → Pool.Thread
pool_thread (waiting n) = Pool.waiting
pool_thread (took n slot) = Pool.took (slot_of slot)
pool_thread refusing = Pool.refusing
pool_thread (building n) = Pool.building
pool_thread (constructing n v d) = Pool.building
pool_thread unbuilt = Pool.releasing_none
pool_thread (lent n it) = Pool.holding it.number
pool_thread (snapped n it v d) = Pool.holding it.number
pool_thread (evaluating n it) = Pool.holding it.number
pool_thread (releasing it bad) = Pool.releasing it.number bad
pool_thread (returning it) = Pool.returning it.number
pool_thread (replacing it) = Pool.replacing it.number
pool_thread (freeing it) = Pool.closing it.number
pool_thread draining = Pool.draining
pool_thread posting = Pool.posting
pool_thread _ = Pool.outside

-- The documents: of an instance, its version and its document.
abbrev pub holder_of : Item → Holder
holder_of it = record { version = it.version; document = it.document }

abbrev pub holders : List Slot → List Holder
holders [] = []
holders (full it ∷ slots) = holder_of it ∷ holders slots
holders (slot ∷ slots) = holders slots

abbrev pub shared_of : Whole → Shared
shared_of w = record {
  document = w.document;
  version = w.version;
  published = w.published;
  idle = holders w.idle;
}

abbrev pub with_drawn : ℕ → Slot → Versions.Worker
with_drawn n (full it) = Versions.lent n (holder_of it)
with_drawn n slot = Versions.borrowing n

abbrev pub worker_of : Thread → Versions.Worker
worker_of (offering d) = Versions.offering d
worker_of (entered n) = Versions.borrowing n
worker_of (waiting n) = Versions.borrowing n
worker_of (took n slot) = with_drawn n slot
worker_of (building n) = Versions.building n
worker_of (constructing n v d) = Versions.constructing n v d
worker_of (lent n it) = Versions.lent n (holder_of it)
worker_of (snapped n it v d) = Versions.snapped n (holder_of it) v d
worker_of (evaluating n it) = Versions.evaluating n (holder_of it)
worker_of (releasing it bad) = Versions.ending (holder_of it)
worker_of (returning it) = Versions.ending (holder_of it)
worker_of _ = Versions.resting

-- The lifecycle: the count of the evaluations, and who stops the ticker.
abbrev pub life_of : Whole → Life
life_of w = record {
  pool_closed = w.pool_closed;
  closed = w.closed;
  active = w.active;
  stopped = w.stopped;
}

abbrev pub caller_of : Thread → Lifecycle.Caller
caller_of away = Lifecycle.away
caller_of (offering d) = Lifecycle.away
caller_of (entered n) = Lifecycle.entered
caller_of leaving = Lifecycle.leaving
caller_of stopping = Lifecycle.stopping
caller_of draining = Lifecycle.closing
caller_of posting = Lifecycle.closing
caller_of marking = Lifecycle.closing
caller_of _ = Lifecycle.evaluating
