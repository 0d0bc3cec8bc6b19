-- ===== src/Pool.antt =====
-- opapywasm/pool.py, `OpaInstancePool`: the idle queue, and the threads that borrow, release and
-- close. A step is one atomic action of a thread: an event read or set, a `get` or a `put_nowait` of
-- the queue, a call of the factory, the close of an instance. Threads interleave in any order.
pub mod Weights
pub mod Ownership
pub mod Steps
pub mod Invariant
pub mod Safety
pub mod Accounted
pub mod Progress
use opa_py_wasm.Base.{
  ℕ, zero, suc, ◌+◌, ◌<◌, ◌≡◌, Bool, true, false, not, ◌||◌, Option, none, some, List, [], ◌∷◌,
  ◌++◌, ltb, if◌then◌else◌, length, get_elem?, set, replicate,
}

-- `None`, an instance (by its number, in the order of creation), or the close sentinel.
pub data Slot : Type 0 where
  placeholder : Slot
  live : ℕ → Slot
  sentinel : Slot

-- The pool's fields. `next_instance` numbers what the factory builds, and `freed` lists the
-- instances whose native resources `_close_instance` has released.
pub record Pool : Type 0 where
  pub max_size : ℕ
  pub idle : List Slot
  pub closed : Bool
  pub created : ℕ
  pub recreated : ℕ
  pub next_instance : ℕ
  pub freed : List ℕ

-- OpaInstancePool.__init__; a size below 1 raises ValueError.
unfoldable pub init : ℕ → Option Pool
init zero = none
init (suc n) = some (record {
  max_size = suc n;
  idle = replicate (suc n) placeholder;
  closed = false;
  created = 0;
  recreated = 0;
  next_instance = 0;
  freed = [];
})

-- `put_nowait`, with the `queue.Full` that `_put_slot` and `_put_wake_sentinel` drop.
unfoldable pub put_nowait : Slot → Pool → Pool
put_nowait slot p =
    if ltb (length p.idle) p.max_size then record p { idle = p.idle ++ slot ∷ [] } else p

-- `_close_instance`, where the slot holds one.
unfoldable pub free_slot : Slot → Pool → Pool
free_slot (live i) p = record p { freed = i ∷ p.freed }
free_slot _ p = p

abbrev pub is_sentinel : Slot → Bool
is_sentinel sentinel = true
is_sentinel _ = false

-- `_take_slot` fails closed on the sentinel, and on any slot that is drawn once the pool is closed.
unfoldable pub fails_closed : Bool → Slot → Bool
fails_closed closed slot = is_sentinel slot || closed

-- `_create_instance`
unfoldable pub create_instance : Pool → Pool
create_instance p = record p { created = p.created + 1; next_instance = suc p.next_instance }

-- PolicyLoan, which `borrow` makes once the refresh has returned.
pub record Loan : Type 0 where
  pub number : ℕ
  pub discarded : Bool

abbrev pub new_loan : ℕ → Loan
new_loan i = record { number = i; discarded = false }

abbrev pub discard_loan : Loan → Loan
discard_loan loan = record loan { discarded = true }

-- (loan is not None and loan.discarded) or instance.poisoned
abbrev pub is_bad : Option Loan → Bool → Bool
is_bad none poisoned = poisoned
is_bad (some loan) poisoned = loan.discarded || poisoned

-- `_release`: an instance is replaced if the pool is closed, or it was discarded or is poisoned.
unfoldable pub discards : Bool → Bool → Bool
discards closed bad = closed || bad

-- The count of replacements, which leaves out those of a closed pool.
unfoldable pub count_recreated : Bool → Pool → Pool
count_recreated closed p = if closed then p else record p { recreated = p.recreated + 1 }

-- Where a thread stands: in `borrow` and `_release`, or in `close`.
pub data Thread : Type 0 where
  outside : Thread
  waiting : Thread
  took : Slot → Thread
  refusing : Thread
  building : Thread
  holding : ℕ → Thread
  releasing_none : Thread
  releasing : ℕ → Bool → Thread
  returning : ℕ → Thread
  replacing : ℕ → Thread
  closing : ℕ → Thread
  draining : Thread
  posting : Thread

-- Where `_take_slot` leaves a thread that drew a slot of an open pool.
abbrev pub drawn : Slot → Thread
drawn placeholder = building
drawn (live i) = holding i
drawn sentinel = refusing

-- The atomic steps of one thread.
pub data Move : Pool → Thread → Pool → Thread → Type 0 where
  -- borrow: the first read of the event
  enter : {p : Pool} → p.closed ≡ false → Move p outside p waiting
  -- _take_slot: `get` draws a slot, or times out on an empty queue
  get :
      {p : Pool} {slot : Slot} {rest : List Slot}
      → p.idle ≡ slot ∷ rest
      → Move p waiting (record p { idle = rest }) (took slot)
  time_out : {p : Pool} → p.idle ≡ [] → Move p waiting p outside
  -- _take_slot: the second read of the event
  pass :
      {p : Pool} (slot : Slot)
      → fails_closed p.closed slot ≡ false
      → Move p (took slot) p (drawn slot)
  refuse :
      {p : Pool} (slot : Slot)
      → fails_closed p.closed slot ≡ true
      → Move p (took slot) (free_slot slot p) refusing
  wake : {p : Pool} → Move p refusing (put_nowait sentinel p) outside
  -- the factory
  build : {p : Pool} → Move p building (create_instance p) (holding p.next_instance)
  build_fails : {p : Pool} → Move p building p releasing_none
  -- the end of the `with` block, however it ends, or a refresh that raised before there was a loan
  finish :
      {p : Pool} {i : ℕ} (loan : Option Loan) (poisoned : Bool)
      → Move p (holding i) p (releasing i (is_bad loan poisoned))
  -- _release
  restore : {p : Pool} → Move p releasing_none (put_nowait placeholder p) outside
  keep :
      {p : Pool} {i : ℕ} {bad : Bool}
      → discards p.closed bad ≡ false
      → Move p (releasing i bad) p (returning i)
  discard :
      {p : Pool} {i : ℕ} {bad : Bool}
      → discards p.closed bad ≡ true
      → Move p (releasing i bad) (count_recreated p.closed p) (replacing i)
  put_back : {p : Pool} {i : ℕ} → Move p (returning i) (put_nowait (live i) p) outside
  put_placeholder : {p : Pool} {i : ℕ} → Move p (replacing i) (put_nowait placeholder p) (closing i)
  free : {p : Pool} {i : ℕ} → Move p (closing i) (free_slot (live i) p) outside
  -- close
  start_close : {p : Pool} → p.closed ≡ false → Move p outside (record p { closed = true }) draining
  drain :
      {p : Pool} {slot : Slot} {rest : List Slot}
      → p.idle ≡ slot ∷ rest
      → Move p draining (free_slot slot (record p { idle = rest })) draining
  drained : {p : Pool} → p.idle ≡ [] → Move p draining p posting
  post : {p : Pool} → Move p posting (put_nowait sentinel p) outside

pub record System : Type 0 where
  pub pool : Pool
  pub threads : List Thread

pub data Step (s : System) : System → Type 0 where
  pick :
      {p : Pool} {a b : Thread} (i : ℕ)
      → get_elem? s.threads i ≡ some a
      → Move s.pool a p b
      → Step s (record { pool = p; threads = set s.threads i b })

-- Where threads start: outside the pool.
abbrev pub all_outside : ℕ → List Thread
all_outside n = replicate n outside

-- The states that some interleaving of `n` threads reaches from a new pool of the given size.
pub data Reach (size n : ℕ) : System → Type 0 where
  start :
      {p : Pool} → init size ≡ some p → Reach size n (record { pool = p; threads = all_outside n })
  next : {s t : System} → Reach size n s → Step s t → Reach size n t
