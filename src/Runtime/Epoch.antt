-- ===== src/Runtime/Epoch.antt =====
-- opapywasm/runtime.py, `EpochTicker`: the thread that advances the engine's epoch, and the threads
-- that start and stop it. A step is one action under the lock, one access of the stop event, or, in a
-- ticker thread, the end of one wait or one increment of the epoch.
pub mod Single
use opa_py_wasm.Base.{
  ℕ, suc, ◌≤◌, ◌+◌, ◌-◌, ◌≡◌, Bool, true, false, ◌||◌, Option, some, List, if◌then◌else◌, get_elem?,
  set, replicate,
}

-- `stop` is the event, `held` the lock and `has_thread` whether `_thread` is set. `started` and
-- `running` count ticker threads, `due` those whose wait has timed out and that are to increment the
-- epoch, and `epoch` the increments of the engine.
pub record Ticker : Type 0 where
  pub stop : Bool
  pub held : Bool
  pub has_thread : Bool
  pub started : ℕ
  pub running : ℕ
  pub due : ℕ
  pub epoch : ℕ

-- EpochTicker.__init__
abbrev pub new_ticker : Ticker
new_ticker = record {
  stop = false;
  held = false;
  has_thread = false;
  started = 0;
  running = 0;
  due = 0;
  epoch = 0;
}

-- Where a caller stands: in `ensure_running` with the lock, past its test, or in `close`.
pub data Caller : Type 0 where
  away : Caller
  ensuring : Caller
  starting : Caller
  stopping : Caller
  joining : Caller

-- The test of `ensure_running`.
unfoldable pub is_needless : Ticker → Bool
is_needless t = t.has_thread || t.stop

unfoldable pub start_thread : Ticker → Ticker
start_thread t = record t {
  held = false;
  has_thread = true;
  started = t.started + 1;
  running = t.running + 1;
}

-- The block of `close` under the lock.
unfoldable pub take_thread : Ticker → Ticker
take_thread t = record t { has_thread = false }

-- After the block: `thread.join`, if there was a thread.
abbrev pub joins : Bool → Caller
joins true = joining
joins false = away

pub data Turn : Ticker → Caller → Ticker → Caller → Type 0 where
  -- ensure_running
  ensure : {t : Ticker} → t.held ≡ false → Turn t away (record t { held = true }) ensuring
  skip : {t : Ticker} → is_needless t ≡ true → Turn t ensuring (record t { held = false }) away
  pass : {t : Ticker} → is_needless t ≡ false → Turn t ensuring t starting
  start : {t : Ticker} → Turn t starting (start_thread t) away
  -- `Thread.start` raises: `_thread` is set all the same, and the lock is released
  start_fails : {t : Ticker} → Turn t starting (record t { held = false; has_thread = true }) away
  -- close
  set_stop : {t : Ticker} → Turn t away (record t { stop = true }) stopping
  take : {t : Ticker} → t.held ≡ false → Turn t stopping (take_thread t) (joins t.has_thread)
  -- `join` returns when the thread has ended, or after a second, or raises if it never started
  join : {t : Ticker} → Turn t joining t away

-- What a ticker thread does: its wait times out, it increments the epoch, or its wait finds the event
-- set and it ends.
pub data Round : Ticker → Ticker → Type 0 where
  time_out :
      {t : Ticker} → suc t.due ≤ t.running → t.stop ≡ false → Round t (record t { due = t.due + 1 })
  tick : {t : Ticker} {n : ℕ} → t.due ≡ suc n → Round t (record t { due = n; epoch = t.epoch + 1 })
  exit :
      {t : Ticker} {n : ℕ}
      → suc t.due ≤ t.running
      → t.running ≡ suc n
      → t.stop ≡ true
      → Round t (record t { running = n })

pub record Scene : Type 0 where
  pub ticker : Ticker
  pub callers : List Caller

pub data Act (s : Scene) : Scene → Type 0 where
  turn :
      {t : Ticker} {a b : Caller} (k : ℕ)
      → get_elem? s.callers k ≡ some a
      → Turn s.ticker a t b
      → Act s (record { ticker = t; callers = set s.callers k b })
  round : {t : Ticker} → Round s.ticker t → Act s (record { ticker = t; callers = s.callers })

-- What some interleaving of `n` callers and of the ticker threads reaches.
pub data Reaches (n : ℕ) : Scene → Type 0 where
  begin : Reaches n (record { ticker = new_ticker; callers = replicate n away })
  then' : {s u : Scene} → Reaches n s → Act s u → Reaches n u
