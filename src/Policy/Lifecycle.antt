-- ===== src/Policy/Lifecycle.antt =====
-- opapywasm/policy.py, `evaluate_raw`, `_enter_eval`, `_exit_eval` and `close`: the count of running
-- evaluations, which decides who stops the shared epoch ticker. Each step is one block under the
-- lifecycle lock, one check of the pool, or one call of `close` on the pool or the factory.
use opa_py_wasm.Base.{
  ℕ, ◌+◌, ◌-◌, ◌≡◌, Bool, true, false, ◌&&◌, some, List, ◌==◌, get_elem?, set, replicate,
}

pub record Life : Type 0 where
  pub pool_closed : Bool
  pub closed : Bool
  pub active : ℕ
  pub stopped : Bool

abbrev pub new_life : Life
new_life = record { pool_closed = false; closed = false; active = 0; stopped = false }

-- Where a caller stands in `evaluate_raw` or in `close`.
pub data Caller : Type 0 where
  away : Caller
  entered : Caller
  evaluating : Caller
  leaving : Caller
  stopping : Caller
  closing : Caller

-- _enter_eval
unfoldable pub enter_eval : Life → Life
enter_eval l = record l { active = l.active + 1 }

-- _exit_eval: the count, and whether the caller is to stop the ticker.
unfoldable pub exit_eval : Life → Life × Bool
exit_eval l = (record l { active = l.active - 1 }, l.closed && (l.active - 1 == 0))

-- The block of `close` under the lock.
unfoldable pub mark_closed : Life → Life × Bool
mark_closed l = (record l { closed = true }, l.active == 0)

-- `factory.close()`, which stops the ticker for good.
unfoldable pub stop_ticker : Life → Life
stop_ticker l = record l { stopped = true }

abbrev pub stops : Bool → Caller
stops true = stopping
stops false = away

-- The pool admits an evaluation unless it is closed; one that it admitted may have to wait, and may
-- end in any way.
pub data Turn : Life → Caller → Life → Caller → Type 0 where
  enter : {l : Life} → Turn l away (enter_eval l) entered
  admit : {l : Life} → l.pool_closed ≡ false → Turn l entered l evaluating
  refuse : {l : Life} → l.pool_closed ≡ true → Turn l entered l leaving
  finish : {l : Life} → Turn l evaluating l leaving
  exit : {l : Life} → Turn l leaving (exit_eval l).0 (stops (exit_eval l).1)
  stop : {l : Life} → Turn l stopping (stop_ticker l) away
  close_pool : {l : Life} → Turn l away (record l { pool_closed = true }) closing
  mark : {l : Life} → Turn l closing (mark_closed l).0 (stops (mark_closed l).1)

pub record Scene : Type 0 where
  pub life : Life
  pub callers : List Caller

pub data Act (s : Scene) : Scene → Type 0 where
  turn :
      {l : Life} {a b : Caller} (i : ℕ)
      → get_elem? s.callers i ≡ some a
      → Turn s.life a l b
      → Act s (record { life = l; callers = set s.callers i b })

-- What some interleaving of `n` callers reaches.
pub data Reaches (n : ℕ) : Scene → Type 0 where
  begin : Reaches n (record { life = new_life; callers = replicate n away })
  then' : {s t : Scene} → Reaches n s → Act s t → Reaches n t
