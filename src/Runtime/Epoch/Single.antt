-- ===== src/Runtime/Epoch/Single.antt =====
-- One ticker thread at most, and none once the ticker is stopped.
use opa_py_wasm.Base.{ℕ, ◌+◌, ◌≤◌, ◌≡◌, refl, Bool, true, false, arith, set, replicate}
use opa_py_wasm.Pool.Weights.{sum_of, sum_of-set, le-sum_of, sum_of-replicate, sum_of_mono}
use opa_py_wasm.Runtime.Epoch.{
  Ticker, new_ticker, Caller, away, ensuring, starting, stopping, joining, is_needless,
  start_thread, take_thread, joins, Turn, ensure, skip, pass, start, start_fails, set_stop, take,
  join, Round, time_out, tick, exit, Scene, Act, turn, round, Reaches, begin, then',
}

-- Callers inside the lock.
abbrev pub inside : Caller → ℕ
inside ensuring = 1
inside starting = 1
inside _ = 0

-- Callers past the test.
abbrev pub about_to_start : Caller → ℕ
about_to_start starting = 1
about_to_start _ = 0

-- Callers in `close`, before its block.
abbrev pub in_close : Caller → ℕ
in_close stopping = 1
in_close _ = 0

about≤inside : (c : Caller) → about_to_start c ≤ inside c
about≤inside away = omega arith
about≤inside ensuring = omega arith
about≤inside starting = omega arith
about≤inside stopping = omega arith
about≤inside joining = omega arith

abbrev bit : Bool → ℕ
bit true = 1
bit false = 0

joins_weights :
    (b : Bool) → (inside (joins b) ≡ 0) × (about_to_start (joins b) ≡ 0) × (in_close (joins b) ≡ 0)
joins_weights true = (refl, refl, refl)
joins_weights false = (refl, refl, refl)

-- With `i` callers inside the lock, `p` of them past the test, and `c` in `close`.
record Fits (t : Ticker) (i p c : ℕ) : Type 0 where
  lock : i ≡ bit t.held
  within : p ≤ i
  -- a thread that was started is still recorded, unless the ticker was stopped
  recorded : t.started ≤ bit t.has_thread + bit t.stop
  single : t.started + p ≤ 1
  alive : t.running ≤ t.started
  waiting : t.due ≤ t.running
  closers : t.stop ≡ false → c ≡ 0

module _ (i p c i' p' c' : ℕ) where
  Turn-Fits :
      {t u : Ticker} {a b : Caller}
      → Turn t a u b
      → Fits t i p c
      → i' + inside a ≡ i + inside b
      → p' + about_to_start a ≡ p + about_to_start b
      → c' + in_close a ≡ c + in_close b
      → inside a ≤ i
      → about_to_start a ≤ p
      → in_close a ≤ c
      → p' ≤ i'
      → Fits u i' p' c'
  unfolding is_needless start_thread take_thread
  Turn-Fits (ensure e) f ei ep ec li lp lc le = ground arith
  Turn-Fits (skip e) f ei ep ec li lp lc le = ground arith
  Turn-Fits (pass e) f ei ep ec li lp lc le = ground arith
  Turn-Fits start f ei ep ec li lp lc le = ground arith
  Turn-Fits start_fails f ei ep ec li lp lc le = ground arith
  Turn-Fits set_stop f ei ep ec li lp lc le = ground arith
  Turn-Fits (take {t} e) f ei ep ec li lp lc le = ground (arith, joins_weights t.has_thread)
  Turn-Fits join f ei ep ec li lp lc le = ground arith

Round-Fits : {t u : Ticker} (i p c : ℕ) → Round t u → Fits t i p c → Fits u i p c
Round-Fits i p c (time_out r e) f = ground arith
Round-Fits i p c (tick r) f = ground arith
Round-Fits i p c (exit w r e) f = ground arith

abbrev Fine : Scene → Type 0
Fine s =
    Fits s.ticker (sum_of inside s.callers) (sum_of about_to_start s.callers)
      (sum_of in_close s.callers)

Act-Fine : {s u : Scene} → Fine s → Act s u → Fine u
Act-Fine {s} h (turn {t} {a} {b} k e m) =
    Turn-Fits _ _ _ _ _ _ m h (sum_of-set inside s.callers k a b e)
      (sum_of-set about_to_start s.callers k a b e) (sum_of-set in_close s.callers k a b e)
      (le-sum_of inside s.callers k a e) (le-sum_of about_to_start s.callers k a e)
      (le-sum_of in_close s.callers k a e)
      (sum_of_mono about_to_start inside about≤inside (set s.callers k b))
Act-Fine h (round r) = Round-Fits _ _ _ r h

begin-Fine : (n : ℕ) → Fine (record { ticker = new_ticker; callers = replicate n away })
begin-Fine n =
    let i = sum_of-replicate inside n away refl in
    let p = sum_of-replicate about_to_start n away refl in
    let c = sum_of-replicate in_close n away refl in ground arith

Reaches-Fine : {n : ℕ} {s : Scene} → Reaches n s → Fine s
Reaches-Fine {n} begin = begin-Fine n
Reaches-Fine (then' r a) = Act-Fine (Reaches-Fine r) a

-- In every interleaving of `ensure_running` and `close`, by any number of callers, starts of threads
-- that fail included: at most one ticker thread is ever started, no more run than were started, and
-- at most one caller is inside the lock.
pub one_ticker :
    {n : ℕ} {s : Scene}
    → Reaches n s
    → (s.ticker.started ≤ 1) × (s.ticker.running ≤ s.ticker.started) × (sum_of inside s.callers ≤ 1)
one_ticker r = let f = Reaches-Fine r in (ground arith, ground arith, ground arith)

-- What a step does to a ticker that was stopped, with `p` callers past the test before and `p'` after.
abbrev Still : Ticker → Ticker → ℕ → Type 0
Still t u p' =
    (u.stop ≡ true)
    × (p' ≡ 0)
    × (u.started ≡ t.started)
    × (u.epoch + u.due ≡ t.epoch + t.due)
    × (u.running ≤ t.running)

Turn-stopped :
    {t u : Ticker} {a b : Caller} (p p' : ℕ)
    → Turn t a u b
    → t.stop ≡ true
    → p ≡ 0
    → p' + about_to_start a ≡ p + about_to_start b
    → about_to_start a ≤ p
    → Still t u p'
unfolding is_needless start_thread take_thread
Turn-stopped p p' (ensure e) h z ep lp = ground arith
Turn-stopped p p' (skip e) h z ep lp = ground arith
Turn-stopped p p' (pass e) h z ep lp = ground arith
Turn-stopped p p' start h z ep lp = ground arith
Turn-stopped p p' start_fails h z ep lp = ground arith
Turn-stopped p p' set_stop h z ep lp = ground arith
Turn-stopped p p' (take {t} e) h z ep lp = ground (arith, joins_weights t.has_thread)
Turn-stopped p p' join h z ep lp = ground arith

Round-stopped : {t u : Ticker} {p : ℕ} → Round t u → t.stop ≡ true → p ≡ 0 → Still t u p
Round-stopped (time_out r e) h z = absurd (ground arith)
Round-stopped (tick r) h z = ground arith
Round-stopped (exit w r e) h z = ground arith

-- In every interleaving: once the ticker is stopped and no caller is past the test of
-- `ensure_running`, no step starts a thread, the epoch advances only by the increments whose wait had
-- timed out before, and the stop is for good.
pub stays_stopped :
    {n : ℕ} {s u : Scene}
    → Reaches n s
    → Act s u
    → s.ticker.stop ≡ true
    → sum_of about_to_start s.callers ≡ 0
    → (u.ticker.stop ≡ true)
      × (sum_of about_to_start u.callers ≡ 0)
      × (u.ticker.started ≡ s.ticker.started)
      × (u.ticker.epoch + u.ticker.due ≡ s.ticker.epoch + s.ticker.due)
      × (u.ticker.running ≤ s.ticker.running)
stays_stopped {s} r (turn {t} {a} {b} k e m) h z =
    Turn-stopped _ (sum_of about_to_start (set s.callers k b)) m h z
      (sum_of-set about_to_start s.callers k a b e) (le-sum_of about_to_start s.callers k a e)
stays_stopped r (round m) h z = Round-stopped m h z

-- A ticker that no thread serves and none is started for, with `p` callers past the test.
abbrev pub IsThreadless : Ticker → ℕ → Type 0
IsThreadless t p = (is_needless t ≡ true) × (t.running ≡ 0) × (p ≡ 0)

module _ (i p c p' : ℕ) where
  Turn-silent :
      {t u : Ticker} {a b : Caller}
      → Turn t a u b
      → Fits t i p c
      → IsThreadless t p
      → p' + about_to_start a ≡ p + about_to_start b
      → about_to_start a ≤ p
      → in_close a ≤ c
      → IsThreadless u p' × (u.epoch ≡ t.epoch)
  unfolding is_needless start_thread take_thread
  Turn-silent (ensure e) f h ep lp lc = ground arith
  Turn-silent (skip e) f h ep lp lc = ground arith
  Turn-silent (pass e) f h ep lp lc = ground arith
  Turn-silent start f h ep lp lc = ground arith
  Turn-silent start_fails f h ep lp lc = ground arith
  Turn-silent set_stop f h ep lp lc = ground arith
  Turn-silent (take {t} e) f h ep lp lc = ground (arith, joins_weights t.has_thread)
  Turn-silent join f h ep lp lc = ground arith

Round-silent :
    {t u : Ticker} (i p c : ℕ)
    → Round t u
    → Fits t i p c
    → IsThreadless t p
    → IsThreadless u p × (u.epoch ≡ t.epoch)
Round-silent i p c (time_out r e) f h = absurd (ground arith)
Round-silent i p c (tick r) f h = absurd (ground arith)
Round-silent i p c (exit w r e) f h = absurd (ground arith)

-- In every interleaving: where no ticker thread runs and none is being started, but one is recorded or
-- the ticker is stopped, every further step leaves it so, and the epoch stands still.
pub stays_silent :
    {n : ℕ} {s u : Scene}
    → Reaches n s
    → Act s u
    → IsThreadless s.ticker (sum_of about_to_start s.callers)
    → IsThreadless u.ticker (sum_of about_to_start u.callers) × (u.ticker.epoch ≡ s.ticker.epoch)
stays_silent {s} r (turn {t} {a} {b} k e m) h =
    Turn-silent _ _ _ _ m (Reaches-Fine r) h (sum_of-set about_to_start s.callers k a b e)
      (le-sum_of about_to_start s.callers k a e) (le-sum_of in_close s.callers k a e)
stays_silent r (round m) h = Round-silent _ _ _ m (Reaches-Fine r) h
