-- ===== src/Policy/Ticker.antt =====
-- The epoch ticker runs as long as an evaluation may need it, and not longer.
use opa_py_wasm.Base.{ℕ, ◌+◌, ◌≤◌, ◌≡◌, refl, Bool, true, false, arith, set, replicate}
use opa_py_wasm.Pool.Weights.{sum_of, sum_of-set, le-sum_of, sum_of-replicate, sum_of_mono}
use opa_py_wasm.Policy.Lifecycle.{
  Life, new_life, Caller, away, entered, evaluating, leaving, stopping, closing, enter_eval,
  exit_eval, mark_closed, stop_ticker, Turn, enter, admit, refuse, finish, exit, stop, close_pool,
  mark, Scene, Act, turn, Reaches, begin, then',
}

-- Callers that `active` counts.
abbrev pub counted : Caller → ℕ
counted entered = 1
counted evaluating = 1
counted leaving = 1
counted _ = 0

-- Callers past the pool's check.
abbrev pub running : Caller → ℕ
running evaluating = 1
running _ = 0

-- Callers that are about to stop the ticker.
abbrev pub about_to_stop : Caller → ℕ
about_to_stop stopping = 1
about_to_stop _ = 0

abbrev in_close : Caller → ℕ
in_close closing = 1
in_close _ = 0

abbrev bit : Bool → ℕ
bit true = 1
bit false = 0

running≤counted : (c : Caller) → running c ≤ counted c
running≤counted away = omega arith
running≤counted entered = omega arith
running≤counted evaluating = omega arith
running≤counted leaving = omega arith
running≤counted stopping = omega arith
running≤counted closing = omega arith

-- What holds of the policy, with `c` callers counted, `r` running, `h` about to stop the ticker and
-- `x` inside `close`.
record Fits (l : Life) (c r h x : ℕ) : Type 0 where
  count : l.active ≡ c
  within : r ≤ c
  before_close : l.pool_closed ≡ false → bit l.closed + bit l.stopped + h + x ≡ 0
  needed : 1 ≤ bit l.stopped + h → r ≡ 0
  due : l.closed ≡ true → l.active ≡ 0 → 1 ≤ bit l.stopped + h

Turn-Fits :
    {l m : Life} {a b : Caller} (c r h x c' r' h' x' : ℕ)
    → Turn l a m b
    → Fits l c r h x
    → c' + counted a ≡ c + counted b
    → r' + running a ≡ r + running b
    → h' + about_to_stop a ≡ h + about_to_stop b
    → x' + in_close a ≡ x + in_close b
    → counted a ≤ c
    → running a ≤ r
    → about_to_stop a ≤ h
    → in_close a ≤ x
    → r' ≤ c'
    → Fits m c' r' h' x'
unfolding enter_eval exit_eval mark_closed stop_ticker
Turn-Fits c r h x c' r' h' x' enter f ec er eh ex lc lr lh lx le = ground arith
Turn-Fits c r h x c' r' h' x' (admit o) f ec er eh ex lc lr lh lx le = ground arith
Turn-Fits c r h x c' r' h' x' (refuse o) f ec er eh ex lc lr lh lx le = ground arith
Turn-Fits c r h x c' r' h' x' finish f ec er eh ex lc lr lh lx le = ground arith
Turn-Fits c r h x c' r' h' x' exit f ec er eh ex lc lr lh lx le = ground arith
Turn-Fits c r h x c' r' h' x' stop f ec er eh ex lc lr lh lx le = ground arith
Turn-Fits c r h x c' r' h' x' close_pool f ec er eh ex lc lr lh lx le = ground arith
Turn-Fits c r h x c' r' h' x' mark f ec er eh ex lc lr lh lx le = ground arith

abbrev Fine : Scene → Type 0
Fine s =
    Fits s.life (sum_of counted s.callers) (sum_of running s.callers)
      (sum_of about_to_stop s.callers) (sum_of in_close s.callers)

Act-Fine : {s t : Scene} → Fine s → Act s t → Fine t
Act-Fine {s} h (turn {l} {a} {b} i e m) =
    Turn-Fits _ _ _ _ _ _ _ _ m h (sum_of-set counted s.callers i a b e)
      (sum_of-set running s.callers i a b e) (sum_of-set about_to_stop s.callers i a b e)
      (sum_of-set in_close s.callers i a b e) (le-sum_of counted s.callers i a e)
      (le-sum_of running s.callers i a e) (le-sum_of about_to_stop s.callers i a e)
      (le-sum_of in_close s.callers i a e)
      (sum_of_mono running counted running≤counted (set s.callers i b))

begin-Fine : (n : ℕ) → Fine (record { life = new_life; callers = replicate n away })
begin-Fine n =
    let c = sum_of-replicate counted n away refl in
    let r = sum_of-replicate running n away refl in
    let h = sum_of-replicate about_to_stop n away refl in
    let x = sum_of-replicate in_close n away refl in ground arith

Reaches-Fine : {n : ℕ} {s : Scene} → Reaches n s → Fine s
Reaches-Fine {n} begin = begin-Fine n
Reaches-Fine (then' r a) = Act-Fine (Reaches-Fine r) a

-- In every interleaving of evaluations and of `close`: once the epoch ticker is stopped, no
-- evaluation that the pool admitted is still running, so that none loses its deadline.
pub ticker_outlives :
    {n : ℕ} {s : Scene} → Reaches n s → s.life.stopped ≡ true → sum_of running s.callers ≡ 0
ticker_outlives r h = let f = Reaches-Fine r in ground arith

-- In every interleaving: once the policy is closed and no caller is left inside `evaluate_raw`, the
-- ticker is stopped, or a caller is about to stop it: the thread is not leaked.
pub ticker_stops :
    {n : ℕ} {s : Scene}
    → Reaches n s
    → s.life.closed ≡ true
    → sum_of counted s.callers ≡ 0
    → sum_of about_to_stop s.callers ≡ 0
    → s.life.stopped ≡ true
ticker_stops r c h w = let f = Reaches-Fine r in ground arith
