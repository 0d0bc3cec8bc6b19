-- ===== src/Tests/Threads.antt =====
-- Interleavings of two threads on a pool of one instance.
use opa_py_wasm.Base.{ℕ, ◌+◌, ◌≤◌, ◌≡◌, refl, arith, Bool, true, false, some, List, [], ◌∷◌}
use opa_py_wasm.Pool.{
  Slot, placeholder, live, sentinel, Pool, init, put_nowait, free_slot, fails_closed,
  create_instance, discards, count_recreated, Thread, new_loan, discard_loan, outside, holding,
  releasing, draining, enter, get, pass, build, finish, keep, discard, put_back, put_placeholder,
  free, start_close, drain, drained, post, System, Step, pick, Reach, start, next,
}
use opa_py_wasm.Pool.Weights.{sum_of, has_slot, in_use, one_if, owns}
use opa_py_wasm.Pool.Ownership.{known, placed}
use opa_py_wasm.Pool.Accounted.{none_lost}
use opa_py_wasm.Pool.Progress.{SomeAdvances, no_deadlock}
use opa_py_wasm.Pool.Safety.{
  exclusive_loan, freed_once, slots_conserved, at_most_size, no_loan_after_close,
}

abbrev a_pool : List Slot → Bool → ℕ → Pool
a_pool idle closed built = record {
  max_size = 1;
  idle = idle;
  closed = closed;
  created = built;
  recreated = 0;
  next_instance = built;
  freed = [];
}

abbrev a_system : Pool → Thread → Thread → System
a_system pool a b = record { pool = pool; threads = a ∷ b ∷ [] }

run_start : Reach 1 2 (a_system (a_pool (placeholder ∷ []) false 0) outside outside)
unfolding init
run_start = start refl

-- The first thread borrows: it draws the placeholder and builds the instance.
run_holding : Reach 1 2 (a_system (a_pool [] false 1) (holding 0) outside)
unfolding create_instance fails_closed
run_holding =
    next
      (next (next (next run_start (pick 0 refl (enter refl))) (pick 0 refl (get refl)))
        (pick 0 refl (pass placeholder refl)))
      (pick 0 refl build)

-- The second thread closes the pool meanwhile.
closes :
    Step
      (a_system (a_pool [] false 1) (holding 0) outside)
      (a_system (a_pool [] true 1) (holding 0) draining)
closes = pick 1 refl (start_close refl)

-- The first thread finds the pool closed when it releases, and frees the instance.
run_freed :
    Reach 1 2
      (a_system (record (a_pool (placeholder ∷ []) true 1) { freed = 0 ∷ [] }) outside draining)
unfolding discards count_recreated put_nowait free_slot
run_freed =
    next
      (next
        (next (next (next run_holding closes) (pick 0 refl (finish (some (new_loan 0)) false)))
          (pick 0 refl (discard refl)))
        (pick 0 refl put_placeholder))
      (pick 0 refl free)

-- A loan that its caller discards: the instance is replaced and freed.
run_discarded : Reach 1 2 (
    a_system
      (record (a_pool (placeholder ∷ []) false 1) { recreated = 1; freed = 0 ∷ [] })
      outside
      outside)
unfolding discards count_recreated put_nowait free_slot
run_discarded =
    next
      (next
        (next (next run_holding (pick 0 refl (finish (some (discard_loan (new_loan 0))) false)))
          (pick 0 refl (discard refl)))
        (pick 0 refl put_placeholder))
      (pick 0 refl free)

-- A pool that is closed while no one borrows: the sentinel stays for whoever waits.
run_closed : Reach 1 2 (a_system (a_pool (sentinel ∷ []) true 0) outside outside)
unfolding free_slot put_nowait
run_closed =
    next
      (next (next (next run_start (pick 1 refl (start_close refl))) (pick 1 refl (drain refl)))
        (pick 1 refl (drained refl)))
      (pick 1 refl post)

-- A release that read the event before `close` set it, and puts its instance back after the drain:
-- the pool is closed, no thread is left, and the instance is in the queue and never freed.
run_leaked : Reach 1 2 (a_system (a_pool (live 0 ∷ []) true 1) outside outside)
unfolding discards put_nowait
run_leaked =
    next
      (next
        (next
          (next
            (next (next run_holding (pick 0 refl (finish (some (new_loan 0)) false)))
              (pick 0 refl (keep refl)))
            (pick 1 refl (start_close refl)))
          (pick 1 refl (drained refl)))
        (pick 0 refl put_back))
      (pick 1 refl post)

abbrev the_first : ℕ
the_first = 0

exclusive_loan_example : (the_first ≡ the_first) × (placed 0 (a_pool [] false 1) ≡ 0)
exclusive_loan_example =
    exclusive_loan run_holding 0 0 0 (holding 0) (holding 0) refl refl (omega arith) (omega arith)

freed_once_example :
    (sum_of (one_if 0) (0 ∷ []) ≡ 1)
    × (placed 0 (record (a_pool (placeholder ∷ []) true 1) { freed = 0 ∷ [] }) ≡ 1)
    × (sum_of (owns 0) (outside ∷ draining ∷ []) ≡ 0)
unfolding sum_of
freed_once_example = freed_once run_freed 0 (omega arith)

slots_conserved_example : 0 + sum_of has_slot (holding 0 ∷ outside ∷ []) ≡ 1
slots_conserved_example = slots_conserved run_holding refl

at_most_size_example : (sum_of in_use (holding 0 ∷ outside ∷ []) ≤ 1) × (0 ≤ 1)
at_most_size_example = at_most_size run_holding

none_lost_example :
    placed 0 (a_pool [] false 1) + sum_of (owns 0) (holding 0 ∷ outside ∷ []) ≡ known 0 1
none_lost_example = none_lost run_holding refl 0

no_loan_after_close_example :
    (true ≡ true)
    × (sum_of in_use (releasing 0 false ∷ draining ∷ [])
        ≤ sum_of in_use (holding 0 ∷ draining ∷ []))
no_loan_after_close_example =
    no_loan_after_close (next run_holding closes) (pick 0 refl (finish (some (new_loan 0)) false))
      refl

no_deadlock_example : SomeAdvances (a_system (a_pool [] false 1) (holding 0) outside)
no_deadlock_example = no_deadlock run_holding 0 (holding 0) refl refl
