-- ===== src/Tests/Policies.antt =====
-- Instances of what is shown of the policy, the registry of builtins and the runtime.
use opa_py_wasm.Base.{
  ℕ, ◌≡◌, refl, subst, Bool, true, false, none, some, [], ◌∷◌, arith, ◌==◌, if◌then◌else◌,
}
use opa_py_wasm.Base.Dict.{Dict}
use opa_py_wasm.Base.Int.{ℤ, pos}
use opa_py_wasm.Errors.{fresh, trap, opa, policy_closed}
use opa_py_wasm.Result.{ok, raised, then_result, ◌>>=◌}
use opa_py_wasm.Types.{
  Bytes, Value, null, int, bytes, list, dict, no_items, item, end, field, by_name, default_config,
}
use opa_py_wasm.Runtime.Instantiate.{
  Attempt, done, overflow, Ended, instantiation_ceiling, instantiate, instantiate-Ended,
}
use opa_py_wasm.Instance
use opa_py_wasm.Instance.{Callable}
use opa_py_wasm.Builtins.{Registry, init, view, snapshot, registering, unregistering, run}
use opa_py_wasm.Builtins.Snapshots.{snapshot_stable}
use opa_py_wasm.Policy.{DataState, serialise_data, set_data, refresh_if_stale, simplify_result}
use opa_py_wasm.Policy.Decisions.{IsDecision, simplify_result-IsDecision}
use opa_py_wasm.Policy.Snapshot.{JsonLaws, set_data-refresh}
use opa_py_wasm.Policy.Registration.{register_builtin}
use opa_py_wasm.Policy.Serve.{evaluate_on, loads_or_refuses, Outcome, IsServed, evaluate_on-Outcome}
use opa_py_wasm.Policy.Lifecycle.{
  Life, Caller, away, enter_eval, exit_eval, mark_closed, stop_ticker, enter, admit, finish, exit,
  stop, close_pool, mark, Scene, turn, Reaches, begin, then',
}
use opa_py_wasm.Pool.Weights.{sum_of}
use opa_py_wasm.Policy.Ticker.{running, ticker_outlives, ticker_stops}
use opa_py_wasm.Tests.Guest.{toy_host, toy, toy_HeapLaws, toy_instance}

abbrev old_state : DataState
old_state = record { document = none; version = 3; closed = false }

abbrev new_state : DataState
new_state = record { document = some (55 ∷ []); version = 4; closed = false }

accepts : set_data toy_host default_config (int (pos 7)) old_state ≡ (ok tt, new_state)
unfolding set_data serialise_data ◌>>=◌
accepts = refl

set_data-refresh_example :
    (serialise_data toy_host default_config (int (pos 7)) ≡ ok (some (55 ∷ [])))
    × (refresh_if_stale toy_host toy default_config new_state toy_instance
        ≡ Instance.reload_data toy_host toy default_config (bytes (55 ∷ [])) 4 toy_instance)
set_data-refresh_example =
    set_data-refresh toy_host default_config toy (int (pos 7)) old_state new_state toy_instance
      accepts (omega arith)

read_back :
    (value : Value) (raw : Bytes)
    → then_result (toy_host.dumps value) toy_host.encode ≡ ok raw
    → (v : Value) × (toy_host.loads raw ≡ ok v)
read_back value raw h =
    let same : 55 ∷ [] ≡ raw = cc h in
    subst (λ r. (v : Value) × (toy_host.loads r ≡ ok v)) same (int (pos 55), refl)

abbrev toy_JsonLaws : JsonLaws toy_host
toy_JsonLaws = record { reads_back = read_back }

serialised_seven : serialise_data toy_host default_config (int (pos 7)) ≡ ok (some (55 ∷ []))
unfolding serialise_data
serialised_seven = refl

abbrev two_entrypoints : Dict ℤ
two_entrypoints = ("a/allow", pos 0) ∷ ("b/deny", pos 4) ∷ []

abbrev one_result : Value
one_result = list (item (dict (field "result" (int (pos 1)) end)) no_items)

simplify_result-IsDecision_example :
    IsDecision default_config one_result (simplify_result default_config one_result)
simplify_result-IsDecision_example = simplify_result-IsDecision default_config one_result

abbrev first_registry : Registry
first_registry = init (("f", λ args. ok null) ∷ [])

abbrev replaced : Callable
replaced = λ args. raised (fresh trap)

snapshot_stable_example :
    view 0 (run (registering "f" (some replaced) true ∷ unregistering "f" ∷ []) first_registry)
    ≡ view 0 first_registry
unfolding snapshot init
snapshot_stable_example =
    snapshot_stable first_registry (registering "f" (some replaced) true ∷ unregistering "f" ∷ [])
      (omega arith)

-- A module whose data needs five pages.
abbrev five_pages : ℕ → Attempt
five_pages n =
    if n == 2 then overflow (fresh trap) else if n == 4 then overflow (fresh trap) else done

instantiate-Ended_example : Ended five_pages 6 (instantiate five_pages (some (pos 6)))
unfolding instantiation_ceiling
instantiate-Ended_example = instantiate-Ended five_pages (some (pos 6)) refl

abbrev life : Bool → Bool → ℕ → Bool → Life
life pool_closed closed active stopped = record {
  pool_closed = pool_closed;
  closed = closed;
  active = active;
  stopped = stopped;
}

abbrev scene : Life → Caller → Caller → Scene
scene l a b = record { life = l; callers = a ∷ b ∷ [] }

-- `close` comes while an evaluation runs, which then is the one to stop the ticker.
run_stopped : Reaches 2 (scene (life true true 0 true) away away)
unfolding enter_eval exit_eval mark_closed stop_ticker
run_stopped =
    then'
      (then'
        (then'
          (then'
            (then' (then' (then' begin (turn 0 refl enter)) (turn 0 refl (admit refl)))
              (turn 1 refl close_pool))
            (turn 1 refl mark))
          (turn 0 refl finish))
        (turn 0 refl exit))
      (turn 0 refl stop)

ticker_outlives_example : sum_of running (away ∷ away ∷ []) ≡ 0
ticker_outlives_example = ticker_outlives run_stopped refl

ticker_stops_example : true ≡ true
unfolding sum_of
ticker_stops_example = ticker_stops run_stopped refl refl refl

evaluate_on-Outcome_example :
    let (o, j) =
      evaluate_on toy_host toy default_config two_entrypoints new_state
        (int (pos 7))
        (some (by_name "b/deny"))
        toy_instance in
    Outcome toy
      (loads_or_refuses toy_host toy default_config toy_HeapLaws new_state
        (int (pos 7))
        toy_instance)
      (λ _ k. IsServed toy_host toy default_config toy_HeapLaws 4 k)
      o
      j
evaluate_on-Outcome_example =
    evaluate_on-Outcome toy_host toy default_config toy_HeapLaws two_entrypoints new_state
      (int (pos 7)) (some (by_name "b/deny")) toy_instance

-- A closed policy takes no registration.
registered_late :
    register_builtin true "f" (some replaced) true first_registry
    ≡ (raised (fresh (opa policy_closed)), first_registry)
unfolding register_builtin ◌>>=◌
registered_late = refl
