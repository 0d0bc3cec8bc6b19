-- ===== src/Tests/Hosts.antt =====
-- Runs of the host's side: the Stores, the ticker and the callbacks.
use opa_py_wasm.Base.{
  str_eq, ℕ, ◌+◌, ◌≤◌, ◌≡◌, refl, Bool, true, false, none, some, List, [], ◌∷◌, arith, ◌==◌,
  if◌then◌else◌,
}
use opa_py_wasm.Base.Int.{pos}
use opa_py_wasm.Errors.{Exn, fresh, kind_of, trap, other, opa, builtin}
use opa_py_wasm.Result.{ok, raised, ◌>>=◌}
use opa_py_wasm.Base.Dict.{get}
use opa_py_wasm.Types.{int, default_config}
use opa_py_wasm.Runtime
use opa_py_wasm.Runtime.{Runtime}
use opa_py_wasm.Abi
use opa_py_wasm.Memory
use opa_py_wasm.Data
use opa_py_wasm.Instance.{settings_of}
use opa_py_wasm.Evaluator
use opa_py_wasm.Evaluator.{Session, Settings, encoded, run_guest}
use opa_py_wasm.Evaluator.Wrapped.{SaysSame, wrapped, evaluate-wrapped}
use opa_py_wasm.Runtime.Instantiate.{Attempt, done, overflow, instantiate}
use opa_py_wasm.Runtime.Factory.{Import, memory_type, other_type}
use opa_py_wasm.Runtime.Stores.{Native, construct}
use opa_py_wasm.Runtime.Stores.Leaks.{WasConstructed, result_of, construct-WasConstructed}
use opa_py_wasm.Runtime.Epoch
use opa_py_wasm.Runtime.Epoch.{Ticker, Caller, away, ensuring, stopping, Scene}
use opa_py_wasm.Runtime.Epoch.Single.{
  inside, about_to_start, one_ticker, stays_stopped, IsThreadless, stays_silent,
}
use opa_py_wasm.Pool.Weights.{sum_of}
use opa_py_wasm.Tests.Guest.{toy_host, toy, toy_guest}

-- A guest whose evaluation calls a builtin that fails, which two other exceptions wrap.
abbrev failing : Exn
failing = wrapped (trap ∷ other ∷ []) (fresh (opa builtin))

abbrev calling : Runtime
calling = record toy {
  call =
      λ name args g. if str_eq name "opa_eval" then (raised failing, g) else toy.call name args g;
}

abbrev a_session : Session calling
a_session = record {
  manager = record {
    store = toy_guest;
    initial_heap_ptr = pos 4;
    data_addr = pos 0;
    data_heap_ptr = pos 4;
  };
  entered_wasm = false;
}

abbrev a_setting : Settings
a_setting = settings_of toy_host default_config

abbrev left_session : Session calling
left_session = (run_guest toy_host calling a_setting (55 ∷ []) (pos 0) a_session).1

fails :
    run_guest toy_host calling a_setting (55 ∷ []) (pos 0) a_session
    ≡ (raised failing, left_session)
unfolding Evaluator.run_guest Evaluator.on_rt Evaluator.on_manager Evaluator.arm_deadline
    Data.reset_heap_to_checkpoint Data.on_store Runtime.set_epoch_deadline Runtime.get_func
    Runtime.get_export Memory.write_bytes Memory.check_pointer Memory.check_range Abi.call
    Abi.opa_malloc Abi.memory_len Abi.memory_write Abi.opa_heap_ptr_get Abi.opa_heap_ptr_set
    Abi.opa_eval get ◌>>=◌
fails = refl

serialises : encoded toy_host calling a_setting (int (pos 7)) ≡ ok (55 ∷ [])
unfolding Memory.encode_input Memory.coerce_to_json_bytes Memory.dumps Memory.check_size
serialises = refl

evaluate-wrapped_example :
    (e' : Exn) × (Evaluator.evaluate toy_host calling a_setting (int (pos 7)) (pos 0) a_session
      ≡ (raised e', left_session))
    × SaysSame e' (fresh (opa builtin))
unfolding kind_of fresh
evaluate-wrapped_example =
    evaluate-wrapped toy_host calling a_setting (trap ∷ other ∷ []) (fresh (opa builtin))
      (int (pos 7)) (pos 0) (55 ∷ []) a_session left_session refl (refl, (refl, tt))
      (refl, (refl, tt)) serialises fails

abbrev some_imports : List Import
some_imports =
    record { namespace = "env"; name = "memory"; type = memory_type }
    ∷ record { namespace = "env"; name = "opa_builtin1"; type = other_type }
    ∷ []

-- A module whose data needs five pages, next to another Store.
abbrev needs_five : ℕ → Attempt
needs_five n =
    if n == 2 then overflow (fresh trap) else if n == 4 then overflow (fresh trap) else done

abbrev one_store : Native
one_store = record { made = 1; live = 0 ∷ []; held = false; mine = none }

construct-WasConstructed_example :
    WasConstructed one_store (construct needs_five (some (pos 6)) one_store)
    × (result_of (construct needs_five (some (pos 6)) one_store)
        ≡ instantiate needs_five (some (pos 6)))
construct-WasConstructed_example =
    construct-WasConstructed needs_five (some (pos 6)) one_store refl (omega arith, tt)

-- A ticker that one caller starts, and the other stops.
abbrev a_ticker : Bool → Bool → Bool → ℕ → ℕ → Ticker
a_ticker stop held has_thread started epoch = record {
  stop = stop;
  held = held;
  has_thread = has_thread;
  started = started;
  running = started;
  due = 0;
  epoch = epoch;
}

abbrev due_ticker : Bool → Ticker
due_ticker stop = record (a_ticker stop false true 1 0) { due = 1 }

abbrev a_scene : Ticker → Caller → Caller → Scene
a_scene t a b = record { ticker = t; callers = a ∷ b ∷ [] }

-- The thread's wait has timed out, and its increment is to come.
run_due : Epoch.Reaches 2 (a_scene (due_ticker false) away away)
unfolding Epoch.is_needless Epoch.start_thread
run_due =
    Epoch.then'
      (Epoch.then'
        (Epoch.then' (Epoch.then' Epoch.begin (Epoch.turn 0 refl (Epoch.ensure refl)))
          (Epoch.turn 0 refl (Epoch.pass refl)))
        (Epoch.turn 0 refl Epoch.start))
      (Epoch.round (Epoch.time_out (omega arith) refl))

run_ticking : Epoch.Reaches 2 (a_scene (a_ticker false false true 1 1) away away)
run_ticking = Epoch.then' run_due (Epoch.round (Epoch.tick refl))

one_ticker_example :
    let s = a_scene (a_ticker false false true 1 1) away away in
    (s.ticker.started ≤ 1) × (s.ticker.running ≤ s.ticker.started) × (sum_of inside s.callers ≤ 1)
one_ticker_example = one_ticker run_ticking

-- The stop comes between the wait and its increment.
run_stopped : Epoch.Reaches 2 (a_scene (due_ticker true) away stopping)
run_stopped = Epoch.then' run_due (Epoch.turn 1 refl Epoch.set_stop)

last_tick :
    Epoch.Act
      (a_scene (due_ticker true) away stopping)
      (a_scene (a_ticker true false true 1 1) away stopping)
last_tick = Epoch.round (Epoch.tick refl)

ends :
    Epoch.Act
      (a_scene (a_ticker true false true 1 1) away stopping)
      (a_scene (record (a_ticker true false true 1 1) { running = 0 }) away stopping)
ends = Epoch.round (Epoch.exit (omega arith) refl refl)

stays_stopped_example :
    let s = a_scene (due_ticker true) away stopping in
    let u = a_scene (a_ticker true false true 1 1) away stopping in
    (u.ticker.stop ≡ true)
    × (sum_of about_to_start u.callers ≡ 0)
    × (u.ticker.started ≡ s.ticker.started)
    × (u.ticker.epoch + u.ticker.due ≡ s.ticker.epoch + s.ticker.due)
    × (u.ticker.running ≤ s.ticker.running)
unfolding sum_of
stays_stopped_example = stays_stopped run_stopped last_tick refl refl

abbrev no_ticks : ℕ
no_ticks = 0

-- A ticker whose thread could not be started, and a caller that asks for it again.
run_failed : Epoch.Reaches 2 (a_scene (a_ticker false false true 0 0) away away)
unfolding Epoch.is_needless
run_failed =
    Epoch.then'
      (Epoch.then' (Epoch.then' Epoch.begin (Epoch.turn 0 refl (Epoch.ensure refl)))
        (Epoch.turn 0 refl (Epoch.pass refl)))
      (Epoch.turn 0 refl Epoch.start_fails)

asks_again :
    Epoch.Act
      (a_scene (a_ticker false false true 0 0) away away)
      (a_scene (a_ticker false true true 0 0) away ensuring)
asks_again = Epoch.turn 1 refl (Epoch.ensure refl)

stays_silent_example :
    IsThreadless (a_ticker false true true 0 0) (sum_of about_to_start (away ∷ ensuring ∷ []))
    × (no_ticks ≡ no_ticks)
unfolding Epoch.is_needless sum_of
stays_silent_example = stays_silent run_failed asks_again (refl, refl, refl)
