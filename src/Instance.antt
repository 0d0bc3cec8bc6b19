-- ===== src/Instance.antt =====
-- opapywasm/instance.py, `OpaPolicyInstance`: what is local to one instance, its construction, the
-- reload of its data, the evaluation and the dispatch of host builtins.
pub mod Poison
pub mod Dispatch
pub mod Construction
pub mod Guest
use opa_py_wasm.Base.{
  ℕ, ◌+◌, ◌/◌, max, String, Bool, true, false, Option, none, some, List, [], ◌∷◌, if◌then◌else◌,
  ◌==◌, ◌&&◌,
}
use opa_py_wasm.Base.Dict.{Dict, get}
use opa_py_wasm.Base.Int.{ℤ, pos, pos_part, neg_part}
use opa_py_wasm.Errors.{Kind, Exn, fresh, kind_of, is_exception, raise_from, opa, builtin}
use opa_py_wasm.Result.{
  Result, ok, raised, then_result, or_handle, Exec, pure, lift, modify, rethrow, throw, handled,
  catch, ◌>>=◌, ◌>>◌,
}
use opa_py_wasm.Types.{Value, Host, PolicyConfig}
use opa_py_wasm.Runtime
use opa_py_wasm.Runtime.{Runtime}
use opa_py_wasm.Abi
use opa_py_wasm.Abi.{OpaAbi, OpaAbiSpec}
use opa_py_wasm.Memory
use opa_py_wasm.Memory.{Limits}
use opa_py_wasm.Data
use opa_py_wasm.Data.{Manager}
use opa_py_wasm.Evaluator
use opa_py_wasm.Evaluator.{Settings, Session}

pub record Instance (rt : Runtime) : Type 0 where
  pub session : Session rt
  pub data_version : ℕ
  pub poisoned : Bool

-- EpochTicker.deadline_ticks: `ceil(seconds / tick_seconds)`, at least 1.
unfoldable pub deadline_ticks : Host → ℤ → ℕ
deadline_ticks host ms = max 1 (pos_part (host.ceil_ticks ms))

abbrev pub ticks_of : Host → Option ℤ → Option ℕ
ticks_of host none = none
ticks_of host (some ms) = some (deadline_ticks host ms)

abbrev pub limits_of : PolicyConfig → Limits
limits_of c = record {
  max_result_bytes = c.max_result_bytes;
  max_cstring_scan_bytes = c.max_cstring_scan_bytes;
}

-- How `__init__` sets the evaluator up, for an instance with an epoch ticker.
abbrev pub settings_of : Host → PolicyConfig → Settings
settings_of host c = record {
  limits = limits_of c;
  max_input_bytes = c.max_input_bytes;
  max_result_bytes = c.max_result_bytes;
  validate_input = c.parse_raw_json_input;
  deadline_ticks = ticks_of host c.eval_timeout_ms;
}

module _ (rt : Runtime) where
  -- Runs on the session inside the instance.
  unfoldable pub on_session {ℓ} : {A : Type ℓ} → Exec (Session rt) A → Exec (Instance rt) A
  on_session m i = let (r, s) = m i.session in (r, record i { session = s })

  unfoldable pub on_manager {ℓ} : {A : Type ℓ} → Exec (Manager rt) A → Exec (Instance rt) A
  unfolding on_session Evaluator.on_manager
  on_manager m = on_session (Evaluator.on_manager rt m)

  abbrev pub poison : Exec (Instance rt) (Unit {0})
  poison = modify λ i. record i { poisoned = true }

  -- The `except Exception` of `reload_data`.
  abbrev pub reload_failed : Exn → Exec (Instance rt) (Unit {0})
  reload_failed e = if is_exception (kind_of e) then (do poison; rethrow e) else rethrow e

  -- The `except Exception` of `evaluate`, which asks the flag that the evaluator's callback sets.
  abbrev pub evaluate_failed : Exn → Exec (Instance rt) Value
  evaluate_failed e i =
      if is_exception (kind_of e) && i.session.entered_wasm
      then (do poison; rethrow e) i
      else rethrow e i

module _ (host : Host) (rt : Runtime) (config : PolicyConfig) where
  unfoldable pub reload_data : Value → ℕ → Exec (Instance rt) (Unit {0})
  reload_data value version = do
    catch (on_manager rt (Data.load_data host rt config.max_data_bytes value)) (reload_failed rt)
    modify (λ i. record i { data_version = version })

  unfoldable pub evaluate : Value → ℤ → Exec (Instance rt) Value
  evaluate input_value entrypoint_id = do
    modify (λ i. record i { session = record i.session { entered_wasm = false } })
    catch
        (on_session rt
          (Evaluator.evaluate host rt (settings_of host config) input_value entrypoint_id))
        (evaluate_failed rt)

-- A registered callable: it gets decoded arguments, and returns a value or raises.
abbrev pub Callable : Type 0
Callable = List Value → Result Value

abbrev eqb_ℤ : ℤ → ℤ → Bool
eqb_ℤ a b = pos_part a == pos_part b && neg_part a == neg_part b

abbrev or_name : Option String → Bool → String → Option String
or_name (some m) same n = some m
or_name none same n = if same then some n else none

-- `{ident: name for name, ident in ...}`, looked up: of two names with one id the later one wins.
unfoldable pub builtin_name : Dict ℤ → ℤ → Option String
builtin_name [] ident = none
builtin_name ((n, i) ∷ d) ident = or_name (builtin_name d ident) (eqb_ℤ i ident) n

abbrev pub is_builtin_error : Kind → Bool
is_builtin_error (opa builtin) = true
is_builtin_error _ = false

-- except OpaBuiltinError: raise; except Exception as exc: raise OpaBuiltinError(...) from exc
unfoldable pub as_builtin_error : Exn → Exn
as_builtin_error e =
    if is_builtin_error (kind_of e)
    then e
    else if is_exception (kind_of e)
    then raise_from (opa builtin) e
    else e

module _ (host : Host) (rt : Runtime) (limits : Limits) where
  unfoldable pub decode_args : List ℤ → Exec rt.State (List Value)
  decode_args [] = pure []
  decode_args (addr ∷ addrs) = do
    arg ← Memory.opa_value_to_python host rt limits addr none
    rest ← decode_args addrs
    pure (arg ∷ rest)

  abbrev pub wrapped {ℓ} : {A : Type ℓ} → Exec rt.State A → Exec rt.State A
  wrapped m = catch m λ e. rethrow (as_builtin_error e)

  -- Calls the builtin, once it is found in the registry's snapshot.
  unfoldable pub call_builtin : Callable → List ℤ → Exec rt.State ℤ
  call_builtin fn arg_addrs = do
    args ← wrapped (decode_args arg_addrs)
    result ← wrapped (lift (fn args))
    wrapped (Memory.python_object_to_opa_value host rt result limits.max_result_bytes)

  abbrev pub call_registered : Option Callable → List ℤ → Exec rt.State ℤ
  call_registered none arg_addrs = throw (opa builtin)
  call_registered (some fn) arg_addrs = call_builtin fn arg_addrs

  abbrev pub call_named : Option String → Dict Callable → List ℤ → Exec rt.State ℤ
  call_named none snapshot arg_addrs = throw (opa builtin)
  call_named (some name) snapshot arg_addrs = call_registered (get name snapshot) arg_addrs

  unfoldable pub dispatch_builtin : Dict ℤ → Dict Callable → ℤ → List ℤ → Exec rt.State ℤ
  dispatch_builtin ids snapshot builtin_id arg_addrs =
      call_named (builtin_name ids builtin_id) snapshot arg_addrs

-- The metadata, which the guest is asked for anew, and `close`, on the runtime of the instance.
module _ (host : Host) (rt : Runtime) (config : PolicyConfig) where
  abbrev pub entrypoints : Exec rt.State (Dict ℤ)
  entrypoints = Memory.decode_entrypoints host rt (limits_of config)

  abbrev pub builtins : Exec rt.State (Dict ℤ)
  builtins = Memory.decode_builtins host rt (limits_of config)

abbrev pub close : (rt : Runtime) → rt.State → rt.State
close rt s = Runtime.close rt s

-- What the construction gives: the instance, its version and capabilities, and its builtins' ids.
pub record Built (rt : Runtime) : Type 0 where
  pub made : Instance rt
  pub abi : OpaAbi
  pub builtin_ids : Dict ℤ

-- The fields that the constructor sets on the way.
abbrev pub assembled : {rt : Runtime} → OpaAbi → Dict ℤ → ℕ → Manager rt → Built rt
assembled abi builtin_ids version manager = record {
  made = record {
    session = record { manager = manager; entered_wasm = false };
    data_version = version;
    poisoned = false;
  };
  abi = abi;
  builtin_ids = builtin_ids;
}

-- `epoch.ensure_running()`, if there is a deadline; `ensured` is what it does.
abbrev pub started : Option ℤ → Result (Unit {0}) → Result (Unit {0})
started none ensured = ok tt
started (some timeout) ensured = ensured

module _ (host : Host) (rt : Runtime) (config : PolicyConfig) (spec : OpaAbiSpec) where
  -- The data document is loaded last, into the manager that was set up first.
  abbrev pub load_initial : Value → Manager rt → Exec rt.State (Manager rt)
  load_initial value manager s =
      let (r, d) =
        Data.load_data host rt config.max_data_bytes value (record manager { store = s }) in
      (then_result r (λ _. ok d), d.store)

  -- The `try` block of the constructor.
  unfoldable pub build_parts : Value → ℕ → Exec rt.State (Built rt)
  build_parts value version = do
    abi ← lift (Abi.bind spec rt.exports)
    manager ← Data.init rt
    builtin_ids ← builtins host rt config
    loaded ← load_initial value manager
    pure (assembled abi builtin_ids version loaded)

  -- OpaPolicyInstance.__init__ on a fresh runtime, for an instance with an epoch ticker: the `try`
  -- block, its handler, and what follows them.
  unfoldable pub build : Result (Unit {0}) → Value → ℕ → Exec rt.State (Built rt)
  build ensured value version = do
    b ← catch (build_parts value version) λ e s. (raised e, Runtime.close rt s)
    lift (started config.eval_timeout_ms ensured)
    pure b
