-- ===== src/Tests/Scripts.antt =====
-- A guest whose evaluation calls a builtin, which calls into the guest again.
use opa_py_wasm.Base.{
  ◌≡◌, refl, String, Bool, true, false, List, [], ◌∷◌, if◌then◌else◌, str_eq, contains,
}
use opa_py_wasm.Base.Int.{ℤ, pos, negsuc, ◌+ℤ◌}
use opa_py_wasm.Base.Dict.{Dict, get}
use opa_py_wasm.Errors.{
  Kind, raise_saying, raise_linked, fresh, value_error, kind_of, trap, other, opa, builtin,
}
use opa_py_wasm.Errors.Chain.{find_typed_in_chain, walk}
use opa_py_wasm.Result.{Result, ok, raised, ◌>>=◌}
use opa_py_wasm.Result.Raises.{RaisedOnly, Raises}
use opa_py_wasm.Types.{Bytes, Value, int, default_config}
use opa_py_wasm.Runtime
use opa_py_wasm.Runtime.{Runtime}
use opa_py_wasm.Runtime.Callbacks.{opa_builtin}
use opa_py_wasm.Abi
use opa_py_wasm.Abi.Conforms.{HasAll}
use opa_py_wasm.Data
use opa_py_wasm.Memory
use opa_py_wasm.Evaluator
use opa_py_wasm.Instance
use opa_py_wasm.Instance.{Instance, limits_of, settings_of}
use opa_py_wasm.Instance.Guest.{Guest, Script, returns, computes, asks, runtime_at, run, call_at}
use opa_py_wasm.Instance.Guest.Answers.{IsForeign}
use opa_py_wasm.Instance.Guest.Raised.{TrapsAre}
use opa_py_wasm.Instance.Guest.Documented.{ForeignLaws, EndsDocumented, evaluate-Documented}
use opa_py_wasm.Tests.Guest.{toy, toy_host, toy_guest}

-- The text of a message, which no test looks at.
abbrev no_text : Bytes → String
no_text raw = ""

-- A call that changes the heap pointer and returns what it was.
abbrev bumping : ℤ → Script toy.State
bumping n =
    computes (λ s. s) λ s. computes (λ t. record t { heap = t.heap +ℤ n }) λ t. returns s.heap

abbrev moving : ℤ → Script toy.State
moving n = computes (λ s. record s { heap = n }) λ s. returns n

-- The functions of the toy guest as scripts; `opa_eval` asks for the builtin 2 with one argument.
abbrev asking : String → List ℤ → Script toy.State
asking name [] = computes (λ s. s) λ s. returns s.heap
asking name (a ∷ []) =
    if str_eq name "opa_heap_ptr_set"
    then moving a
    else if str_eq name "opa_malloc"
    then bumping a
    else returns a
asking name (a ∷ b ∷ []) = returns a
asking name (a ∷ b ∷ rest) = asks (pos 2) (pos 0) (pos 9 ∷ []) λ n. returns n

-- wasmtime puts one trap around what the host raises.
abbrev asking_guest : Guest
asking_guest = record {
  State = toy.State;
  exports = toy.exports;
  memory_len = toy.memory_len;
  memory_read = toy.memory_read;
  memory_write = toy.memory_write;
  store_set_epoch_deadline = toy.store_set_epoch_deadline;
  store_close = toy.store_close;
  code = asking;
  wrapping = λ e. trap ∷ [];
  exhausted = fresh trap;
}

abbrev pub failing : Dict Instance.Callable
failing = ("f", λ args. raised (fresh other)) ∷ []

abbrev asking_runtime : Runtime
asking_runtime =
    runtime_at no_text toy_host (limits_of default_config) (("f", pos 2) ∷ []) failing asking_guest
      3

fresh-Foreign : IsForeign (fresh trap) × IsForeign (fresh value_error)
unfolding find_typed_in_chain walk fresh contains
fresh-Foreign = (refl, refl)

if-Foreign :
    (b : Bool) (x y : Script toy.State)
    → TrapsAre IsForeign x
    → TrapsAre IsForeign y
    → TrapsAre IsForeign (if b then x else y)
if-Foreign true x y hx hy = hx
if-Foreign false x y hx hy = hy

asking-Foreign : (name : String) (args : List ℤ) → TrapsAre IsForeign (asking name args)
asking-Foreign name [] = λ s. tt
asking-Foreign name (a ∷ []) =
    if-Foreign (str_eq name "opa_heap_ptr_set") (moving a) _ (λ s. tt)
      (if-Foreign (str_eq name "opa_malloc") (bumping a) (returns a) (λ s t. tt) tt)
asking-Foreign name (a ∷ b ∷ []) = tt
asking-Foreign name (a ∷ b ∷ c ∷ rest) = λ n. tt

read-Foreign : (a b : ℤ) (s : toy.State) → RaisedOnly IsForeign (toy.memory_read a b s)
read-Foreign (pos a) (pos b) s = tt
read-Foreign (pos a) (negsuc b) s = fresh-Foreign.1
read-Foreign (negsuc a) b s = fresh-Foreign.1

loads-Foreign : (raw : Bytes) → RaisedOnly IsForeign (toy_host.loads raw)
loads-Foreign [] = fresh-Foreign.1
loads-Foreign (b ∷ bs) = tt

encode-Foreign : (b : Bool) (x y : Bytes) → RaisedOnly IsForeign (if b then ok x else ok y)
encode-Foreign true x y = tt
encode-Foreign false x y = tt

abbrev asking_laws : ForeignLaws toy_host asking_guest
asking_laws = record {
  of_code = asking-Foreign;
  of_exhausted = fresh-Foreign.0;
  of_read = read-Foreign;
  of_write = λ a raw s. tt;
  of_loads = loads-Foreign;
  of_dumps = λ value. tt;
  of_encode = λ text. encode-Foreign (str_eq text "") [] (55 ∷ []);
  wraps = λ e. (refl, tt);
}

abbrev asking_instance : Instance asking_runtime
asking_instance = record {
  session = record {
    manager = record {
      store = toy_guest;
      initial_heap_ptr = pos 4;
      data_addr = pos 0;
      data_heap_ptr = pos 4;
    };
    entered_wasm = false;
  };
  data_version = 3;
  poisoned = false;
}

asking_functions : HasAll asking_guest.exports Abi.expected_signatures
unfolding Abi.expected_signatures get
asking_functions = (refl, (refl, (refl, (refl, (refl, (refl, (refl, (refl, (refl, tt)))))))))

evaluate-Documented_example :
    EndsDocumented toy_host asking_guest asking_laws no_text
      (limits_of default_config)
      (("f", pos 2) ∷ [])
      failing
      3
      asking_functions
      (Evaluator.encoded toy_host asking_runtime
        (settings_of toy_host default_config)
        (int (pos 7)))
      (Instance.evaluate toy_host asking_runtime default_config
        (int (pos 7))
        (pos 0)
        asking_instance).0
evaluate-Documented_example =
    evaluate-Documented toy_host asking_guest asking_laws no_text (limits_of default_config)
      (("f", pos 2) ∷ []) failing 3 asking_functions default_config (int (pos 7)) (pos 0)
      asking_instance

-- The builtin's error reaches the caller, and the instance is poisoned.
abbrev outcome_of : Result Value × Instance asking_runtime → Kind × Bool
outcome_of (ok v, i) = (other, i.poisoned)
outcome_of (raised e, i) = (kind_of e, i.poisoned)

evaluates :
    outcome_of (
      Instance.evaluate toy_host asking_runtime default_config
        (int (pos 7))
        (pos 0)
        asking_instance)
    ≡ (opa builtin, true)
unfolding Instance.evaluate Instance.on_session ◌>>=◌ Instance.deadline_ticks get Runtime.get_func
    Runtime.get_export Data.on_store Data.reset_heap_to_checkpoint Abi.call Abi.opa_malloc
    Abi.memory_len Abi.memory_write Abi.memory_read Abi.opa_heap_ptr_get Abi.opa_heap_ptr_set
    Abi.opa_json_dump Abi.opa_json_parse Abi.opa_eval Memory.opa_value_to_python
    Memory.read_json_cstring Memory.read_cstring Memory.scan Memory.find_nul Memory.check_pointer
    Memory.check_range Memory.write_bytes Memory.check_size Memory.encode_input
    Memory.coerce_to_json_bytes Memory.dumps Evaluator.evaluate Evaluator.run_guest Evaluator.on_rt
    Evaluator.on_manager Evaluator.arm_deadline Evaluator.disarm_deadline Evaluator.on_error
    Evaluator.reset_heap_if_safe Evaluator.translate Runtime.set_epoch_deadline
    Runtime.clear_epoch_deadline call_at run opa_builtin Instance.dispatch_builtin
    Instance.builtin_name Instance.call_builtin Instance.decode_args Instance.as_builtin_error
    find_typed_in_chain walk contains kind_of raise_saying raise_linked fresh
evaluates = refl
