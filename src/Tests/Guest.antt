-- ===== src/Tests/Guest.antt =====
-- A toy policy module, whose every decision is its input, and runs of the program on it.
use opa_py_wasm.Base.{
  ℕ, ◌+◌, ◌/◌, ◌≡◌, refl, String, false, Option, none, some, List, [], ◌∷◌, ◌++◌, length, take,
  drop, append_assoc, slice, replicate, if◌then◌else◌, str_eq, ◌||◌, ◌&&◌,
}
use opa_py_wasm.Base.Int.{ℤ, pos, pos_part, negsuc, ◌+ℤ◌}
use opa_py_wasm.Base.Dict.{Dict, get}
use opa_py_wasm.Errors.{Exn, fresh, value_error, trap, is_opa}
use opa_py_wasm.Errors.Chain.{walk, walk_ends, chain_fuel}
use opa_py_wasm.Result.{Result, ok, raised, failed, ◌>>=◌}
use opa_py_wasm.Types.{Bytes, int, Host, default_config}
use opa_py_wasm.Runtime
use opa_py_wasm.Runtime.{Runtime, Extern, func, global, integer}
use opa_py_wasm.Abi
use opa_py_wasm.Abi.{Exports}
use opa_py_wasm.Memory
use opa_py_wasm.Memory.{Limits, read_cstring}
use opa_py_wasm.Memory.Cstring.{MemoryLaws, read_cstring_lem}
use opa_py_wasm.Memory.Buffers.{WriteLaws, WasWritten, write_bytes-WasWritten}
use opa_py_wasm.Data
use opa_py_wasm.Data.{Manager}
use opa_py_wasm.Data.Checkpoint.{HeapLaws, HasSet, HasGot, Loaded, load_data-Loaded}
use opa_py_wasm.Evaluator
use opa_py_wasm.Evaluator.{Session, Settings}
use opa_py_wasm.Evaluator.Outcomes.{Finished, evaluate-Finished}
use opa_py_wasm.Instance
use opa_py_wasm.Instance.{Instance, settings_of, limits_of}
use opa_py_wasm.Instance.Poison.{accepted, evaluate-poisoned}
use opa_py_wasm.Instance.Construction.{WasBuilt, build-WasBuilt}

-- A JSON of one digit.
abbrev pub toy_host : Host
toy_host = record {
  loads = λ raw. elim raw [ [] ↦ raised (fresh value_error) | b ∷ bs ↦ ok (int (pos b)) ];
  dumps = λ value. ok "7";
  encode = λ text. if str_eq text "" then ok [] else ok (55 ∷ []);
  lower = λ text. text;
  ceil_ticks = λ ms. pos ((pos_part ms + 9) / 10);
}

pub record Guest : Type 0 where
  pub heap : ℤ
  pub bytes : List ℕ

abbrev i32 : List String
i32 = "i32" ∷ []

abbrev pub toy_exports : Exports
toy_exports =
    ("opa_wasm_abi_version", global (integer (pos 1)))
    ∷ ("opa_wasm_abi_minor_version", global (integer (pos 3)))
    ∷ ("opa_malloc", func i32 i32)
    ∷ ("opa_free", func i32 [])
    ∷ ("opa_json_parse", func ("i32" ∷ i32) i32)
    ∷ ("opa_json_dump", func i32 i32)
    ∷ ("opa_heap_ptr_get", func [] i32)
    ∷ ("opa_heap_ptr_set", func i32 [])
    ∷ ("entrypoints", func [] i32)
    ∷ ("builtins", func [] i32)
    ∷ ("opa_eval", func ("i32" ∷ "i32" ∷ "i32" ∷ "i32" ∷ "i32" ∷ "i32" ∷ i32) i32)
    ∷ []

abbrev written : ℤ → Bytes → Bytes → Bytes
written (pos a) new old = take a old ++ new ++ drop (a + length new) old
written (negsuc n) new old = old

abbrev toy_read : ℤ → ℤ → Guest → Result Bytes
toy_read (pos a) (pos b) g = ok (slice a b g.bytes)
toy_read a b g = raised (fresh value_error)

-- The fourth argument of `opa_eval` is the address of the input.
abbrev toy_call : String → List ℤ → Guest → Result ℤ × Guest
toy_call name [] g = (ok g.heap, g)
toy_call name (a ∷ []) g =
    if str_eq name "opa_heap_ptr_set"
    then (ok a, record g { heap = a })
    else if str_eq name "opa_malloc"
    then (ok g.heap, record g { heap = g.heap +ℤ a })
    else (ok a, g)
toy_call name (a ∷ b ∷ c ∷ input ∷ rest) g =
    if str_eq name "opa_eval" then (ok input, g) else (raised (fresh trap), g)
toy_call name (a ∷ rest) g = (ok a, g)

abbrev pub toy : Runtime
toy = record {
  State = Guest;
  exports = toy_exports;
  memory_len = λ g. length g.bytes;
  memory_read = toy_read;
  memory_write = λ a new g. (ok tt, record g { bytes = written a new g.bytes });
  call = toy_call;
  store_set_epoch_deadline = λ ticks g. g;
  store_close = λ g. g;
}

abbrev pub toy_MemoryLaws : MemoryLaws toy
toy_MemoryLaws = record { contents = λ g. g.bytes; len_law = λ g. refl; read_law = λ a b g. refl }

pub set_heap : (p : ℤ) (g : Guest) → Abi.opa_heap_ptr_set toy p g ≡ (ok tt, record g { heap = p })
unfolding Abi.opa_heap_ptr_set Abi.call Runtime.get_func Runtime.get_export get ◌>>=◌
set_heap p g = refl

pub get_heap : (g : Guest) → Abi.opa_heap_ptr_get toy g ≡ (ok g.heap, g)
unfolding Abi.opa_heap_ptr_get Abi.call Runtime.get_func Runtime.get_export get ◌>>=◌
get_heap g = refl

pub has_set :
    (p : ℤ) (g : Guest) → let (r, t) = Abi.opa_heap_ptr_set toy p g in HasSet (λ s. s.heap) g p r t
has_set p g = rw (set_heap p g) refl

pub has_got :
    (g : Guest) → let (r, t) = Abi.opa_heap_ptr_get toy g in HasGot (λ (s : Guest). s.heap) r t
has_got g = rw (get_heap g) refl

abbrev pub toy_HeapLaws : HeapLaws toy
toy_HeapLaws = record {
  heap = λ g. g.heap;
  set_law = has_set;
  get_law = has_got;
  heap-deadline = λ ticks g. refl;
}

-- 55 is the input's text, which the guest's memory ends with a NUL.
abbrev pub toy_guest : Guest
toy_guest = record { heap = pos 4; bytes = replicate 24 0 }

abbrev toy_manager : Manager toy
toy_manager = record {
  store = toy_guest;
  initial_heap_ptr = pos 4;
  data_addr = pos 0;
  data_heap_ptr = pos 4;
}

abbrev toy_session : Session toy
toy_session = record { manager = toy_manager; entered_wasm = false }

abbrev pub toy_instance : Instance toy
toy_instance = record { session = toy_session; data_version = 3; poisoned = false }

abbrev toy_limits : Limits
toy_limits = limits_of default_config

evaluated :
    (Evaluator.evaluate toy_host toy
      (settings_of toy_host default_config)
      (int (pos 7))
      (pos 0)
      toy_session).0
    ≡ ok (int (pos 55))
unfolding Evaluator.evaluate Evaluator.run_guest Evaluator.on_rt Evaluator.on_manager
    Evaluator.arm_deadline Evaluator.disarm_deadline Data.reset_heap_to_checkpoint Data.on_store
    Runtime.set_epoch_deadline Runtime.clear_epoch_deadline Runtime.get_func Runtime.get_export
    Memory.encode_input Memory.coerce_to_json_bytes Memory.dumps Memory.check_size
    Memory.write_bytes Memory.check_pointer Memory.check_range Memory.read_json_cstring
    Memory.read_cstring Memory.scan Memory.find_nul Abi.call Abi.opa_malloc Abi.memory_len
    Abi.memory_write Abi.memory_read Abi.opa_heap_ptr_get Abi.opa_heap_ptr_set Abi.opa_eval get
    ◌>>=◌
evaluated = refl

evaluate-Finished_example :
    let (r, t) =
      Evaluator.evaluate toy_host toy
        (settings_of toy_host default_config)
        (int (pos 7))
        (pos 0)
        toy_session in
    Finished toy_host toy
      (settings_of toy_host default_config)
      toy_HeapLaws
      (Evaluator.encoded toy_host toy (settings_of toy_host default_config) (int (pos 7)))
      r
      t
evaluate-Finished_example =
    evaluate-Finished toy_host toy (settings_of toy_host default_config) toy_HeapLaws (int (pos 7))
      (pos 0) toy_session

evaluate-poisoned_example :
    let (o, j) = Instance.evaluate toy_host toy default_config (int (pos 7)) (pos 0) toy_instance in
    (j.poisoned ≡ (false || (accepted toy_host toy default_config (int (pos 7)) && failed o)))
    × (j.data_version ≡ 3)
evaluate-poisoned_example =
    evaluate-poisoned toy_host toy default_config (int (pos 7)) (pos 0) toy_instance

load_data-Loaded_example :
    let (o, d) = Data.load_data toy_host toy (pos 10) (int (pos 7)) toy_manager in
    Loaded toy toy_HeapLaws o d × (d.initial_heap_ptr ≡ pos 4)
load_data-Loaded_example =
    load_data-Loaded toy toy_HeapLaws toy_host (pos 10) (int (pos 7)) toy_manager

abbrev text_guest : Guest
text_guest = record { heap = pos 8; bytes = 7 ∷ 8 ∷ 9 ∷ 0 ∷ 5 ∷ [] }

read_cstring_lem_example :
    read_cstring toy toy_limits (pos 1) text_guest ≡ (ok (8 ∷ 9 ∷ []), text_guest)
read_cstring_lem_example = read_cstring_lem toy toy_MemoryLaws toy_limits (pos 1) text_guest

abbrev toy_WriteLaws : WriteLaws toy toy_MemoryLaws
toy_WriteLaws = record {
  written = λ a new g. record g { bytes = written (pos a) new g.bytes };
  write_law = λ a new g h. refl;
  contents-written = λ a new g h. append_assoc (take a g.bytes) new (drop (a + length new) g.bytes);
}

write_bytes-WasWritten_example :
    let (allocated, u) = Abi.opa_malloc toy (pos 2) toy_guest in
    let (r, t) = Memory.write_bytes toy (55 ∷ 56 ∷ []) toy_guest in
    WasWritten toy toy_MemoryLaws toy_WriteLaws (55 ∷ 56 ∷ []) allocated u r t
write_bytes-WasWritten_example =
    write_bytes-WasWritten toy toy_MemoryLaws toy_WriteLaws (55 ∷ 56 ∷ []) toy_guest

-- A builtin that raises.
abbrev failing : Dict Instance.Callable
failing = ("f", λ args. raised (fresh trap)) ∷ []

-- Two errors, each the cause of the other.
abbrev circle : Exn
circle = record {
  objects =
      record { kind = value_error; text = ""; cause = some 1; context = none }
      ∷ record { kind = trap; text = ""; cause = some 0; context = none }
      ∷ [];
  root = 0;
}

walk_ends_example :
    (r : Option ℕ) × (walk (λ o. is_opa o.kind) circle.objects (chain_fuel circle) [] (some 0)
      ≡ some r)
walk_ends_example = walk_ends (λ o. is_opa o.kind) circle

build-WasBuilt_example :
    let (o, t) =
      Instance.build toy_host toy default_config Abi.default_spec
        (ok tt)
        (int (pos 7))
        1
        toy_guest in
    WasBuilt toy_host toy default_config Abi.default_spec toy_HeapLaws (ok tt) 1 o t
build-WasBuilt_example =
    build-WasBuilt toy_host toy default_config Abi.default_spec toy_HeapLaws (ok tt) (int (pos 7)) 1
      toy_guest
