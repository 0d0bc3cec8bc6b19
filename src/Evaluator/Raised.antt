-- ===== src/Evaluator/Raised.antt =====
-- What the evaluation proper may raise, told by what its parts raise.
use opa_py_wasm.Base.{
  String, ◌≡◌, Bool, true, false, Option, none, some, List, [], ◌∷◌, Bool-cases, inl, inr, suc,
  zero, ℕ, if◌then◌else◌, ◌||◌, ◌++◌, length,
}
use opa_py_wasm.Base.Int.{ℤ, pos, ltb_ℤ, leb_ℤ}
use opa_py_wasm.Base.Dict.{get}
use opa_py_wasm.Errors.{
  Exn, fresh, kind_of, is_value_error, opa, memory, raise_from, kind_of-fresh, kind_of-raise_saying,
}
use opa_py_wasm.Result.{raised, or_handle, Exec, raise_if, throw}
use opa_py_wasm.Result.Raises.{
  RaisedOnly, RaisedOnly-handle, Raises, Raises-pure, Raises-gets, Raises-lift, Raises-throw,
  Raises-modify, Raises-raise_if, Raises-bind, Raises-if,
}
use opa_py_wasm.Types.{Bytes, Host}
use opa_py_wasm.Runtime
use opa_py_wasm.Runtime.{Runtime, func, get_func-at}
use opa_py_wasm.Abi
use opa_py_wasm.Abi.{expected_signatures}
use opa_py_wasm.Abi.Conforms.{HasAll}
use opa_py_wasm.Memory
use opa_py_wasm.Memory.{Limits, find_nul, finish}
use opa_py_wasm.Data
use opa_py_wasm.Evaluator.{Settings, on_rt, arm_deadline, disarm_deadline, reset_heap, run_guest}

-- `P` holds of whatever the guest, its memory and the parser raise, and of an `OpaMemoryError`; and
-- the exports have the functions of the ABI.
pub record RaisesBelow (P : Exn → Type 0) (host : Host) (rt : Runtime) : Type 0 where
  pub of_call : (name : String) (args : List ℤ) → Raises P (rt.call name args)
  pub of_read : (a b : ℤ) (s : rt.State) → RaisedOnly P (rt.memory_read a b s)
  pub of_write : (a : ℤ) (raw : Bytes) (s : rt.State) → RaisedOnly P (rt.memory_write a raw s).0
  pub of_loads : (raw : Bytes) → RaisedOnly P (host.loads raw)
  pub of_memory : (e : Exn) → kind_of e ≡ opa memory → P e
  pub functions : HasAll rt.exports expected_signatures

module _ (P : Exn → Type 0) (host : Host) (rt : Runtime) (below : RaisesBelow P host rt) where
  memory-Below : P (fresh (opa memory))
  memory-Below = below.of_memory (fresh (opa memory)) (kind_of-fresh (opa memory))

  call-Below :
      (name : String) (args : List ℤ) {ps rs : List String}
      → get name rt.exports ≡ some (func ps rs)
      → Raises P (Abi.call rt name args)
  unfolding Abi.call
  call-Below name args at =
      Raises-bind _ _ (Raises-lift _ (rw (get_func-at name rt.exports at) tt))
        λ _. below.of_call name args

  guard-Below : (b : Bool) → Raises {S = rt.State} P (raise_if b (opa memory))
  guard-Below b = Raises-raise_if b (opa memory) memory-Below

  write_bytes-Below : (raw : Bytes) → Raises P (Memory.write_bytes rt raw)
  unfolding Memory.write_bytes Memory.check_pointer Memory.check_range Abi.opa_malloc
      Abi.memory_write expected_signatures
  write_bytes-Below raw = Raises-bind _ _ (call-Below "opa_malloc" _ below.functions.0) λ allocated.
      Raises-bind _ _ (Raises-bind _ _ (guard-Below _) λ _. Raises-pure _) λ addr.
        Raises-bind _ _
          (Raises-bind _ _ (guard-Below _)
            λ _. Raises-bind _ _ (guard-Below _) λ _. record { at = λ s. (guard-Below _).at s })
          λ _. Raises-bind _ _ (record { at = λ s. below.of_write addr raw s }) λ _. Raises-pure _

  loads-Below :
      (raw : Bytes)
      → RaisedOnly P (
          or_handle (host.loads raw) λ e.
            if is_value_error (kind_of e) then raised (raise_from (opa memory) e) else raised e)
  loads-Below raw = RaisedOnly-handle P P (host.loads raw) _ (below.of_loads raw) λ e p.
      elim (Bool-cases (is_value_error (kind_of e))) [
        | inl v ↦
            rw v
              (below.of_memory (raise_from (opa memory) e) (kind_of-raise_saying (opa memory) "" e))
        | inr v ↦ rw v p
      ]

  check_size-Below : (raw : Bytes) (limit : ℤ) → RaisedOnly P (Memory.check_size raw limit)
  unfolding Memory.check_size
  check_size-Below raw limit = elim (Bool-cases (ltb_ℤ limit (pos (length raw)))) [
    | inl e ↦ rw e memory-Below
    | inr e ↦ rw e tt
  ]

  thrown-Below {ℓ} : {A : Type ℓ} → Raises {S = rt.State} {A = A} P (throw (opa memory))
  thrown-Below = Raises-throw (opa memory) memory-Below

  finish-Below :
      (out chunk : Bytes) (at : Option ℕ) (rest : Exec rt.State Bytes)
      → Raises P rest
      → Raises P (finish rt out chunk at rest)
  finish-Below out chunk none rest h = h
  finish-Below out chunk (some n) rest h = Raises-pure _

  scan-Below :
      (fuel budget mem_len at : ℕ) (out : Bytes)
      → Raises P (Memory.scan rt fuel budget mem_len at out)
  unfolding Memory.scan Abi.memory_read
  scan-Below zero budget mem_len at out = thrown-Below
  scan-Below (suc fuel) budget mem_len at out = Raises-if _ _ _ thrown-Below (
      Raises-if _ _ _ thrown-Below (
        Raises-bind _ _ (record { at = λ s. below.of_read _ _ s })
          λ chunk.
            finish-Below out chunk (find_nul chunk) _
              (scan-Below fuel budget mem_len _ (out ++ chunk))))

  tested-Below :
      (b : Bool) (m : Exec rt.State Bytes) (s : rt.State)
      → Raises P m
      → RaisedOnly P (if b then throw (opa memory) s else m s).0
  tested-Below true m s h = (thrown-Below {A = Bytes}).at s
  tested-Below false m s h = h.at s

  read_cstring-Below : (limits : Limits) (addr : ℤ) → Raises P (Memory.read_cstring rt limits addr)
  unfolding Memory.read_cstring
  read_cstring-Below limits addr = record {
    at = λ s.
        tested-Below (ltb_ℤ addr (pos 0) || leb_ℤ (pos (Abi.memory_len rt s)) addr) _ s
          (scan-Below _ _ _ _ []);
  }

  read_json-Below :
      (limits : Limits) (addr : ℤ) (limit : Option ℤ)
      → Raises P (Memory.read_json_cstring host rt limits addr limit)
  unfolding Memory.read_json_cstring
  read_json-Below limits addr limit = Raises-bind _ _ (read_cstring-Below limits addr) λ raw.
      Raises-bind _ _ (Raises-lift _ (check_size-Below raw _)) λ _. Raises-lift _ (loads-Below raw)

  on_rt-Below {ℓ} : {A : Type ℓ} (m : Exec rt.State A) → Raises P m → Raises P (on_rt rt m)
  unfolding on_rt
  on_rt-Below m h = record { at = λ s. h.at s.manager.store }

  reset_heap-Below : Raises P (reset_heap rt)
  unfolding Data.reset_heap_to_checkpoint on_rt Abi.opa_heap_ptr_set expected_signatures
  reset_heap-Below = record {
    at = λ s.
        (Raises-bind (Abi.call rt "opa_heap_ptr_set" (s.manager.data_heap_ptr ∷ [])) _
            (call-Below "opa_heap_ptr_set" _ below.functions.1.1.1.1.1.0) λ _. Raises-pure tt).at
          s.manager.store;
  }

  deadline-Below :
      (ticks : Option ℕ) → Raises P (arm_deadline rt ticks) × Raises P (disarm_deadline rt ticks)
  unfolding arm_deadline disarm_deadline Runtime.set_epoch_deadline Runtime.clear_epoch_deadline
      on_rt
  deadline-Below none = (Raises-pure tt, Raises-pure tt)
  deadline-Below (some ticks) = (record { at = λ s. tt }, record { at = λ s. tt })

  pub run_guest-Below :
      (settings : Settings) (input_bytes : Bytes) (entrypoint_id : ℤ)
      → Raises P (run_guest host rt settings input_bytes entrypoint_id)
  unfolding run_guest Abi.opa_heap_ptr_get Abi.opa_eval expected_signatures
  run_guest-Below settings input_bytes entrypoint_id =
      let (arms, disarms) = deadline-Below settings.deadline_ticks in
      Raises-bind _ _ (Raises-modify _) λ _. Raises-bind _ _ arms λ _.
        Raises-bind _ _ reset_heap-Below λ _.
          Raises-bind _ _ (on_rt-Below _ (write_bytes-Below input_bytes)) λ input_addr.
            Raises-bind _ _
              (on_rt-Below _ (call-Below "opa_heap_ptr_get" _ below.functions.1.1.1.1.0))
              λ heap_ptr. Raises-bind _ _ (Raises-gets _) λ data_addr.
                Raises-bind _ _
                  (on_rt-Below _ (call-Below "opa_eval" _ below.functions.1.1.1.1.1.1.1.1.0))
                  λ result_addr.
                    Raises-bind _ _ (on_rt-Below _ (read_json-Below settings.limits result_addr _))
                      λ result.
                        Raises-bind _ _ reset_heap-Below
                          λ _. Raises-bind _ _ disarms λ _. Raises-pure result
