-- ===== src/Evaluator.antt =====
-- opapywasm/evaluator.py, `Evaluator`: one evaluation on one instance.
pub mod Entered
pub mod Outcomes
pub mod Wrapped
pub mod Raised
use opa_py_wasm.Base.{
  ℕ, String, Bool, true, false, not, ◌&&◌, Option, none, some, if◌then◌else◌, length,
}
use opa_py_wasm.Base.Int.{ℤ, pos}
use opa_py_wasm.Errors.{
  Kind, Exn, kind_of, is_exception, raise_from, raise_saying, raise_linked, opa, evaluation, memory,
  invalid_input,
}
use opa_py_wasm.Errors.Chain.{find_typed_in_chain, is_epoch_interrupt}
use opa_py_wasm.Result.{
  Result, ok, raised, Exec, pure, gets, modify, rethrow, handled, catch, ◌>>=◌, ◌>>◌,
}
use opa_py_wasm.Types.{Bytes, Value, Host}
use opa_py_wasm.Runtime
use opa_py_wasm.Runtime.{Runtime}
use opa_py_wasm.Abi
use opa_py_wasm.Memory
use opa_py_wasm.Memory.{Limits}
use opa_py_wasm.Data
use opa_py_wasm.Data.{Manager}

-- The evaluator's fields that stay as they are.
pub record Settings : Type 0 where
  pub limits : Limits
  pub max_input_bytes : ℤ
  pub max_result_bytes : ℤ
  pub validate_input : Bool
  pub deadline_ticks : Option ℕ

-- The data manager, and the flag that the callback `on_enter_wasm` sets.
pub record Session (rt : Runtime) : Type 0 where
  pub manager : Manager rt
  pub entered_wasm : Bool

-- _PASSTHROUGH_ERRORS
abbrev pub is_passthrough : Kind → Bool
is_passthrough (opa evaluation) = true
is_passthrough (opa invalid_input) = true
is_passthrough (opa memory) = true
is_passthrough _ = false

abbrev pub timeout_text : String
timeout_text = "evaluation exceeded its time limit (eval_timeout_seconds) and was interrupted"

-- What `except Exception` raises instead: the typed error of the chain, or an `OpaEvaluationError`.
unfoldable pub translate : Host → Bool → Exn → Exn
translate host entered e = elim (find_typed_in_chain e) [
  | some i ↦ raise_linked i e
  | none ↦
      if entered && is_epoch_interrupt host.lower e
      then raise_saying (opa evaluation) timeout_text e
      else raise_from (opa evaluation) e
]

module _ (rt : Runtime) where
  unfoldable pub on_manager {ℓ} : {A : Type ℓ} → Exec (Manager rt) A → Exec (Session rt) A
  on_manager m s = let (r, d) = m s.manager in (r, record s { manager = d })

  unfoldable pub on_rt {ℓ} : {A : Type ℓ} → Exec rt.State A → Exec (Session rt) A
  unfolding on_manager Data.on_store
  on_rt m = on_manager (Data.on_store rt m)

  -- The callback: it marks the session.
  abbrev pub mark_entered : Exec (Session rt) (Unit {0})
  mark_entered = modify λ s. record s { entered_wasm = true }

  unfoldable pub arm_deadline : Option ℕ → Exec (Session rt) (Unit {0})
  arm_deadline none = pure tt
  arm_deadline (some ticks) = on_rt (Abi.set_epoch_deadline rt ticks)

  unfoldable pub disarm_deadline : Option ℕ → Exec (Session rt) (Unit {0})
  disarm_deadline none = pure tt
  disarm_deadline (some ticks) = on_rt (Abi.clear_epoch_deadline rt)

  abbrev pub reset_heap : Exec (Session rt) (Unit {0})
  reset_heap = on_manager (Data.reset_heap_to_checkpoint rt)

  unfoldable pub reset_heap_if_safe : Bool → Exec (Session rt) (Unit {0})
  reset_heap_if_safe entered = if entered then pure tt else reset_heap

  -- The two `except` clauses of `evaluate`. `entered` is the local variable `entered_wasm`.
  unfoldable pub on_error : Host → Bool → Exn → Exec (Session rt) Value
  on_error host entered e =
      if is_exception (kind_of e)
      then (do
        reset_heap_if_safe entered
        rethrow (if is_passthrough (kind_of e) then e else translate host entered e))
      else rethrow e

module _ (host : Host) (rt : Runtime) (settings : Settings) where
  -- The `try` block from step 2 on.
  unfoldable pub run_guest : Bytes → ℤ → Exec (Session rt) Value
  run_guest input_bytes entrypoint_id = do
    mark_entered rt
    arm_deadline rt settings.deadline_ticks
    reset_heap rt
    input_addr ← on_rt rt (Memory.write_bytes rt input_bytes)
    heap_ptr ← on_rt rt (Abi.opa_heap_ptr_get rt)
    data_addr ← gets (λ s. s.manager.data_addr)
    result_addr ←
        on_rt rt
          (Abi.opa_eval rt entrypoint_id data_addr input_addr (pos (length input_bytes)) heap_ptr)
    result ← on_rt rt (
        Memory.read_json_cstring host rt settings.limits result_addr
          (some settings.max_result_bytes))
    reset_heap rt
    disarm_deadline rt settings.deadline_ticks
    pure result

  abbrev pub encoded : Value → Result Bytes
  encoded input_value =
      Memory.encode_input host input_value settings.max_input_bytes settings.validate_input

  abbrev pub evaluate_encoded : Result Bytes → ℤ → Exec (Session rt) Value
  evaluate_encoded (raised e) entrypoint_id = on_error rt host false e
  evaluate_encoded (ok input_bytes) entrypoint_id =
      catch (run_guest input_bytes entrypoint_id) (on_error rt host true)

  unfoldable pub evaluate : Value → ℤ → Exec (Session rt) Value
  evaluate input_value entrypoint_id = evaluate_encoded (encoded input_value) entrypoint_id
