-- ===== src/Evaluator/Entered.antt =====
-- What an evaluation leaves alone, and the flag that it sets.
use opa_py_wasm.Base.{ℕ, ◌≡◌, refl, true, false, Option, none, some, length}
use opa_py_wasm.Base.Int.{ℤ, pos}
use opa_py_wasm.Errors.{Exn}
use opa_py_wasm.Result.{Result, ok, raised, is_ok, Exec, pure, gets, ◌>>=◌, ◌>>◌}
use opa_py_wasm.Result.Keeps.{
  Keeps, Keeps-pure, Keeps-bind, Keeps-gets, Keeps-if, Keeps-catch, Keeps-rethrow,
}
use opa_py_wasm.Types.{Bytes, Value, Host}
use opa_py_wasm.Runtime
use opa_py_wasm.Runtime.{Runtime}
use opa_py_wasm.Abi
use opa_py_wasm.Memory
use opa_py_wasm.Data
use opa_py_wasm.Data.{Manager, reset_heap_to_checkpoint}
use opa_py_wasm.Evaluator.{
  Settings, Session, on_manager, on_rt, arm_deadline, disarm_deadline, reset_heap,
  reset_heap_if_safe, on_error, run_guest, evaluate_encoded,
}

-- The document and the checkpoints of `t` are those of `s`, and `t` has entered the guest.
pub record Entered {rt : Runtime} (s t : Session rt) : Type 0 where
  pub same_initial : t.manager.initial_heap_ptr ≡ s.manager.initial_heap_ptr
  pub same_addr : t.manager.data_addr ≡ s.manager.data_addr
  pub same_checkpoint : t.manager.data_heap_ptr ≡ s.manager.data_heap_ptr
  pub entered : t.entered_wasm ≡ true

on_rt-Entered {ℓ} :
    {rt : Runtime} {A : Type ℓ} (s : Session rt) (m : Exec rt.State A)
    → Keeps (Entered s) (on_rt rt m)
unfolding on_rt
on_rt-Entered s m = record {
  at = λ t h. record {
    same_initial = h.same_initial;
    same_addr = h.same_addr;
    same_checkpoint = h.same_checkpoint;
    entered = h.entered;
  };
}

reset_heap-Entered : {rt : Runtime} (s : Session rt) → Keeps (Entered s) (reset_heap rt)
unfolding Data.reset_heap_to_checkpoint on_rt
reset_heap-Entered {rt} s = record {
  at = λ t h. (on_rt-Entered s (Abi.opa_heap_ptr_set rt t.manager.data_heap_ptr)).at t h;
}

deadline-Entered :
    {rt : Runtime} (s : Session rt) (ticks : Option ℕ)
    → Keeps (Entered s) (arm_deadline rt ticks) × Keeps (Entered s) (disarm_deadline rt ticks)
unfolding arm_deadline disarm_deadline
deadline-Entered s none = (Keeps-pure tt, Keeps-pure tt)
deadline-Entered {rt} s (some ticks) = (
  on_rt-Entered s (Runtime.set_epoch_deadline rt ticks),
  on_rt-Entered s (Runtime.clear_epoch_deadline rt),
)

module _ (host : Host) (rt : Runtime) (settings : Settings) where
  -- The block after the guest is marked as entered.
  abbrev in_guest : Bytes → ℤ → Exec (Session rt) Value
  in_guest input_bytes entrypoint_id = do
    arm_deadline rt settings.deadline_ticks
    reset_heap rt
    input_addr ← on_rt rt (Memory.write_bytes rt input_bytes)
    heap_ptr ← on_rt rt (Abi.opa_heap_ptr_get rt)
    data_addr ← gets (λ s. s.manager.data_addr)
    result_addr ←
        on_rt rt
          (Abi.opa_eval rt entrypoint_id data_addr input_addr (pos (length input_bytes)) heap_ptr)
    result ← on_rt rt (
        Memory.read_json_cstring host rt settings.limits result_addr
          (some settings.max_result_bytes))
    reset_heap rt
    disarm_deadline rt settings.deadline_ticks
    pure result

  in_guest-Entered :
      (input_bytes : Bytes) (entrypoint_id : ℤ) (s : Session rt)
      → Keeps (Entered s) (in_guest input_bytes entrypoint_id)
  in_guest-Entered input_bytes entrypoint_id s =
      let (arms, disarms) = deadline-Entered {rt = rt} s settings.deadline_ticks in
      Keeps-bind _ _ arms λ _. Keeps-bind _ _ (reset_heap-Entered s) λ _.
        Keeps-bind _ _ (on_rt-Entered s _) λ _. Keeps-bind _ _ (on_rt-Entered s _) λ _.
          Keeps-bind _ _ (Keeps-gets _) λ _. Keeps-bind _ _ (on_rt-Entered s _) λ _.
            Keeps-bind _ _ (on_rt-Entered s _) λ _.
              Keeps-bind _ _ (reset_heap-Entered s) λ _. Keeps-bind _ _ disarms λ _. Keeps-pure _

  on_error-Entered : (e : Exn) (s : Session rt) → Keeps (Entered s) (on_error rt host true e)
  unfolding on_error reset_heap_if_safe
  on_error-Entered e s =
      Keeps-if _ _ _ (Keeps-bind _ _ (Keeps-pure _) λ _. Keeps-rethrow _) (Keeps-rethrow _)

  -- The whole evaluation of an input that could be serialised.
  pub guest_run-Entered :
      (input_bytes : Bytes) (entrypoint_id : ℤ) (s : Session rt)
      → Entered s (evaluate_encoded host rt settings (ok input_bytes) entrypoint_id s).1
  unfolding run_guest ◌>>=◌
  guest_run-Entered input_bytes entrypoint_id s =
      (Keeps-catch (in_guest input_bytes entrypoint_id) (on_error rt host true)
          (in_guest-Entered input_bytes entrypoint_id s) λ e. on_error-Entered e s).at
        (record s { entered_wasm = true })
        (record { same_initial = refl; same_addr = refl; same_checkpoint = refl; entered = refl })

  on_error-flag : (e : Exn) → Keeps (λ t. t.entered_wasm ≡ false) (on_error rt host false e)
  unfolding on_error reset_heap_if_safe on_manager
  on_error-flag e =
      Keeps-if _ _ _ (Keeps-bind _ _ (record { at = λ t h. h }) λ _. Keeps-rethrow _)
        (Keeps-rethrow _)

  -- The flag that is left tells whether the input could be serialised.
  pub evaluate_encoded-flag :
      (input : Result Bytes) (entrypoint_id : ℤ) (s : Session rt)
      → s.entered_wasm ≡ false
      → (evaluate_encoded host rt settings input entrypoint_id s).1.entered_wasm ≡ is_ok input
  evaluate_encoded-flag (raised e) entrypoint_id s h = (on_error-flag e).at s h
  evaluate_encoded-flag (ok input_bytes) entrypoint_id s h =
      (guest_run-Entered input_bytes entrypoint_id s).entered
