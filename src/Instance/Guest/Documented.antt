-- ===== src/Instance/Guest/Documented.antt =====
-- Which errors an evaluation may end with, whatever the guest does, its calls of the host included.
use opa_py_wasm.Base.{ℕ, inl, inr, String, Bool, true, false, List, Bool-cases, arith, length}
use opa_py_wasm.Base.Int.{ℤ, pos, ltb_ℤ}
use opa_py_wasm.Base.Dict.{Dict}
use opa_py_wasm.Errors.{Exn, opa, memory, fresh, kind_of-fresh}
use opa_py_wasm.Result.{Result, ok, raised, handled, ◌>>=◌}
use opa_py_wasm.Result.Raises.{RaisedOnly, RaisedOnly-then, RaisedOnly-handle, RaisedOnly-weaken}
use opa_py_wasm.Types.{PolicyConfig, Bytes, Value, str, bytes, Host}
use opa_py_wasm.Runtime.{Runtime}
use opa_py_wasm.Abi.{expected_signatures}
use opa_py_wasm.Abi.Conforms.{HasAll}
use opa_py_wasm.Memory
use opa_py_wasm.Memory.{Limits}
use opa_py_wasm.Evaluator.{
  Settings, Session, is_passthrough, translate, timeout_text, on_error, on_rt, reset_heap_if_safe,
  run_guest, encoded, evaluate_encoded, evaluate,
}
use opa_py_wasm.Evaluator.Raised.{RaisesBelow, run_guest-Below}
use opa_py_wasm.Evaluator.Wrapped.{AreForeign}
use opa_py_wasm.Instance
use opa_py_wasm.Evaluator
use opa_py_wasm.Instance.{Callable, Instance, evaluate_failed, on_session, settings_of}
use opa_py_wasm.Instance.Guest.{Guest, runtime_at}
use opa_py_wasm.Instance.Guest.Answers.{
  IsForeign, Answers, Answers-Foreign, Answers-call, Answers-memory, DocumentedOnly,
  entered-Documented, refused-Documented, DocumentedOrHeap, turned,
}
use opa_py_wasm.Instance.Guest.Raised.{TrapsAre, IsOfCall, call_at-only}

-- What wasmtime, the guest and Python's library raise is foreign, and what wraps is too.
pub record ForeignLaws (host : Host) (g : Guest) : Type 0 where
  pub of_code : (name : String) (args : List ℤ) → TrapsAre IsForeign (g.code name args)
  pub of_exhausted : IsForeign g.exhausted
  pub of_read : (a b : ℤ) (s : g.State) → RaisedOnly IsForeign (g.memory_read a b s)
  pub of_write :
      (a : ℤ) (raw : Bytes) (s : g.State) → RaisedOnly IsForeign (g.memory_write a raw s).0
  pub of_loads : (raw : Bytes) → RaisedOnly IsForeign (host.loads raw)
  pub of_dumps : (value : Value) → RaisedOnly IsForeign (host.dumps value)
  pub of_encode : (text : String) → RaisedOnly IsForeign (host.encode text)
  pub wraps : (e : Exn) → AreForeign (g.wrapping e)

module _ (host : Host) (g : Guest) (foreign : ForeignLaws host g) where
  dumps-Answers : (value : Value) → RaisedOnly (Answers host false) (Memory.dumps host value)
  unfolding Memory.dumps
  dumps-Answers value =
      RaisedOnly-handle (Answers host false) IsForeign _ _
        (RaisedOnly-then IsForeign (host.dumps value) host.encode (foreign.of_dumps value)
          foreign.of_encode)
        λ e. turned host _ e

  validated-Answers :
      (raw : Bytes) (validate : Bool)
      → RaisedOnly (Answers host false) (Memory.validated host raw validate)
  unfolding Memory.validated
  validated-Answers raw true =
      RaisedOnly-handle (Answers host false) IsForeign _ _
        (RaisedOnly-then IsForeign (host.loads raw) (λ value. ok raw) (foreign.of_loads raw)
          λ value. tt)
        λ e. turned host _ e
  validated-Answers raw false = tt

  coerced-Answers :
      (value : Value) (validate : Bool)
      → RaisedOnly (Answers host false) (Memory.coerce_to_json_bytes host value validate)
  unfolding Memory.coerce_to_json_bytes
  coerced-Answers (str text) validate =
      RaisedOnly-then (Answers host false) (host.encode text) _
        (RaisedOnly-weaken IsForeign (Answers host false) _ (Answers-Foreign host false)
          (foreign.of_encode text))
        λ raw. validated-Answers raw validate
  coerced-Answers (bytes raw) validate = validated-Answers raw validate
  coerced-Answers value validate = dumps-Answers value

  size-Answers :
      (raw : Bytes) (limit : ℤ) → RaisedOnly (Answers host false) (Memory.check_size raw limit)
  unfolding Memory.check_size
  size-Answers raw limit = elim (Bool-cases (ltb_ℤ limit (pos (length raw)))) [
    | inl e ↦ rw e (Answers-memory host false (fresh (opa memory)) (kind_of-fresh (opa memory)))
    | inr e ↦ rw e tt
  ]

  encoded-Answers :
      (value : Value) (limit : ℤ) (validate : Bool)
      → RaisedOnly (Answers host false) (Memory.encode_input host value limit validate)
  unfolding Memory.encode_input
  encoded-Answers value limit validate =
      RaisedOnly-then (Answers host false) _ _ (coerced-Answers value validate)
        λ raw. RaisedOnly-then (Answers host false) _ _ (size-Answers raw limit) λ _. tt

  module _ (decode : Bytes → String) (limits : Limits) (ids : Dict ℤ) (snapshot : Dict Callable)
      (depth : ℕ) (functions : HasAll g.exports expected_signatures) where
    abbrev rt : Runtime
    rt = runtime_at decode host limits ids snapshot g depth

    from_foreign {ℓ} :
        {A : Type ℓ} (r : Result A) → RaisedOnly IsForeign r → RaisedOnly (Answers host true) r
    from_foreign r f =
        RaisedOnly-weaken IsForeign (Answers host true) r (Answers-Foreign host true) f

    below : RaisesBelow (Answers host true) host rt
    below = record {
      of_call = λ name args. record {
        at = λ s.
            RaisedOnly-weaken (IsOfCall g.wrapping IsForeign) (Answers host true) _
              (λ e. Answers-call host g.wrapping e foreign.wraps)
              ((call_at-only decode host limits ids snapshot g IsForeign depth name args
                  foreign.of_exhausted (foreign.of_code name args)).at
                s);
      };
      of_read = λ a b s. from_foreign _ (foreign.of_read a b s);
      of_write = λ a raw s. from_foreign _ (foreign.of_write a raw s);
      of_loads = λ raw. from_foreign _ (foreign.of_loads raw);
      of_memory = Answers-memory host true;
      functions = functions;
    }

    -- What holds when an evaluation has ended: an `Exception` is documented; where the input was not
    -- serialised, it may be what a call for the heap pointer raised.
    abbrev pub EndsDocumented : Result Bytes → Result Value → Type 0
    EndsDocumented (ok raw) r = DocumentedOnly r
    EndsDocumented (raised e) r = DocumentedOrHeap host rt r

    encoded-Documented :
        (settings : Settings) (input : Result Bytes) (entrypoint_id : ℤ) (s : Session rt)
        → RaisedOnly (Answers host false) input
        → EndsDocumented input (evaluate_encoded host rt settings input entrypoint_id s).0
    encoded-Documented settings (raised e) entrypoint_id s h = refused-Documented host rt e s h
    encoded-Documented settings (ok raw) entrypoint_id s h =
        let (r, t) = run_guest host rt settings raw entrypoint_id s in
        entered-Documented host rt r t
          ((run_guest-Below (Answers host true) host rt below settings raw entrypoint_id).at s)

    rethrown-Documented :
        (input : Result Bytes) (r : Result Value) (i : Instance rt)
        → EndsDocumented input r
        → EndsDocumented input (handled (evaluate_failed rt) r i).0
    unfolding ◌>>=◌
    rethrown-Documented (ok raw) (ok value) i h = tt
    rethrown-Documented (ok raw) (raised e) i h = ground (arith, h)
    rethrown-Documented (raised x) (ok value) i h = tt
    rethrown-Documented (raised x) (raised e) i h = ground (arith, h)

    -- Where the functions of the ABI are exported, and what wasmtime, the guest and `json` raise has no
    -- error of errors.py among its links, nor has what wasmtime wraps host errors in: whatever the
    -- guest does and however deep it and the dispatch call each other, an `Exception` that leaves an
    -- evaluation whose input was serialised is one of five errors, `OpaEvaluationError`,
    -- `OpaInvalidInputError`, `OpaMemoryError`, `OpaBuiltinError` or `OpaAbortError`. Where the input
    -- was not serialised, it is one of the five, or what a call of `opa_heap_ptr_set` or
    -- `opa_heap_ptr_get` raised.
    pub evaluate-Documented :
        (config : PolicyConfig) (input_value : Value) (entrypoint_id : ℤ) (i : Instance rt)
        → EndsDocumented
            (encoded host rt (settings_of host config) input_value)
            (Instance.evaluate host rt config input_value entrypoint_id i).0
    unfolding Instance.evaluate Evaluator.evaluate on_session ◌>>=◌
    evaluate-Documented config input_value entrypoint_id i = rethrown-Documented _ _ _ (
        encoded-Documented (settings_of host config) _ entrypoint_id
          (record i.session { entered_wasm = false })
          (encoded-Answers input_value config.max_input_bytes config.parse_raw_json_input))
