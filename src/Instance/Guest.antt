-- ===== src/Instance/Guest.antt =====
-- opapywasm/instance.py and opapywasm/runtime.py together: a guest that calls the host back, and the
-- dispatch that calls into the guest again. What wasmtime and the module do is the record `Guest`, a
-- parameter; `run` and `call_at` say how the calls of any guest reach the host functions, which are
-- those of runtime.py and instance.py.
pub mod Raised
pub mod Answers
pub mod Documented
use opa_py_wasm.Base.{ℕ, zero, suc, String, Option, some, List, if◌then◌else◌}
use opa_py_wasm.Base.Int.{ℤ}
use opa_py_wasm.Base.Dict.{Dict}
use opa_py_wasm.Errors.{Kind, Exn, kind_of, is_exception}
use opa_py_wasm.Result.{Result, Exec, pure, rethrow, catch, ◌>>=◌, ◌>>◌}
use opa_py_wasm.Types.{Bytes, Host}
use opa_py_wasm.Runtime.{Runtime, Extern}
use opa_py_wasm.Runtime.Callbacks.{opa_abort, opa_println, opa_builtin}
use opa_py_wasm.Evaluator.Wrapped.{wrapped}
use opa_py_wasm.Memory.{Limits}
use opa_py_wasm.Instance.{Callable, dispatch_builtin}

-- What a guest function does: instructions that may change the guest's state and depend on it, calls
-- of the host, and at the end a result or a trap.
pub data Script (S : Type 0) : Type 0 where
  returns : ℤ → Script S
  traps : Exn → Script S
  computes : (S → S) → (S → Script S) → Script S
  asks : ℤ → ℤ → List ℤ → (ℤ → Script S) → Script S
  prints : ℤ → Script S → Script S
  aborts : ℤ → Script S → Script S

-- A module with its Store. `code` gives each call of an export its script. What a host function
-- raises comes out of wasmtime inside the exceptions that `wrapping` lists, and a call that finds the
-- stack full raises `exhausted`.
pub record Guest : Type 1 where
  pub State : Type 0
  pub exports : Dict Extern
  pub memory_len : State → ℕ
  pub memory_read : ℤ → ℤ → State → Result Bytes
  pub memory_write : ℤ → Bytes → State → Result (Unit {0}) × State
  pub store_set_epoch_deadline : ℕ → State → State
  pub store_close : State → State
  pub code : String → List ℤ → Script State
  pub wrapping : Exn → List Kind
  pub exhausted : Exn

-- The dispatch that the constructor of an instance hands to `create_runtime`.
abbrev pub Dispatch : Type 0 → Type 0
Dispatch S = ℤ → ℤ → List ℤ → Exec S ℤ

-- A call of the guest, of whichever functions `calls` runs.
abbrev pub runtime_over : (g : Guest) → (String → List ℤ → Exec g.State ℤ) → Runtime
runtime_over g calls = record {
  State = g.State;
  exports = g.exports;
  memory_len = g.memory_len;
  memory_read = g.memory_read;
  memory_write = g.memory_write;
  call = calls;
  store_set_epoch_deadline = g.store_set_epoch_deadline;
  store_close = g.store_close;
}

module _ (wrapping : Exn → List Kind) where
  -- What a host function raises, as the guest's caller sees it: an `Exception` comes wrapped.
  abbrev pub crossing : Exn → Exn
  crossing e = if is_exception (kind_of e) then wrapped (wrapping e) e else e

  abbrev pub from_host {ℓ} : {S : Type 0} {A : Type ℓ} → Exec S A → Exec S A
  from_host m = catch m λ e. rethrow (crossing e)

module _ (decode : Bytes → String) (wrapping : Exn → List Kind) (rt : Runtime)
    (dispatch : Option (Dispatch rt.State)) where
  -- Runs a script with the host functions of runtime.py.
  unfoldable pub run : Script rt.State → Exec rt.State ℤ
  run (returns n) = pure n
  run (traps e) = rethrow e
  run (computes f next) = λ s. run (next (f s)) (f s)
  run (asks builtin_id ctx args next) =
      from_host wrapping (opa_builtin dispatch builtin_id ctx args) >>= λ n. run (next n)
  run (prints addr next) = from_host wrapping (opa_println decode rt addr) >>= λ _. run next
  run (aborts addr next) = from_host wrapping (opa_abort decode rt addr) >>= λ _. run next

module _ (decode : Bytes → String) (host : Host) (limits : Limits) (ids : Dict ℤ)
    (snapshot : Dict Callable) (g : Guest) where
  -- `self._dispatch_builtin`, bound to the codec of the runtime that it serves.
  abbrev pub bound_dispatch : (rt : Runtime) → Dispatch rt.State
  bound_dispatch rt builtin_id ctx arg_addrs =
      dispatch_builtin host rt limits ids snapshot builtin_id arg_addrs

  -- Calls of the guest with room for `depth` of them on the stack: while a call runs, the dispatch
  -- calls the same guest with one place less.
  unfoldable pub call_at : ℕ → String → List ℤ → Exec g.State ℤ
  call_at zero name args = rethrow g.exhausted
  call_at (suc depth) name args =
      let rt = runtime_over g (call_at depth) in
      run decode g.wrapping rt (some (bound_dispatch rt)) (g.code name args)

  -- The runtime of the instance, which `create_runtime` was given the dispatch for.
  abbrev pub runtime_at : ℕ → Runtime
  runtime_at depth = runtime_over g (call_at depth)
