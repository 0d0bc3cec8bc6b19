-- ===== src/Instance/Guest/Raised.antt =====
-- What a call of a guest that calls the host back may raise.
use opa_py_wasm.Base.{ℕ, zero, suc, String, ◌≡◌, refl, ◌⊎◌, inl, inr, some, List, Bool-cases}
use opa_py_wasm.Base.Int.{ℤ, ◌+ℤ◌}
use opa_py_wasm.Base.Dict.{Dict}
use opa_py_wasm.Errors.{Kind, Exn, kind_of, is_exception, opa, abort, builtin, IfException}
use opa_py_wasm.Result.{Result, ok, raised, then_result, Exec}
use opa_py_wasm.Result.Raises.{
  RaisedOnly, Raises, Raises-pure, Raises-rethrow, Raises-bind, Raises-catch,
}
use opa_py_wasm.Types.{Bytes, Host}
use opa_py_wasm.Runtime.{Runtime}
use opa_py_wasm.Runtime.Callbacks.{
  message_limit, saying, lenient, read_cstring_lenient, opa_abort, opa_println, opa_builtin,
}
use opa_py_wasm.Memory.{Limits}
use opa_py_wasm.Instance.{Callable}
use opa_py_wasm.Instance.Dispatch.{BuiltinErrorsOnly, dispatch_builtin-only}
use opa_py_wasm.Instance.Guest.{
  Script, returns, traps, computes, asks, prints, aborts, Guest, Dispatch, runtime_over, crossing,
  from_host, run, bound_dispatch, call_at,
}

-- Every trap that the script may end in meets `P`.
abbrev pub TrapsAre : {S : Type 0} → (Exn → Type 0) → Script S → Type 0
TrapsAre P (returns n) = Unit
TrapsAre P (traps e) = P e
TrapsAre P (computes f next) = (s : _) → TrapsAre P (next s)
TrapsAre P (asks builtin_id ctx args next) = (n : ℤ) → TrapsAre P (next n)
TrapsAre P (prints addr next) = TrapsAre P next
TrapsAre P (aborts addr next) = TrapsAre P next

-- The two errors that the host functions raise.
abbrev pub IsHostError : Exn → Type 0
IsHostError b = IfException b ((kind_of b ≡ opa builtin) ⊎ (kind_of b ≡ opa abort))

-- A trap of the guest, or what a host function raised, as it comes out of wasmtime.
abbrev pub IsOfCall : (Exn → List Kind) → (Exn → Type 0) → Exn → Type 0
IsOfCall wrapping P e = P e ⊎ ((b : Exn) × (e ≡ crossing wrapping b) × IsHostError b)

kind_of-saying : (k : Kind) (text : String) → kind_of (saying k text) ≡ k
unfolding kind_of saying
kind_of-saying k text = refl

module _ (decode : Bytes → String) (rt : Runtime) where
  lenient-only :
      (r : Result Bytes) (message : String → Result (Unit {0}))
      → ((text : String) → RaisedOnly IsHostError (message text))
      → RaisedOnly IsHostError (then_result (lenient decode rt r) message)
  lenient-only (ok raw) message h = h (decode _)
  lenient-only (raised e) message h = elim (Bool-cases (is_exception (kind_of e))) [
    | inl x ↦ rw x (h _)
    | inr x ↦ rw x (inl x)
  ]

  opa_abort-only : (addr : ℤ) → Raises IsHostError (opa_abort decode rt addr)
  unfolding opa_abort read_cstring_lenient
  opa_abort-only addr = record {
    at = λ s.
        lenient-only (rt.memory_read addr (addr +ℤ message_limit) s)
          (λ text. raised (saying (opa abort) text))
          λ text. inr (inr (kind_of-saying (opa abort) text));
  }

  opa_println-only : (addr : ℤ) → Raises IsHostError (opa_println decode rt addr)
  unfolding opa_println read_cstring_lenient
  opa_println-only addr = record {
    at = λ s.
        lenient-only (rt.memory_read addr (addr +ℤ message_limit) s) (λ text. ok tt) λ text. tt;
  }

builtin_error_of {ℓ} : {A : Type ℓ} (r : Result A) → BuiltinErrorsOnly r → RaisedOnly IsHostError r
builtin_error_of (ok a) h = tt
builtin_error_of (raised e) h = elim h [ inl x ↦ inl x | inr b ↦ inr (inl b) ]

module _ (wrapping : Exn → List Kind) (P : Exn → Type 0) where
  from_host-only {ℓ} :
      {S : Type 0} {A : Type ℓ} (m : Exec S A)
      → Raises IsHostError m
      → Raises (IsOfCall wrapping P) (from_host wrapping m)
  from_host-only m h =
      Raises-catch m _ h λ e k. Raises-rethrow (crossing wrapping e) (inr (e, refl, k))

  module _ (decode : Bytes → String) (rt : Runtime) (dispatch : Dispatch rt.State)
      (dispatch-only : (builtin_id ctx : ℤ) (args : List ℤ)
        → Raises IsHostError (dispatch builtin_id ctx args)) where
    run-only :
        (script : Script rt.State)
        → TrapsAre P script
        → Raises (IsOfCall wrapping P) (run decode wrapping rt (some dispatch) script)
    unfolding run opa_builtin
    run-only (returns n) h = Raises-pure n
    run-only (traps e) h = Raises-rethrow e (inl h)
    run-only (computes f next) h = record { at = λ s. (run-only (next (f s)) (h (f s))).at (f s) }
    run-only (asks builtin_id ctx args next) h =
        Raises-bind _ _ (from_host-only _ (dispatch-only builtin_id ctx args))
          λ n. run-only (next n) (h n)
    run-only (prints addr next) h =
        Raises-bind _ _ (from_host-only _ (opa_println-only decode rt addr)) λ _. run-only next h
    run-only (aborts addr next) h =
        Raises-bind _ _ (from_host-only _ (opa_abort-only decode rt addr)) λ _. run-only next h

module _ (decode : Bytes → String) (host : Host) (limits : Limits) (ids : Dict ℤ)
    (snapshot : Dict Callable) (g : Guest) where
  pub call_at-only :
      (P : Exn → Type 0) (depth : ℕ) (name : String) (args : List ℤ)
      → P g.exhausted
      → TrapsAre P (g.code name args)
      → Raises (IsOfCall g.wrapping P) (call_at decode host limits ids snapshot g depth name args)
  unfolding call_at
  call_at-only P zero name args x h = Raises-rethrow g.exhausted (inl x)
  call_at-only P (suc depth) name args x h =
      let rt = runtime_over g (call_at decode host limits ids snapshot g depth) in
      run-only g.wrapping P decode rt (bound_dispatch decode host limits ids snapshot g rt)
        (λ builtin_id ctx arg_addrs. record {
          at = λ s.
              builtin_error_of _
                (dispatch_builtin-only host rt limits ids snapshot builtin_id arg_addrs s);
        })
        (g.code name args) h
