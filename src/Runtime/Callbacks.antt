-- ===== src/Runtime/Callbacks.antt =====
-- opapywasm/runtime.py, what the guest calls: `opa_abort`, `opa_println` and `opa_builtinN`, and the
-- lenient read of their messages. `decode` is `bytes.decode("utf-8", errors="replace")`.
pub mod Messages
use opa_py_wasm.Base.{
  String, Bool, true, false, Option, none, some, List, [], ◌∷◌, if◌then◌else◌, take,
}
use opa_py_wasm.Base.Int.{ℤ, pos, ◌+ℤ◌}
use opa_py_wasm.Errors.{Kind, Exn, ExnObject, fresh, kind_of, is_exception, opa, abort, builtin}
use opa_py_wasm.Result.{Result, ok, raised, then_result, Exec}
use opa_py_wasm.Types.{Bytes}
use opa_py_wasm.Runtime.{Runtime}
use opa_py_wasm.Memory.{find_nul}

-- The limit of `_read_cstring_lenient`.
abbrev pub message_limit : ℤ
message_limit = pos 4096

-- The text in place of a message that cannot be read, without the address.
abbrev pub unreadable : String
unreadable = "<unreadable message>"

-- `data[:nul] if nul != -1 else data`
unfoldable pub up_to_nul : Bytes → Bytes
up_to_nul raw = elim (find_nul raw) [ some n ↦ take n raw | none ↦ raw ]

-- A new exception with a message.
unfoldable pub saying : Kind → String → Exn
saying k text = record {
  objects = record { kind = k; text = text; cause = none; context = none } ∷ [];
  root = 0;
}

module _ (decode : Bytes → String) (rt : Runtime) where
  abbrev pub lenient : Result Bytes → Result String
  lenient (ok raw) = ok (decode (up_to_nul raw))
  lenient (raised e) = if is_exception (kind_of e) then ok unreadable else raised e

  -- _read_cstring_lenient
  unfoldable pub read_cstring_lenient : ℤ → Exec rt.State String
  read_cstring_lenient addr s = (lenient (rt.memory_read addr (addr +ℤ message_limit) s), s)

  -- The function that `_make_opa_abort` makes: it reads its message, and raises.
  unfoldable pub opa_abort : ℤ → Exec rt.State (Unit {0})
  opa_abort addr s =
      let (r, t) = read_cstring_lenient addr s in
      (then_result r (λ message. raised (saying (opa abort) message)), t)

  -- The function that `_make_opa_println` makes. What it logs is left out.
  unfoldable pub opa_println : ℤ → Exec rt.State (Unit {0})
  opa_println addr s =
      let (r, t) = read_cstring_lenient addr s in (then_result r (λ message. ok tt), t)

-- The function that `_make_opa_builtin` makes: it hands the call to the dispatch, if there is one.
unfoldable pub opa_builtin :
    {S : Type 0} → Option (ℤ → ℤ → List ℤ → Exec S ℤ) → ℤ → ℤ → List ℤ → Exec S ℤ
opa_builtin none builtin_id ctx args s = (raised (fresh (opa builtin)), s)
opa_builtin (some dispatch) builtin_id ctx args s = dispatch builtin_id ctx args s
