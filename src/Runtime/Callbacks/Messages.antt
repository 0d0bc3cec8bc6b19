-- ===== src/Runtime/Callbacks/Messages.antt =====
-- What a guest that aborts makes the host raise.
use opa_py_wasm.Base.{ℕ, ◌+◌, ◌≡◌, refl, String, none, some, [], ◌∷◌, arith, take, slice}
use opa_py_wasm.Base.Int.{pos, ◌+ℤ◌}
use opa_py_wasm.Errors.{opa, abort}
use opa_py_wasm.Result.{ok, raised}
use opa_py_wasm.Types.{Bytes}
use opa_py_wasm.Runtime.{Runtime}
use opa_py_wasm.Memory.{find_nul}
use opa_py_wasm.Memory.Cstring.{MemoryLaws, before_nul}
use opa_py_wasm.Runtime.Callbacks.{up_to_nul, saying, read_cstring_lenient, opa_abort, opa_println}

-- The text up to the first NUL, or all of it.
abbrev pub message_in : Bytes → Bytes
message_in raw = elim (before_nul raw) [ some t ↦ t | none ↦ raw ]

before_nul-found :
    (raw : Bytes)
    → before_nul raw ≡ (elim (find_nul raw) [ none ↦ none | some n ↦ some (take n raw) ])
unfolding find_nul
before_nul-found [] = refl
before_nul-found (b ∷ bs) = ground (arith, before_nul-found bs)

up_to_nul-message_in : (raw : Bytes) → up_to_nul raw ≡ message_in raw
unfolding up_to_nul
up_to_nul-message_in raw = ground (arith, before_nul-found raw)

window_end : (addr : ℕ) → pos addr +ℤ pos 4096 ≡ pos (addr + 4096)
window_end addr = ground arith

-- Where guest memory is a row of bytes: a guest that aborts at an address makes the host raise
-- `OpaAbortError` with the text that stands there, up to the first NUL or to 4096 bytes or to the end
-- of the memory, and never anything else; printing raises nothing. Neither touches the guest.
pub opa_abort_lem :
    (decode : Bytes → String) (rt : Runtime) (laws : MemoryLaws rt) (addr : ℕ) (s : rt.State)
    → let text = decode (message_in (slice addr (addr + 4096) (laws.contents s))) in
      (opa_abort decode rt (pos addr) s ≡ (raised (saying (opa abort) text), s))
      × (opa_println decode rt (pos addr) s ≡ (ok tt, s))
unfolding opa_abort opa_println read_cstring_lenient
opa_abort_lem decode rt laws addr s =
    rw (window_end addr, laws.read_law addr (addr + 4096) s, up_to_nul-message_in) (refl, refl)
