-- ===== src/Runtime.antt =====
-- opapywasm/runtime.py, `WasmtimeRuntime`: one instantiated module. What wasmtime does is the record
-- `Runtime`; the accessors of the class are functions over it.
pub mod Instantiate
pub mod Factory
pub mod Stores
pub mod Epoch
pub mod Callbacks
use opa_py_wasm.Base.{ℕ, ◌^◌, String, Bool, none, some, List, ◌≡◌, refl}
use opa_py_wasm.Base.Int.{ℤ}
use opa_py_wasm.Base.Dict.{Dict, get}
use opa_py_wasm.Errors.{fresh, opa, invalid_policy}
use opa_py_wasm.Errors.Chain.{is_some}
use opa_py_wasm.Result.{Result, ok, raised, Exec}
use opa_py_wasm.Types.{Bytes}

-- The value of a Wasm global, of which the program asks whether it is an integer.
pub data GlobalValue : Type 0 where
  integer : ℤ → GlobalValue
  not_integer : GlobalValue

-- An export: a function with the names of its parameter and result types, a global, or another.
pub data Extern : Type 0 where
  func : List String → List String → Extern
  global : GlobalValue → Extern
  another : Extern

-- wasmtime's objects behind one instance (Store, Memory, Instance), with the host callbacks bound.
-- A call may raise, and gives the state that it leaves then too.
pub record Runtime : Type 1 where
  pub State : Type 0
  pub exports : Dict Extern
  pub memory_len : State → ℕ
  pub memory_read : ℤ → ℤ → State → Result Bytes
  pub memory_write : ℤ → Bytes → State → Result (Unit {0}) × State
  pub call : String → List ℤ → State → Result ℤ × State
  pub store_set_epoch_deadline : ℕ → State → State
  pub store_close : State → State

unfoldable pub has_export : String → Dict Extern → Bool
has_export name exports = is_some (get name exports)

unfoldable pub get_export : String → Dict Extern → Result Extern
get_export name exports = elim (get name exports) [
  | none ↦ raised (fresh (opa invalid_policy))
  | some item ↦ ok item
]

abbrev as_func : Extern → Result (List String × List String)
as_func (func ps rs) = ok (ps, rs)
as_func _ = raised (fresh (opa invalid_policy))

abbrev then_func : Result Extern → Result (List String × List String)
then_func (ok item) = as_func item
then_func (raised e) = raised e

unfoldable pub get_func : String → Dict Extern → Result (List String × List String)
unfolding get_export
get_func name exports = then_func (get_export name exports)

-- An export that is a function is found.
pub get_func-at :
    (name : String) (exports : Dict Extern) {ps rs : List String}
    → get name exports ≡ some (func ps rs)
    → get_func name exports ≡ ok (ps, rs)
unfolding get_func get_export
get_func-at name exports at = rw (at, get_func, get_export) refl

-- _NO_DEADLINE_TICKS
abbrev pub no_deadline_ticks : ℕ
no_deadline_ticks = 2 ^ 40

module _ (rt : Runtime) where
  unfoldable pub set_epoch_deadline : ℕ → Exec rt.State (Unit {0})
  set_epoch_deadline ticks s = (ok tt, rt.store_set_epoch_deadline ticks s)

  unfoldable pub clear_epoch_deadline : Exec rt.State (Unit {0})
  clear_epoch_deadline s = (ok tt, rt.store_set_epoch_deadline no_deadline_ticks s)

  -- `close`, which swallows what the Store's own `close` raises.
  unfoldable pub close : rt.State → rt.State
  close s = rt.store_close s
