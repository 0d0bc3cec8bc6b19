-- ===== src/Data.antt =====
-- opapywasm/data.py, `DataManager`: the data document of one instance and the heap checkpoints.
pub mod Checkpoint
use opa_py_wasm.Base.{String, Bool, true, false, Option, none, some, if◌then◌else◌}
use opa_py_wasm.Base.Int.{ℤ, pos}
use opa_py_wasm.Errors.{Kind, Exn, kind_of, is_exception, raise_from, opa, data_error}
use opa_py_wasm.Result.{Result, ok, raised, Exec, pure, gets, modify, rethrow, catch, ◌>>=◌, ◌>>◌}
use opa_py_wasm.Types.{Value, null, Host}
use opa_py_wasm.Runtime.{Runtime}
use opa_py_wasm.Abi
use opa_py_wasm.Memory

-- The object's fields, with the Wasm store that it drives.
pub record Manager (rt : Runtime) : Type 0 where
  pub store : rt.State
  pub initial_heap_ptr : ℤ
  pub data_addr : ℤ
  pub data_heap_ptr : ℤ

-- _NO_DATA_ADDR
abbrev pub no_data_addr : ℤ
no_data_addr = pos 0

abbrev pub is_data_error : Kind → Bool
is_data_error (opa data_error) = true
is_data_error _ = false

module _ (rt : Runtime) where
  -- A call on the store, from a method of the manager.
  unfoldable pub on_store {ℓ} : {A : Type ℓ} → Exec rt.State A → Exec (Manager rt) A
  on_store m d = let (r, s) = m d.store in (r, record d { store = s })

  -- DataManager.__init__, on the store alone.
  unfoldable pub init : rt.State → Result (Manager rt) × rt.State
  init = do
    ptr ← Abi.opa_heap_ptr_get rt
    λ s. (
      ok (record {
        store = s;
        initial_heap_ptr = ptr;
        data_addr = no_data_addr;
        data_heap_ptr = ptr;
      }),
      s,
    )

  unfoldable pub reset_heap_to_checkpoint : Exec (Manager rt) (Unit {0})
  reset_heap_to_checkpoint d = on_store (Abi.opa_heap_ptr_set rt d.data_heap_ptr) d

  abbrev pub reset_to_initial : Exec (Manager rt) (Unit {0})
  reset_to_initial d = on_store (Abi.opa_heap_ptr_set rt d.initial_heap_ptr) d

  abbrev pub forget_data : Exec (Manager rt) (Unit {0})
  forget_data =
      modify λ d. record d { data_addr = no_data_addr; data_heap_ptr = d.initial_heap_ptr }

  -- The `except Exception` of `load_data`: no data rather than a half-loaded heap.
  abbrev pub load_failed : Exn → Exec (Manager rt) ℤ
  load_failed e =
      if is_exception (kind_of e)
      then (do
        reset_to_initial
        forget_data
        rethrow (if is_data_error (kind_of e) then e else raise_from (opa data_error) e))
      else rethrow e

module _ (host : Host) (rt : Runtime) (max_data_bytes : ℤ) where
  -- The branch of `load_data` for a document.
  unfoldable pub load_document : Value → Exec (Manager rt) (Unit {0})
  load_document value = do
    addr ←
        catch (on_store rt (Memory.python_to_opa_value host rt value max_data_bytes true))
          (load_failed rt)
    modify (λ d. record d { data_addr = addr })
    ptr ← on_store rt (Abi.opa_heap_ptr_get rt)
    modify (λ d. record d { data_heap_ptr = ptr })

  abbrev pub loaded : Value → Exec (Manager rt) (Unit {0})
  loaded null = forget_data rt
  loaded value = load_document value

  -- `None` clears the document.
  unfoldable pub load_data : Value → Exec (Manager rt) (Unit {0})
  load_data value = do reset_to_initial rt; loaded value
