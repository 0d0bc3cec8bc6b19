-- ===== src/Runtime/Factory.antt =====
-- opapywasm/runtime.py, `WasmtimeRuntimeFactory`: what makes a module acceptable, and what
-- `_register_env_imports` defines for it. The compiler of wasmtime is a parameter.
pub mod Imports
use opa_py_wasm.Base.{
  ℕ, String, Bool, true, false, ◌&&◌, Option, none, some, List, [], ◌∷◌, ◌++◌, if◌then◌else◌,
  str_eq, replicate,
}
use opa_py_wasm.Base.Int.{ℤ}
use opa_py_wasm.Errors.{Exn, fresh, raise_from, opa, invalid_policy}
use opa_py_wasm.Result.{Result, ok, raised, then_result}
use opa_py_wasm.Types.{Bytes}

-- What a module imports: a memory, or something else.
pub data ImportType : Type 0 where
  memory_type : ImportType
  other_type : ImportType

pub record Import : Type 0 where
  pub namespace : String
  pub name : String
  pub type : ImportType

-- `Module.validate` and `Module`: the imports of the compiled module, a `WasmtimeError`, or another
-- exception.
pub data Compiled : Type 0 where
  compiled : List Import → Compiled
  wasmtime_error : Exn → Compiled
  other_error : Exn → Compiled

-- _ENV_MODULE
abbrev pub env_module : String
env_module = "env"

-- _MEMORY_IMPORT
abbrev pub memory_import : String
memory_import = "memory"

-- _BUILTIN_IMPORTS, the arity by the name.
abbrev pub builtin_imports : List (String × ℕ)
builtin_imports =
    ("opa_builtin0", 0)
    ∷ ("opa_builtin1", 1)
    ∷ ("opa_builtin2", 2)
    ∷ ("opa_builtin3", 3)
    ∷ ("opa_builtin4", 4)
    ∷ []

abbrev pub is_import : String → String → Import → Bool
is_import namespace name i = str_eq i.namespace namespace && str_eq i.name name

abbrev or_this : Option ImportType → Bool → ImportType → Option ImportType
or_this (some t) same type = some t
or_this none same type = if same then some type else none

-- `{(imp.module, imp.name): imp}`, looked up: of two imports of one name the later one counts.
unfoldable pub import_type : String → String → List Import → Option ImportType
import_type namespace name [] = none
import_type namespace name (i ∷ is) =
    or_this (import_type namespace name is) (is_import namespace name i) i.type

abbrev pub checked_memory : Option ImportType → Result (Unit {0})
checked_memory (some memory_type) = ok tt
checked_memory _ = raised (fresh (opa invalid_policy))

unfoldable pub validate_required_env_imports : List Import → Result (Unit {0})
validate_required_env_imports imports =
    checked_memory (import_type env_module memory_import imports)

-- What the factory keeps.
pub record Factory : Type 0 where
  pub imports : List Import
  pub max_memory_pages : Option ℤ

abbrev pub is_empty : Bytes → Bool
is_empty [] = true
is_empty (b ∷ bs) = false

abbrev pub compiled_imports : Compiled → Result (List Import)
compiled_imports (compiled imports) = ok imports
compiled_imports (wasmtime_error e) = raised (raise_from (opa invalid_policy) e)
compiled_imports (other_error e) = raised e

-- WasmtimeRuntimeFactory.__init__
unfoldable pub init : (Bytes → Compiled) → Bytes → Option ℤ → Result Factory
init compile wasm_bytes max_memory_pages =
    if is_empty wasm_bytes
    then raised (fresh (opa invalid_policy))
    else (then_result (compiled_imports (compile wasm_bytes)) λ imports.
        then_result (validate_required_env_imports imports)
          λ _. ok (record { imports = imports; max_memory_pages = max_memory_pages }))

-- A function that the linker gets: its name and types. All are of the namespace `env`.
pub record HostFunction : Type 0 where
  pub name : String
  pub params : List String
  pub results : List String

-- `(_ENV_MODULE, name) in declared`
unfoldable pub is_declared : String → List Import → Bool
is_declared name [] = false
is_declared name (i ∷ is) = if is_import env_module name i then true else is_declared name is

abbrev pub i32 : String
i32 = "i32"

-- `define_func`, which passes over what the module does not declare.
abbrev pub define_func : List Import → HostFunction → List HostFunction
define_func imports f = if is_declared f.name imports then f ∷ [] else []

abbrev pub builtin_function : String × ℕ → HostFunction
builtin_function (name, arity) = record {
  name = name;
  params = i32 ∷ i32 ∷ replicate arity i32;
  results = i32 ∷ [];
}

unfoldable pub define_builtins : List Import → List (String × ℕ) → List HostFunction
define_builtins imports [] = []
define_builtins imports (b ∷ bs) =
    define_func imports (builtin_function b) ++ define_builtins imports bs

-- `_register_env_imports`: the functions that are defined next to `env.memory`.
unfoldable pub register_env_imports : List Import → List HostFunction
register_env_imports imports =
    define_func imports (record { name = "opa_abort"; params = i32 ∷ []; results = [] })
    ++ (define_func imports (record { name = "opa_println"; params = i32 ∷ []; results = [] })
        ++ define_builtins imports builtin_imports)
