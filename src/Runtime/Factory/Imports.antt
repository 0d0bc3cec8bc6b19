-- ===== src/Runtime/Factory/Imports.antt =====
-- Which modules the factory accepts, and which host functions they get.
use opa_py_wasm.Base.{
  String, ◌≡◌, refl, ◌∙◌, ap, ◌⊎◌, inl, inr, false, Option, none, some, List, [], ◌∷◌, ◌++◌, arith,
  if◌then◌else◌, str_eq, eq_iff, Bool-cases,
}
use opa_py_wasm.Base.Int.{ℤ}
use opa_py_wasm.Errors.{kind_of, opa, invalid_policy, kind_of-fresh, kind_of-raise_saying}
use opa_py_wasm.Result.{Result, ok, raised, then_result}
use opa_py_wasm.Types.{Bytes}
use opa_py_wasm.Runtime.Factory.{
  ImportType, memory_type, other_type, Import, Compiled, compiled, wasmtime_error, other_error,
  env_module, memory_import, import_type, checked_memory, validate_required_env_imports, Factory,
  is_empty, compiled_imports, init, HostFunction, is_declared, define_func, define_builtins,
  register_env_imports,
}

-- What a factory was made of, and why none was made.
abbrev pub WasCompiled : (Bytes → Compiled) → Bytes → Option ℤ → Result Factory → Type 0
WasCompiled compile wasm_bytes pages (ok f) =
    (is_empty wasm_bytes ≡ false)
    × (compile wasm_bytes ≡ compiled f.imports)
    × (import_type env_module memory_import f.imports ≡ some memory_type)
    × (f.max_memory_pages ≡ pages)
WasCompiled compile wasm_bytes pages (raised e) =
    (kind_of e ≡ opa invalid_policy) ⊎ (compile wasm_bytes ≡ other_error e)

module _ (compile : Bytes → Compiled) (wasm_bytes : Bytes) (pages : Option ℤ)
    (given : is_empty wasm_bytes ≡ false) where
  checked_WasCompiled :
      (imports : List Import) (t : Option ImportType)
      → compile wasm_bytes ≡ compiled imports
      → import_type env_module memory_import imports ≡ t
      → WasCompiled compile wasm_bytes pages (
          then_result
            (checked_memory t)
            λ _. ok (record { imports = imports; max_memory_pages = pages }))
  checked_WasCompiled imports (some memory_type) c t = (given, c, t, refl)
  checked_WasCompiled imports (some other_type) c t = inl (kind_of-fresh (opa invalid_policy))
  checked_WasCompiled imports none c t = inl (kind_of-fresh (opa invalid_policy))

  compiled_WasCompiled :
      (c : Compiled)
      → compile wasm_bytes ≡ c
      → WasCompiled compile wasm_bytes pages (
          then_result (compiled_imports c) λ imports.
            then_result
              (validate_required_env_imports imports)
              λ _. ok (record { imports = imports; max_memory_pages = pages }))
  unfolding validate_required_env_imports
  compiled_WasCompiled (compiled imports) c =
      checked_WasCompiled imports (import_type env_module memory_import imports) c refl
  compiled_WasCompiled (wasmtime_error e) c = inl (kind_of-raise_saying (opa invalid_policy) "" e)
  compiled_WasCompiled (other_error e) c = inr c

-- A factory is only made of bytes that are not empty, that wasmtime compiles, and whose module
-- imports `env.memory` as a memory, by the last import of that name; it keeps the module and the
-- limit. Whatever else is raised is `OpaInvalidPolicyError`, or what is no error of wasmtime.
pub init-WasCompiled :
    (compile : Bytes → Compiled) (wasm_bytes : Bytes) (pages : Option ℤ)
    → WasCompiled compile wasm_bytes pages (init compile wasm_bytes pages)
unfolding init
init-WasCompiled compile wasm_bytes pages = elim (Bool-cases (is_empty wasm_bytes)) [
  | inl e ↦ rw e (inl (kind_of-fresh (opa invalid_policy)))
  | inr e ↦ rw e (compiled_WasCompiled compile wasm_bytes pages e (compile wasm_bytes) refl)
]

-- The host functions of the OPA ABI, as its documentation lists them.
abbrev pub all_functions : List HostFunction
all_functions =
    record { name = "opa_abort"; params = "i32" ∷ []; results = [] }
    ∷ record { name = "opa_println"; params = "i32" ∷ []; results = [] }
    ∷ record { name = "opa_builtin0"; params = "i32" ∷ "i32" ∷ []; results = "i32" ∷ [] }
    ∷ record { name = "opa_builtin1"; params = "i32" ∷ "i32" ∷ "i32" ∷ []; results = "i32" ∷ [] }
    ∷ record {
      name = "opa_builtin2";
      params = "i32" ∷ "i32" ∷ "i32" ∷ "i32" ∷ [];
      results = "i32" ∷ [];
    }
    ∷ record {
      name = "opa_builtin3";
      params = "i32" ∷ "i32" ∷ "i32" ∷ "i32" ∷ "i32" ∷ [];
      results = "i32" ∷ [];
    }
    ∷ record {
      name = "opa_builtin4";
      params = "i32" ∷ "i32" ∷ "i32" ∷ "i32" ∷ "i32" ∷ "i32" ∷ [];
      results = "i32" ∷ [];
    }
    ∷ []

abbrev pub function_named : String → List HostFunction → Option HostFunction
function_named name [] = none
function_named name (f ∷ fs) = if str_eq f.name name then some f else function_named name fs

define_all : List Import → List HostFunction → List HostFunction
define_all imports [] = []
define_all imports (f ∷ fs) = define_func imports f ++ define_all imports fs

registers_all :
    (imports : List Import) → register_env_imports imports ≡ define_all imports all_functions
unfolding register_env_imports define_builtins define_all
registers_all imports = refl

function_named-define_all :
    (name : String) (imports : List Import) (fs : List HostFunction)
    → function_named name (define_all imports fs)
      ≡ (if is_declared name imports then function_named name fs else none)
unfolding define_all
function_named-define_all name imports [] = ground arith
function_named-define_all name imports (f ∷ fs) = elim (Bool-cases (str_eq f.name name)) [
  | inl e ↦
      let same : is_declared f.name imports ≡ is_declared name imports =
        ap (λ n. is_declared n imports) ((eq_iff f.name name).0 e) in
      ground (arith, function_named-define_all name imports fs)
  | inr e ↦ ground (arith, function_named-define_all name imports fs)
]

-- Of the host functions of the ABI, a module gets exactly those that it declares, at the types that
-- the ABI gives them, and nothing else.
pub register_env_imports_lem :
    (name : String) (imports : List Import)
    → function_named name (register_env_imports imports)
      ≡ (if is_declared name imports then function_named name all_functions else none)
register_env_imports_lem name imports =
    ap (function_named name) (registers_all imports)
    ∙ function_named-define_all name imports all_functions
