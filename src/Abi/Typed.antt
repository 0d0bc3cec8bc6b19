-- ===== src/Abi/Typed.antt =====
-- That the wrappers around the exports call them with as many arguments as their types say.
use opa_py_wasm.Base.{
  ◌≡◌, refl, String, Bool, true, false, Option, some, List, if◌then◌else◌, ◌==◌, length, ap, ◌∙◌,
}
use opa_py_wasm.Base.Dict.{get}
use opa_py_wasm.Base.Int.{ℤ}
use opa_py_wasm.Errors.{fresh, type_error}
use opa_py_wasm.Result.{Result, ok, raised, continue, ◌>>=◌}
use opa_py_wasm.Runtime.{Runtime, Extern, func, get_func-at}
use opa_py_wasm.Abi.{
  OpaAbi, default_spec, expected_signatures, bind, call, opa_malloc, opa_free, opa_json_parse,
  opa_json_dump, opa_heap_ptr_get, opa_heap_ptr_set, entrypoints, builtins, opa_eval,
}
use opa_py_wasm.Abi.Conforms.{bind_iff}

-- Whether an export is a function of as many parameters.
abbrev takes : Option Extern → List ℤ → Bool
takes (some (func params results)) args = length params == length args
takes _ args = false

-- A runtime that refuses every other call.
abbrev pub checked : Runtime → Runtime
checked rt = record rt {
  call = λ name args s.
      if takes (get name rt.exports) args
      then rt.call name args s
      else (raised (fresh type_error), s);
}

module _ (rt : Runtime) (s : rt.State) where
  call_fits :
      (name : String) (args : List ℤ) {params results : List String}
      → get name rt.exports ≡ some (func params results)
      → (length params == length args) ≡ true
      → call (checked rt) name args s ≡ call rt name args s
  unfolding call ◌>>=◌
  call_fits name args at fits =
      let found : takes (get name rt.exports) args ≡ true = ap (λ o. takes o args) at ∙ fits in
      rw (get_func-at name rt.exports at, found) refl

  -- The result of a call, dropped.
  abbrev without_result : Result ℤ × rt.State → Result (Unit {0}) × rt.State
  without_result (r, t) = continue r (λ _ u. (ok tt, u)) t

  -- On a module that binds, every wrapper behaves on a runtime that refuses a call with another number
  -- of arguments than the type of the export has, and a call of what is no function, as on the runtime
  -- itself: the program makes no such call.
  pub wrappers_fit :
      (a : OpaAbi) (i j k l m : ℤ)
      → bind default_spec rt.exports ≡ ok a
      → (opa_malloc (checked rt) i s ≡ opa_malloc rt i s)
        × (opa_free (checked rt) i s ≡ opa_free rt i s)
        × (opa_json_parse (checked rt) i j s ≡ opa_json_parse rt i j s)
        × (opa_json_dump (checked rt) i s ≡ opa_json_dump rt i s)
        × (opa_heap_ptr_get (checked rt) s ≡ opa_heap_ptr_get rt s)
        × (opa_heap_ptr_set (checked rt) i s ≡ opa_heap_ptr_set rt i s)
        × (entrypoints (checked rt) s ≡ entrypoints rt s)
        × (builtins (checked rt) s ≡ builtins rt s)
        × (opa_eval (checked rt) i j k l m s ≡ opa_eval rt i j k l m s)
  unfolding opa_malloc opa_free opa_json_parse opa_json_dump opa_heap_ptr_get opa_heap_ptr_set
      entrypoints builtins opa_eval ◌>>=◌ expected_signatures
  wrappers_fit a i j k l m bound =
      let (minor, version, enough, functions) = (bind_iff rt.exports).0 (a, bound) in
      (
        call_fits "opa_malloc" _ functions.0 refl,
        ap without_result (call_fits "opa_free" _ functions.1.0 refl),
        call_fits "opa_json_parse" _ functions.1.1.0 refl,
        call_fits "opa_json_dump" _ functions.1.1.1.0 refl,
        call_fits "opa_heap_ptr_get" _ functions.1.1.1.1.0 refl,
        ap without_result (call_fits "opa_heap_ptr_set" _ functions.1.1.1.1.1.0 refl),
        call_fits "entrypoints" _ functions.1.1.1.1.1.1.0 refl,
        call_fits "builtins" _ functions.1.1.1.1.1.1.1.0 refl,
        call_fits "opa_eval" _ functions.1.1.1.1.1.1.1.1.0 refl,
      )
