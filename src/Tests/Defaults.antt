-- ===== src/Tests/Defaults.antt =====
-- Runs of the default builtins, and of the construction of a policy.
use opa_py_wasm.Base.{
  ℕ, ◌≡◌, refl, ap, none, some, List, [], ◌∷◌, ◌++◌, if◌then◌else◌, leb, length, str_eq,
}
use opa_py_wasm.Base.Int.{ℤ, pos}
use opa_py_wasm.Errors.{fresh, kind_of, value_error, type_error}
use opa_py_wasm.Result.{Result, ok, raised, ◌>>=◌}
use opa_py_wasm.Types.{Host, Value, int, dict, field, end, default_config}
use opa_py_wasm.Abi.{default_spec}
use opa_py_wasm.Builtins.Sprintf
use opa_py_wasm.Builtins.Sprintf.{Text, chars, Match, matches, Formats, sprintf_text}
use opa_py_wasm.Builtins.Sprintf.Scan.{IsCutOf, matches-IsCut}
use opa_py_wasm.Builtins.Sprintf.Fill.{consuming, IsAnswer, sprintf_text-IsAnswer}
use opa_py_wasm.Builtins.Sprintf.Escaped.{escaped, sprintf_text-escaped}
use opa_py_wasm.Builtins.Defaults.{Library}
use opa_py_wasm.Runtime
use opa_py_wasm.Abi
use opa_py_wasm.Memory
use opa_py_wasm.Data
use opa_py_wasm.Evaluator
use opa_py_wasm.Instance
use opa_py_wasm.Policy
use opa_py_wasm.Policy.Construction.{construct, new_scaffold}
use opa_py_wasm.Policy.Construction.Teardown.{WasMade, construct-WasMade}
use opa_py_wasm.Base.Dict.{Dict, get}
use opa_py_wasm.Policy.Pooled.{Served, new_served, evaluate_raw}
use opa_py_wasm.Policy.Pooled.Healthy.{exits}
use opa_py_wasm.Policy.Pooled.Kept.{IsSound}
use opa_py_wasm.Policy.Pooled.Calls.{begin, evaluated, Reaches-IsSound}
use opa_py_wasm.Tests.Guest.{Guest, toy_host, toy, toy_guest, toy_HeapLaws}

-- Every value prints as `7`, and `verb % operand` raises `TypeError`.
abbrev toy_formats : Formats
toy_formats = record {
  dumps_spaced = λ v. ok (chars "7");
  dumps = λ v. ok (chars "'7'");
  to_str = λ v. ok (chars "7");
  interpolate = λ verb v. raised (fresh type_error);
}

abbrev a_format : Text
a_format = chars "a%5d 100%% %v%"

abbrev two_operands : List Value
two_operands = int (pos 7) ∷ int (pos 7) ∷ []

-- A literal `%` at the end is no directive.
scanned : matches a_format ≡ (
  record { before = chars "a"; verb = chars "%5d" }
      ∷ record { before = chars " 100"; verb = chars "%%" }
      ∷ record { before = chars " "; verb = chars "%v" }
      ∷ [],
  chars "%",
)
unfolding Sprintf.finditer Sprintf.search Sprintf.match_verb Sprintf.flags_and_verb Sprintf.is_verb
    Sprintf.is_flag
scanned = refl

printed : sprintf_text toy_formats a_format two_operands ≡ ok (chars "a7 100% 7%")
unfolding sprintf_text Sprintf.fill Sprintf.finditer Sprintf.search Sprintf.match_verb
    Sprintf.flags_and_verb Sprintf.is_verb Sprintf.is_flag Sprintf.format_verb Sprintf.last_of
    Sprintf.formatted Sprintf.default_format kind_of fresh
printed = refl

matches-IsCut_example : IsCutOf a_format (matches a_format)
matches-IsCut_example = matches-IsCut a_format

sprintf_text-IsAnswer_example :
    IsAnswer toy_formats
      (leb (consuming (matches a_format).0) (length two_operands))
      (sprintf_text toy_formats a_format two_operands)
      (sprintf_text toy_formats a_format (two_operands ++ int (pos 9) ∷ []))
sprintf_text-IsAnswer_example =
    sprintf_text-IsAnswer toy_formats a_format two_operands (int (pos 9) ∷ [])

sprintf_text-escaped_example :
    sprintf_text toy_formats (escaped (chars "100%d")) [] ≡ ok (chars "100%d")
sprintf_text-escaped_example = sprintf_text-escaped toy_formats (chars "100%d") []

abbrev toy_library : Library
toy_library = record {
  formats = toy_formats;
  loads = λ text. raised (fresh value_error);
  yaml = some (record {
    safe_load = λ text. if str_eq text "" then raised (fresh value_error) else ok (int (pos 7));
    safe_dump = λ v. ok "7";
  });
}

construct-WasMade_example :
    let (r, w) =
      construct toy_host toy default_config default_spec (ok tt) (ok toy_guest) new_scaffold in
    WasMade toy (ok tt) r w
construct-WasMade_example =
    construct-WasMade toy_host toy toy_HeapLaws default_config default_spec (ok tt) (ok toy_guest)

-- Whatever it reads is a map of one name.
abbrev map_host : Host
map_host = record toy_host { loads = λ raw. ok (dict (field "a" (int (pos 0)) end)) }

-- A policy of four slots evaluates once, on an instance that it builds.
abbrev toy_create : ℕ → Result Guest
toy_create n = ok toy_guest

abbrev one_entrypoint : Dict ℤ
one_entrypoint = ("a", pos 0) ∷ []

abbrev after_one : Served toy
after_one =
    (evaluate_raw map_host toy default_config default_spec toy_create (ok tt) one_entrypoint
      (int (pos 7)) none (new_served default_config)).1

evaluates :
    (evaluate_raw map_host toy default_config default_spec toy_create
      (ok tt)
      one_entrypoint
      (int (pos 7))
      none
      (new_served default_config)).0
    ≡ ok (dict (field "a" (int (pos 0)) end))
unfolding evaluate_raw Policy.resolve_entrypoint Policy.has_value Policy.refresh_if_stale
    Instance.build Instance.build_parts Instance.evaluate Instance.on_session
    Instance.deadline_ticks ◌>>=◌ Abi.bind Abi.read_version get Abi.check_version
    Abi.validate_required_exports Abi.default_required Runtime.has_export
    Abi.requires_eval_fast_path Abi.validate_export_signatures Abi.expected_signatures
    Runtime.get_func Runtime.get_export Data.init Data.load_data Data.on_store
    Data.reset_heap_to_checkpoint Abi.call Abi.opa_malloc Abi.memory_len Abi.memory_write
    Abi.memory_read Abi.opa_heap_ptr_get Abi.opa_heap_ptr_set Abi.opa_json_dump Abi.opa_json_parse
    Abi.builtins Abi.opa_eval Memory.decode_builtins Memory.decode_str_int_map
    Memory.opa_value_to_python Memory.read_json_cstring Memory.read_cstring Memory.scan
    Memory.find_nul Memory.check_pointer Memory.check_range Memory.write_bytes Memory.check_size
    Memory.encode_input Memory.coerce_to_json_bytes Memory.dumps Evaluator.evaluate
    Evaluator.run_guest Evaluator.on_rt Evaluator.on_manager Evaluator.arm_deadline
    Evaluator.disarm_deadline Runtime.set_epoch_deadline Runtime.clear_epoch_deadline
evaluates = refl

Reaches-IsSound_example : IsSound toy toy_HeapLaws 4 after_one
Reaches-IsSound_example =
    Reaches-IsSound map_host toy default_config default_spec toy_create (ok tt) one_entrypoint
      toy_HeapLaws (evaluated (int (pos 7)) none begin (ap exits evaluates))
