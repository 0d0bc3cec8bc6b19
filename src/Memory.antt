-- ===== src/Memory.antt =====
-- opapywasm/memory.py, `MemoryCodec`: Python values to JSON bytes in the memory of one instance, and
-- back. `kind`, which only goes into messages, is left out.
pub mod Cstring
pub mod Buffers
use opa_py_wasm.Base.{
  ℕ, zero, suc, ◌+◌, ◌-◌, min, String, Bool, true, false, ◌||◌, Option, none, some, List, [], ◌∷◌,
  ◌++◌, if◌then◌else◌, ltb, leb, ◌==◌, length, take,
}
use opa_py_wasm.Base.Dict.{Dict, put}
use opa_py_wasm.Base.Int.{ℤ, pos, negsuc, pos_part, ◌+ℤ◌, ltb_ℤ, leb_ℤ}
use opa_py_wasm.Errors.{
  Kind, Exn, fresh, raise_from, kind_of, is_value_error, type_error, opa, memory, invalid_input,
}
use opa_py_wasm.Result.{
  Result, ok, raised, then_result, or_handle, Exec, pure, lift, throw, raise_if, catch, ◌>>=◌, ◌>>◌,
}
use opa_py_wasm.Types.{
  Bytes, Value, str, bytes, null, bool, int, float, list, dict, Fields, end, field, Host,
}
use opa_py_wasm.Runtime.{Runtime}
use opa_py_wasm.Abi

-- The limits of the codec. Its size guards for input and data are passed by its callers.
pub record Limits : Type 0 where
  pub max_result_bytes : ℤ
  pub max_cstring_scan_bytes : ℤ

-- _CSTRING_CHUNK
abbrev pub cstring_chunk : ℕ
cstring_chunk = 4096

-- chunk.find(0)
unfoldable pub find_nul : Bytes → Option ℕ
find_nul [] = none
find_nul (b ∷ bs) =
    if b == 0 then some 0 else elim (find_nul bs) [ none ↦ none | some n ↦ some (suc n) ]

-- except (TypeError, ValueError)
abbrev pub is_type_or_value_error : Kind → Bool
is_type_or_value_error type_error = true
is_type_or_value_error k = is_value_error k

-- _check_size
unfoldable pub check_size : Bytes → ℤ → Result (Unit {0})
check_size raw limit = if ltb_ℤ limit (pos (length raw)) then raised (fresh (opa memory)) else ok tt

module _ (host : Host) where
  -- _dumps
  unfoldable pub dumps : Value → Result Bytes
  dumps value = or_handle (then_result (host.dumps value) host.encode) λ e.
      if is_type_or_value_error (kind_of e)
      then raised (raise_from (opa invalid_input) e)
      else raised e

  -- The check that a document parses.
  unfoldable pub validated : Bytes → Bool → Result Bytes
  validated raw validate =
      if validate
      then (or_handle (then_result (host.loads raw) λ _. ok raw) λ e.
          if is_value_error (kind_of e)
          then raised (raise_from (opa invalid_input) e)
          else raised e)
      else ok raw

  -- _coerce_to_json_bytes
  unfoldable pub coerce_to_json_bytes : Value → Bool → Result Bytes
  coerce_to_json_bytes (str text) validate =
      then_result (host.encode text) λ raw. validated raw validate
  coerce_to_json_bytes (bytes raw) validate = validated raw validate
  coerce_to_json_bytes value validate = dumps value

  unfoldable pub encode_input : Value → ℤ → Bool → Result Bytes
  encode_input value limit validate =
      then_result (coerce_to_json_bytes value validate)
        λ raw. then_result (check_size raw limit) λ _. ok raw

module _ (rt : Runtime) where
  -- _check_range
  unfoldable pub check_range : ℤ → ℤ → Exec rt.State (Unit {0})
  check_range addr len = do
    raise_if (ltb_ℤ addr (pos 0)) (opa memory)
    raise_if (ltb_ℤ len (pos 0)) (opa memory)
    (λ s. raise_if (ltb_ℤ (pos (Abi.memory_len rt s)) (addr +ℤ len)) (opa memory) s)

  -- _check_pointer
  unfoldable pub check_pointer : ℤ → Exec rt.State ℤ
  check_pointer addr = do raise_if (leb_ℤ addr (pos 0)) (opa memory); pure addr

  unfoldable pub write_bytes : Bytes → Exec rt.State ℤ
  write_bytes raw = do
    allocated ← Abi.opa_malloc rt (pos (length raw))
    addr ← check_pointer allocated
    check_range addr (pos (length raw))
    Abi.memory_write rt addr raw
    pure addr

  unfoldable pub read_bytes : ℤ → ℤ → Exec rt.State Bytes
  read_bytes addr len = do check_range addr len; Abi.memory_read rt addr (addr +ℤ len)

  -- The end of a round: the text ends in this chunk, or the loop goes on.
  abbrev pub finish : Bytes → Bytes → Option ℕ → Exec rt.State Bytes → Exec rt.State Bytes
  finish out chunk none rest = rest
  finish out chunk (some n) rest = pure (out ++ take n chunk)

  -- The loop of `read_cstring`, at position `at` with `out` read so far. Each round reads at least a
  -- byte, so the budget that is left bounds the rounds: where the fuel ends, the budget has ended.
  unfoldable pub scan : ℕ → ℕ → ℕ → ℕ → Bytes → Exec rt.State Bytes
  scan zero budget mem_len at out = throw (opa memory)
  scan (suc fuel) budget mem_len at out =
      let remaining = budget - length out in
      let stop = min (min (at + cstring_chunk) (at + remaining)) mem_len in
      let rest = λ (chunk : Bytes). scan fuel budget mem_len stop (out ++ chunk) in
      if leb budget (length out)
      then throw (opa memory)
      else if leb stop at
      then throw (opa memory)
      else do
        chunk ← Abi.memory_read rt (pos at) (pos stop)
        finish out chunk (find_nul chunk) (rest chunk)

  unfoldable pub read_cstring : Limits → ℤ → Exec rt.State Bytes
  read_cstring limits addr s =
      let mem_len = Abi.memory_len rt s in
      let budget = pos_part limits.max_cstring_scan_bytes in
      if ltb_ℤ addr (pos 0) || leb_ℤ (pos mem_len) addr
      then throw (opa memory) s
      else scan (suc budget) budget mem_len (pos_part addr) [] s

module _ (host : Host) (rt : Runtime) where
  -- Gives the address and the length of the buffer.
  unfoldable pub write_json : Value → ℤ → Bool → Exec rt.State (ℤ × ℤ)
  write_json value limit validate = do
    raw ← lift (coerce_to_json_bytes host value validate)
    lift (check_size raw limit)
    addr ← write_bytes rt raw
    pure (addr, pos (length raw))

  -- An absent limit is the configured one for results.
  abbrev cap_of : Limits → Option ℤ → ℤ
  cap_of limits none = limits.max_result_bytes
  cap_of limits (some limit) = limit

  abbrev parse_result : Bytes → Result Value
  parse_result raw =
      or_handle (host.loads raw)
        λ e. if is_value_error (kind_of e) then raised (raise_from (opa memory) e) else raised e

  unfoldable pub read_json_cstring : Limits → ℤ → Option ℤ → Exec rt.State Value
  read_json_cstring limits addr limit = do
    raw ← read_cstring rt limits addr
    lift (check_size raw (cap_of limits limit))
    lift (parse_result raw)

  unfoldable pub python_to_opa_value : Value → ℤ → Bool → Exec rt.State ℤ
  python_to_opa_value value limit validate = do
    (raw_addr, raw_len) ← write_json value limit validate
    addr ← Abi.opa_json_parse rt raw_addr raw_len
    check_pointer rt addr

  unfoldable pub python_object_to_opa_value : Value → ℤ → Exec rt.State ℤ
  python_object_to_opa_value value limit = do
    raw ← lift (dumps host value)
    lift (check_size raw limit)
    raw_addr ← write_bytes rt raw
    addr ← Abi.opa_json_parse rt raw_addr (pos (length raw))
    check_pointer rt addr

  unfoldable pub opa_value_to_python : Limits → ℤ → Option ℤ → Exec rt.State Value
  opa_value_to_python limits value_addr limit = do
    dumped ← Abi.opa_json_dump rt value_addr
    str_addr ← check_pointer rt dumped
    read_json_cstring limits str_addr limit

  -- The loop of `_decode_str_int_map`, with the map built so far.
  abbrev str_int_map : Fields → Dict ℤ → Result (Dict ℤ)
  str_int_map end result = ok result
  str_int_map (field name (int ident) rest) result = str_int_map rest (put name ident result)
  str_int_map (field name value rest) result = raised (fresh (opa memory))

  abbrev as_map : Value → Result (Dict ℤ)
  as_map (dict fields) = str_int_map fields []
  as_map value = raised (fresh (opa memory))

  unfoldable pub decode_str_int_map : Limits → ℤ → Exec rt.State (Dict ℤ)
  decode_str_int_map limits value_addr = do
    decoded ← opa_value_to_python limits value_addr none
    lift (as_map decoded)

  unfoldable pub decode_entrypoints : Limits → Exec rt.State (Dict ℤ)
  decode_entrypoints limits = do addr ← Abi.entrypoints rt; decode_str_int_map limits addr

  unfoldable pub decode_builtins : Limits → Exec rt.State (Dict ℤ)
  decode_builtins limits = do addr ← Abi.builtins rt; decode_str_int_map limits addr
