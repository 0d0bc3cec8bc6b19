-- ===== src/Builtins/Sprintf.antt =====
-- opapywasm/builtins.py, `_sprintf`: the scan for Go's verbs, and the loop that fills them in. A text
-- is the list of its characters.
pub mod Scan
pub mod Fill
pub mod Escaped
use Prim.Native.Char.{Char, code}
use opa_py_wasm.Base.{
  ℕ, zero, suc, String, Bool, true, false, not, ◌||◌, ◌&&◌, Option, none, some, List, [], ◌∷◌, ◌++◌,
  if◌then◌else◌, leb, ◌==◌, ◌^◌, length, str_eq,
}
use text.Mathlib.TextBridge.{of_list as of_chars}
use opa_py_wasm.Base.Int.{ℤ, pos_part, neg_part}
use opa_py_wasm.Errors.{Kind, Exn, fresh, kind_of, is_value_error, opa, builtin}
use opa_py_wasm.Memory.{is_type_or_value_error}
use opa_py_wasm.Result.{Result, ok, raised, then_result, or_handle}
use opa_py_wasm.Types.{
  Value, null, bool, int, float, str, bytes, list, dict, Items, no_items, item, Fields, end, field,
}

abbrev pub Text : Type 0
Text = List Char

abbrev pub chars : String → Text
chars String.[] = []
chars (String.◌∷◌ c s) = c ∷ chars s

abbrev pub percent : Char
percent = "%"

abbrev pub is_percent : Char → Bool
is_percent c = code c == b'%'

-- `[#+ 0-9.\-]`
unfoldable pub is_flag : Char → Bool
is_flag c =
    code c == b'#'
    || (code c == b'+'
        || (code c == b' '
            || (leb b'0' (code c) && leb (code c) b'9' || (code c == b'.' || code c == b'-'))))

abbrev among : ℕ → List ℕ → Bool
among n [] = false
among n (m ∷ ms) = n == m || among n ms

-- `[vTtbcdoqxXUeEfFgGsp%]`
unfoldable pub is_verb : Char → Bool
is_verb c = among (code c) (
    b'v' ∷ b'T' ∷ b't' ∷ b'b' ∷ b'c' ∷ b'd' ∷ b'o' ∷ b'q' ∷ b'x' ∷ b'X' ∷ b'U' ∷ b'e' ∷ b'E' ∷ b'f'
    ∷ b'F' ∷ b'g' ∷ b'G' ∷ b's' ∷ b'p' ∷ b'%' ∷ [])

abbrev after_flag : Char → Option (Text × Text) → Option (Text × Text)
after_flag c none = none
after_flag c (some (verb, rest)) = some (c ∷ verb, rest)

-- What `[#+ 0-9.\-]*[vTt…]` matches at the start of a text, and the rest. No flag is a verb, so that
-- the greedy loop of the flags never has to give one back.
unfoldable pub flags_and_verb : Text → Option (Text × Text)
flags_and_verb [] = none
flags_and_verb (c ∷ s) =
    let rest = flags_and_verb s in
    if is_verb c then some (c ∷ [], s) else if is_flag c then after_flag c rest else none

-- _GO_VERB.match
unfoldable pub match_verb : Text → Option (Text × Text)
match_verb [] = none
match_verb (c ∷ s) = if is_percent c then after_flag c (flags_and_verb s) else none

-- A match of the pattern, with the text between the match before and it: `fmt[pos : match.start()]`.
pub record Match : Type 0 where
  pub before : Text
  pub verb : Text

abbrev pub further : Char → Option (Match × Text) → Option (Match × Text)
further c none = none
further c (some (m, rest)) = some (record m { before = c ∷ m.before }, rest)

abbrev pub here_or : Option (Text × Text) → Option (Match × Text) → Option (Match × Text)
here_or none later = later
here_or (some (verb, rest)) later = some (record { before = []; verb = verb }, rest)

-- _GO_VERB.search: the leftmost match, and the text after it.
unfoldable pub search : Text → Option (Match × Text)
search [] = none
search (c ∷ s) = here_or (match_verb (c ∷ s)) (further c (search s))

-- The matches, and the text after the last one.
abbrev pub Scanned : Type 0
Scanned = List Match × Text

abbrev pub scanned_after : Match → Scanned → Scanned
scanned_after m (ms, tail) = (m ∷ ms, tail)

-- _GO_VERB.finditer. Every match has two characters or more, so that the length of the text bounds
-- the rounds; where the fuel ends, the rest of the text is lost.
unfoldable pub finditer : ℕ → Text → Scanned
finditer zero s = ([], [])
finditer (suc fuel) s = elim (search s) [
  | none ↦ ([], s)
  | some (m, rest) ↦ scanned_after m (finditer fuel rest)
]

abbrev pub matches : Text → Scanned
matches fmt = finditer (suc (length fmt)) fmt

-- verb == "%%"
abbrev pub is_escape : Text → Bool
is_escape (c ∷ (d ∷ [])) = is_percent c && is_percent d
is_escape _ = false

-- What Python's library makes of an operand: `json.dumps` with the spaces of Go, `json.dumps` as it
-- is, `str`, and `verb % operand`.
pub record Formats : Type 0 where
  pub dumps_spaced : Value → Result Text
  pub dumps : Value → Result Text
  pub to_str : Value → Result Text
  pub interpolate : Text → Value → Result Text

-- type(operand).__name__
unfoldable pub type_name : Value → Text
type_name null = chars "NoneType"
type_name (bool b) = chars "bool"
type_name (int n) = chars "int"
type_name (float bits) = chars "float"
type_name (str s) = chars "str"
type_name (bytes raw) = chars "bytes"
type_name (list items) = chars "list"
type_name (dict fields) = chars "dict"

-- bool(operand); the two zeros among the floats are false.
unfoldable pub is_true : Value → Bool
is_true null = false
is_true (bool b) = b
is_true (int n) = not (pos_part n == 0 && neg_part n == 0)
is_true (float bits) = not (bits == 0 || bits == 2 ^ 63)
is_true (str s) = not (str_eq s "")
is_true (bytes []) = false
is_true (bytes (b ∷ bs)) = true
is_true (list no_items) = false
is_true (list (item v rest)) = true
is_true (dict end) = false
is_true (dict (field k v rest)) = true

abbrev pub bool_text : Bool → Text
bool_text b = if b then chars "true" else chars "false"

-- verb[-1], of a text that is not empty.
unfoldable pub last_of : Char → Text → Char
last_of c [] = c
last_of c (d ∷ s) = last_of d s

abbrev pub conversion : Text → ℕ
conversion [] = 0
conversion (c ∷ s) = code (last_of c s)

module _ (formats : Formats) where
  -- The branch of `%v`.
  unfoldable pub default_format : Value → Result Text
  default_format (dict fields) = formats.dumps_spaced (dict fields)
  default_format (list items) = formats.dumps_spaced (list items)
  default_format (bool b) = ok (bool_text b)
  default_format operand = formats.to_str operand

  -- The branch of `%q`.
  unfoldable pub quoted : Value → Result Text
  quoted (str s) = formats.dumps (str s)
  quoted operand = then_result (formats.to_str operand) λ s. formats.dumps (str (of_chars s))

  -- The last branch: `except (TypeError, ValueError): return str(operand)`.
  unfoldable pub formatted : Text → Value → Result Text
  formatted verb operand =
      or_handle (formats.interpolate verb operand)
        λ e. if is_type_or_value_error (kind_of e) then formats.to_str operand else raised e

  -- _format_verb
  unfoldable pub format_verb : Text → Value → Result Text
  format_verb verb operand =
      let conv = conversion verb in
      if conv == b'T'
      then ok (type_name operand)
      else if conv == b'v'
      then default_format operand
      else if conv == b't'
      then ok (bool_text (is_true operand))
      else if conv == b'q'
      then quoted operand
      else formatted verb operand

  -- The operand that a verb consumes, formatted in front of the rest.
  abbrev pub consume : Text → List Value → (List Value → Result Text) → Result Text
  consume verb [] rest = raised (fresh (opa builtin))
  consume verb (operand ∷ operands) rest =
      then_result (format_verb verb operand)
        λ text. then_result (rest operands) λ out. ok (text ++ out)

  -- The loop; `rest` is what follows the text between two matches.
  unfoldable pub fill : List Match → Text → List Value → Result Text
  fill [] tail operands = ok tail
  fill (m ∷ ms) tail operands =
      let rest = fill ms tail in
      then_result
        (if is_escape m.verb
          then then_result (rest operands) (λ out. ok (percent ∷ out))
          else consume m.verb operands rest)
        λ out. ok (m.before ++ out)

  -- `_sprintf` on a text and a list.
  unfoldable pub sprintf_text : Text → List Value → Result Text
  sprintf_text fmt operands = let (ms, tail) = matches fmt in fill ms tail operands

  abbrev pub items_of : Items → List Value
  items_of no_items = []
  items_of (item v rest) = v ∷ items_of rest

  -- _sprintf
  unfoldable pub sprintf : Value → Value → Result Value
  sprintf (str fmt) (list items) =
      then_result (sprintf_text (chars fmt) (items_of items)) λ out. ok (str (of_chars out))
  sprintf fmt operands = raised (fresh (opa builtin))
