-- ===== src/Builtins/Sprintf/Fill.antt =====
-- What `_sprintf` makes of a format and its operands.
use opa_py_wasm.Base.{
  ℕ, zero, suc, ◌≡◌, refl, subst, ap, ◌⊎◌, inl, inr, Bool-cases, Bool, true, false, List, [], ◌∷◌,
  ◌++◌, arith, if◌then◌else◌, leb, length,
}
use opa_py_wasm.Errors.{Exn, kind_of, fresh, opa, builtin}
use opa_py_wasm.Memory.{is_type_or_value_error}
use opa_py_wasm.Result.{Result, ok, raised, then_result, or_handle}
use opa_py_wasm.Types.{Value, null, bool, int, float, str, bytes, list, dict}
use opa_py_wasm.Builtins.Sprintf.{
  Text, of_chars, percent, Match, matches, is_escape, Formats, default_format, quoted, formatted,
  bool_text, is_true, type_name, format_verb, consume, fill, sprintf_text,
}

module _ (formats : Formats) where
  -- `json.dumps`, `str` or `verb % operand` raised this, the last no `TypeError` or `ValueError`.
  abbrev pub FormatFailed : Exn → Type 0
  FormatFailed e =
      ((v : Value) × (formats.dumps_spaced v ≡ raised e))
      ⊎ (((v : Value) × (formats.dumps v ≡ raised e))
          ⊎ (((v : Value) × (formats.to_str v ≡ raised e))
              ⊎ ((verb : Text) × (v : Value) × (formats.interpolate verb v ≡ raised e)
                  × (is_type_or_value_error (kind_of e) ≡ false))))

  -- A text comes out, or what formatting an operand raised.
  abbrev pub IsFormat : Result Text → Type 0
  IsFormat (ok text) = Unit
  IsFormat (raised e) = FormatFailed e

  failing-IsFormat : (r : Result Text) → ((e : Exn) → r ≡ raised e → FormatFailed e) → IsFormat r
  failing-IsFormat (ok text) h = tt
  failing-IsFormat (raised e) h = h e refl

  spaced-IsFormat : (v : Value) → IsFormat (formats.dumps_spaced v)
  spaced-IsFormat v = failing-IsFormat _ λ e h. inl (v, h)

  dumps-IsFormat : (v : Value) → IsFormat (formats.dumps v)
  dumps-IsFormat v = failing-IsFormat _ λ e h. inr (inl (v, h))

  str-IsFormat : (v : Value) → IsFormat (formats.to_str v)
  str-IsFormat v = failing-IsFormat _ λ e h. inr (inr (inl (v, h)))

  default_format-IsFormat : (v : Value) → IsFormat (default_format formats v)
  unfolding default_format
  default_format-IsFormat (dict fields) = spaced-IsFormat (dict fields)
  default_format-IsFormat (list items) = spaced-IsFormat (list items)
  default_format-IsFormat (bool b) = tt
  default_format-IsFormat null = str-IsFormat null
  default_format-IsFormat (int n) = str-IsFormat (int n)
  default_format-IsFormat (float bits) = str-IsFormat (float bits)
  default_format-IsFormat (str s) = str-IsFormat (str s)
  default_format-IsFormat (bytes raw) = str-IsFormat (bytes raw)

  quoted_text :
      (r : Result Text)
      → IsFormat r
      → IsFormat (then_result r λ s. formats.dumps (str (of_chars s)))
  quoted_text (ok s) h = dumps-IsFormat (str (of_chars s))
  quoted_text (raised e) h = h

  requoted :
      (v : Value) → IsFormat (then_result (formats.to_str v) λ s. formats.dumps (str (of_chars s)))
  requoted v = quoted_text (formats.to_str v) (str-IsFormat v)

  quoted-IsFormat : (v : Value) → IsFormat (quoted formats v)
  unfolding quoted
  quoted-IsFormat (str s) = dumps-IsFormat (str s)
  quoted-IsFormat (dict fields) = requoted (dict fields)
  quoted-IsFormat (list items) = requoted (list items)
  quoted-IsFormat (bool b) = requoted (bool b)
  quoted-IsFormat null = requoted null
  quoted-IsFormat (int n) = requoted (int n)
  quoted-IsFormat (float bits) = requoted (float bits)
  quoted-IsFormat (bytes raw) = requoted (bytes raw)

  handled-IsFormat :
      (verb : Text) (v : Value) (r : Result Text)
      → formats.interpolate verb v ≡ r
      → IsFormat (
          or_handle r
            λ e. if is_type_or_value_error (kind_of e) then formats.to_str v else raised e)
  handled-IsFormat verb v (ok text) h = tt
  handled-IsFormat verb v (raised e) h = elim (Bool-cases (is_type_or_value_error (kind_of e))) [
    | inl x ↦ rw x (str-IsFormat v)
    | inr x ↦ rw x (inr (inr (inr (verb, v, h, x))))
  ]

  -- One answer to each of the four tests on the verb.
  tested-IsFormat :
      (is_t is_v is_bool is_q : Bool) (verb : Text) (v : Value)
      → IsFormat (
          if is_t
          then ok (type_name v)
          else if is_v
          then default_format formats v
          else if is_bool
          then ok (bool_text (is_true v))
          else if is_q
          then quoted formats v
          else or_handle
              (formats.interpolate verb v)
              λ e. if is_type_or_value_error (kind_of e) then formats.to_str v else raised e)
  tested-IsFormat true is_v is_bool is_q verb v = tt
  tested-IsFormat false true is_bool is_q verb v = default_format-IsFormat v
  tested-IsFormat false false true is_q verb v = tt
  tested-IsFormat false false false true verb v = quoted-IsFormat v
  tested-IsFormat false false false false verb v = handled-IsFormat verb v _ refl

  format_verb-IsFormat : (verb : Text) (v : Value) → IsFormat (format_verb formats verb v)
  unfolding format_verb formatted
  format_verb-IsFormat verb v = tested-IsFormat _ _ _ _ verb v

-- The directives that consume an operand.
abbrev pub consuming : List Match → ℕ
consuming [] = 0
consuming (m ∷ ms) = let rest = consuming ms in if is_escape m.verb then rest else suc rest

module _ (formats : Formats) where
  -- With enough operands a text comes out, or what formatting an operand raised, the same with more of
  -- them; with too few, an `OpaBuiltinError`, or what formatting an operand raised.
  abbrev pub IsAnswer : Bool → Result Text → Result Text → Type 0
  IsAnswer true r more = IsFormat formats r × (more ≡ r)
  IsAnswer false r more =
      (e : Exn) × (r ≡ raised e) × ((e ≡ fresh (opa builtin)) ⊎ FormatFailed formats e)

  module _ (change : Text → Text) where
    IsFormat-map :
        (r : Result Text)
        → IsFormat formats r
        → IsFormat formats (then_result r λ out. ok (change out))
    IsFormat-map (ok text) h = tt
    IsFormat-map (raised e) h = h

    IsAnswer-map :
        (b : Bool) (r more : Result Text)
        → IsAnswer b r more
        → IsAnswer b
            (then_result r λ out. ok (change out))
            (then_result more λ out. ok (change out))
    IsAnswer-map true r more (h, same) =
        (IsFormat-map r h, ap (λ q. then_result q λ out. ok (change out)) same)
    IsAnswer-map false r more (e, h, why) =
        (e, ap (λ q. then_result q λ out. ok (change out)) h, why)

  -- A piece of text, which may fail, before the rest.
  before-IsAnswer :
      (b : Bool) (piece r more : Result Text)
      → IsFormat formats piece
      → IsAnswer b r more
      → IsAnswer b
          (then_result piece λ text. then_result r λ out. ok (text ++ out))
          (then_result piece λ text. then_result more λ out. ok (text ++ out))
  before-IsAnswer b (ok text) r more f h = IsAnswer-map (λ out. text ++ out) b r more h
  before-IsAnswer true (raised e) r more f h = (f, refl)
  before-IsAnswer false (raised e) r more f h = (e, refl, inr f)

enough : ℕ → List Value → Bool
enough zero operands = true
enough (suc n) [] = false
enough (suc n) (v ∷ operands) = enough n operands

enough-leb : (n : ℕ) (operands : List Value) → enough n operands ≡ leb n (length operands)
unfolding enough
enough-leb zero operands = ground arith
enough-leb (suc n) [] = ground arith
enough-leb (suc n) (v ∷ operands) = ground (arith, enough-leb n operands)

module _ (formats : Formats) (extra : List Value) where
  module _ (verb : Text) (n : ℕ) (rest : List Value → Result Text)
      (h : (ops : List Value)
        → IsAnswer formats (enough n ops) (rest ops) (rest (ops ++ extra))) where
    consume-IsAnswer :
        (operands : List Value)
        → IsAnswer formats
            (enough (suc n) operands)
            (consume formats verb operands rest)
            (consume formats verb (operands ++ extra) rest)
    unfolding enough
    consume-IsAnswer [] = (_, refl, inl refl)
    consume-IsAnswer (v ∷ operands) =
        before-IsAnswer formats (enough n operands) (format_verb formats verb v) (rest operands)
          (rest (operands ++ extra)) (format_verb-IsFormat formats verb v) (h operands)

    piece : Bool → List Value → Result Text
    piece escape operands =
        if escape
        then then_result (rest operands) (λ out. ok (percent ∷ out))
        else consume formats verb operands rest

    piece-IsAnswer :
        (escape : Bool) (operands : List Value)
        → IsAnswer formats
            (enough (if escape then n else suc n) operands)
            (piece escape operands)
            (piece escape (operands ++ extra))
    unfolding piece
    piece-IsAnswer true operands =
        IsAnswer-map formats (λ out. percent ∷ out) (enough n operands) (rest operands)
          (rest (operands ++ extra)) (h operands)
    piece-IsAnswer false operands = consume-IsAnswer operands

  fill-IsAnswer :
      (ms : List Match) (tail : Text) (operands : List Value)
      → IsAnswer formats
          (enough (consuming ms) operands)
          (fill formats ms tail operands)
          (fill formats ms tail (operands ++ extra))
  unfolding fill enough piece
  fill-IsAnswer [] tail operands = (tt, refl)
  fill-IsAnswer (m ∷ ms) tail operands =
      let rest = fill formats ms tail in
      IsAnswer-map formats (λ out. m.before ++ out) _ _ _
        (piece-IsAnswer m.verb (consuming ms) rest (fill-IsAnswer ms tail) (is_escape m.verb)
          operands)

-- Where there are at least as many operands as directives other than `%%`, a text comes out, or an
-- exception that `json.dumps`, `str` or `verb % operand` raised on an operand, of the last no
-- `TypeError` or `ValueError`; and further operands change nothing. Where there are fewer, no text
-- comes out: such an exception is raised, or `OpaBuiltinError`.
pub sprintf_text-IsAnswer :
    (formats : Formats) (fmt : Text) (operands extra : List Value)
    → IsAnswer formats
        (leb (consuming (matches fmt).0) (length operands))
        (sprintf_text formats fmt operands)
        (sprintf_text formats fmt (operands ++ extra))
unfolding sprintf_text
sprintf_text-IsAnswer formats fmt operands extra =
    let (ms, tail) = matches fmt in
    subst
      (λ b.
        IsAnswer formats b (fill formats ms tail operands)
          (fill formats ms tail (operands ++ extra)))
      (enough-leb (consuming ms) operands) (fill-IsAnswer formats extra ms tail operands)
