-- ===== src/Builtins/Sprintf/Escaped.antt =====
-- Formats that hold no directive but `%%`.
use Prim.Native.Char.{Char, code}
use text.Mathlib.TextEquality.{Char-path}
use opa_py_wasm.Base.{
  ℕ, zero, suc, ◌<◌, ◌≡◌, refl, sym, ap, ◌∙◌, subst, inl, inr, true, false, Option, none, some,
  List, [], ◌∷◌, ◌++◌, arith, if◌then◌else◌, ==_iff, length, Bool-cases,
}
use opa_py_wasm.Result.{Result, ok, raised, then_result}
use opa_py_wasm.Types.{Value}
use opa_py_wasm.Builtins.Sprintf.{
  Text, percent, is_percent, is_verb, flags_and_verb, match_verb, Match, further, search, Scanned,
  scanned_after, finditer, Formats, fill, sprintf_text,
}

-- A text with every `%` doubled.
abbrev pub escaped : Text → Text
escaped [] = []
escaped (c ∷ s) = if is_percent c then c ∷ (c ∷ escaped s) else c ∷ escaped s

module _ (formats : Formats) (operands : List Value) where
  run_scan : Scanned → Result Text
  run_scan (ms, tail) = fill formats ms tail operands

  run_round : ℕ → Text → Option (Match × Text) → Result Text
  run_round fuel s none = ok s
  run_round fuel s (some (m, rest)) = run_scan (scanned_after m (finditer fuel rest))

  finditer-round :
      (fuel : ℕ) (s : Text) → run_scan (finditer (suc fuel) s) ≡ run_round fuel s (search s)
  unfolding finditer run_scan run_round fill
  finditer-round fuel s =
      elim (search s)
        as (λ o.
          run_scan
            (elim o [ none ↦ ([], s) | some (m, rest) ↦ scanned_after m (finditer fuel rest) ])
          ≡ run_round fuel s o) [ none ↦ refl | some (m, rest) ↦ refl ]

  prefix_one :
      (c : Char) (before : Text) (r : Result Text)
      → then_result r (λ out. ok (c ∷ (before ++ out)))
        ≡ then_result (then_result r λ out. ok (before ++ out)) (λ out. ok (c ∷ out))
  prefix_one c before (ok out) = refl
  prefix_one c before (raised e) = refl

  run_round-further :
      (c : Char) (fuel : ℕ) (s : Text) (o : Option (Match × Text))
      → run_round fuel (c ∷ s) (further c o)
        ≡ then_result (run_round fuel s o) (λ out. ok (c ∷ out))
  unfolding run_round run_scan fill
  run_round-further c fuel s none = refl
  run_round-further c fuel s (some (m, rest)) = prefix_one c m.before _

  search-plain :
      (c : Char) (s : Text) → is_percent c ≡ false → search (c ∷ s) ≡ further c (search s)
  unfolding search match_verb
  search-plain c s p = rw p refl

  search-escape :
      (s : Text)
      → search (percent ∷ (percent ∷ s))
        ≡ some (record { before = []; verb = percent ∷ (percent ∷ []) }, s)
  unfolding search match_verb flags_and_verb is_verb
  search-escape s = refl

  again :
      (f : Text → Result Text) (r : Result Text)
      → then_result (then_result r f) (λ out. ok ([] ++ out)) ≡ then_result r f
  again f (raised e) = refl
  again f (ok text) = unchanged (f text)
    where
      unchanged : (r : Result Text) → then_result r (λ out. ok ([] ++ out)) ≡ r
      unchanged (ok out) = refl
      unchanged (raised e) = refl

  run-doubled :
      (fuel : ℕ) (u : Text)
      → run_scan (finditer (suc fuel) (percent ∷ (percent ∷ u)))
        ≡ then_result (run_scan (finditer fuel u)) (λ out. ok (percent ∷ out))
  unfolding run_round run_scan fill
  run-doubled fuel u =
      finditer-round fuel (percent ∷ (percent ∷ u))
      ∙ ap (run_round fuel (percent ∷ (percent ∷ u))) (search-escape u)
      ∙ again (λ out. ok (percent ∷ out)) (run_scan (finditer fuel u))

  run-plain :
      (fuel : ℕ) (c : Char) (u : Text)
      → is_percent c ≡ false
      → run_scan (finditer (suc fuel) (c ∷ u))
        ≡ then_result (run_scan (finditer (suc fuel) u)) (λ out. ok (c ∷ out))
  run-plain fuel c u p =
      finditer-round fuel (c ∷ u)
      ∙ ap (run_round fuel (c ∷ u)) (search-plain c u p)
      ∙ run_round-further c fuel u (search u)
      ∙ ap (λ r. then_result r (λ out. ok (c ∷ out))) (sym (finditer-round fuel u))

  is_percent-eq : (c : Char) → is_percent c ≡ true → c ≡ percent
  is_percent-eq c p = Char-path c percent ((==_iff (code c) 37).0 p)

  run_round-nil : (fuel : ℕ) → run_round fuel [] (search []) ≡ ok []
  unfolding run_round search
  run_round-nil fuel = refl

  run-escaped :
      (fuel : ℕ) (t : Text)
      → length (escaped t) < fuel
      → run_scan (finditer fuel (escaped t)) ≡ ok t
  run-escaped zero t h = absurd (omega arith)
  run-escaped (suc fuel) [] h = finditer-round fuel [] ∙ run_round-nil fuel
  run-escaped (suc fuel) (c ∷ t) h =
      let shorter : length (escaped t) < fuel = ground (arith, h) in
      elim (Bool-cases (is_percent c)) [
        | inl p ↦ rw p (
            subst (λ d. run_scan (finditer (suc fuel) (d ∷ (d ∷ escaped t))) ≡ ok (d ∷ t))
              (sym (is_percent-eq c p))
              (run-doubled fuel (escaped t) ∙ rw (run-escaped fuel t shorter) refl))
        | inr p ↦ rw p (
            run-plain fuel c (escaped t) p
            ∙ rw (run-escaped (suc fuel) t (omega (arith, shorter))) refl)
      ]

-- A text with every `%` doubled comes out as the text, whatever the operands, and whatever formats.
pub sprintf_text-escaped :
    (formats : Formats) (t : Text) (operands : List Value)
    → sprintf_text formats (escaped t) operands ≡ ok t
unfolding sprintf_text run_scan
sprintf_text-escaped formats t operands =
    run-escaped formats operands (suc (length (escaped t))) t (omega arith)
