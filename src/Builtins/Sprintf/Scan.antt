-- ===== src/Builtins/Sprintf/Scan.antt =====
-- What the scan of `_sprintf` finds in a format.
use Prim.Native.Char.{Char, code}
use opa_py_wasm.Base.{
  ℕ, zero, suc, ◌<◌, ◌≡◌, refl, sym, ap, ◌∙◌, subst, Bool, true, false, Option, none, some, List,
  [], ◌∷◌, ◌++◌, append-nil, arith, if◌then◌else◌, length, length-append, ◌==◌, ◌||◌, ◌&&◌, leb,
}
use opa_py_wasm.Builtins.Sprintf.{
  Text, chars, is_percent, is_flag, is_verb, after_flag, flags_and_verb, match_verb, Match, further,
  here_or, search, Scanned, scanned_after, finditer, matches,
}

-- A class of characters, which lists its members.
unfoldable pub in_class : Text → Char → Bool
in_class [] c = false
in_class (d ∷ ds) c = code c == code d || in_class ds c

-- The three classes of the pattern: `%`, the flags, and the verbs of `_GO_VERB`.
abbrev pub signs : Text
signs = chars "%"

abbrev pub flags : Text
flags = chars "#+ 0123456789.-"

abbrev pub verbs : Text
verbs = chars "vTtbcdoqxXUeEfFgGsp%"

sign_class : (c : Char) → in_class signs c ≡ is_percent c
unfolding in_class
sign_class c = ground arith

-- The digits among the flags, by their codes.
digit_codes :
    (n : ℕ)
    → (leb b'0' n && leb n b'9') ≡ (
        n == b'0'
        || (n == b'1'
            || (n == b'2'
                || (n == b'3'
                    || (n == b'4'
                        || (n == b'5'
                            || (n == b'6' || (n == b'7' || (n == b'8' || n == b'9')))))))))
digit_codes n = ground arith

flag_class : (c : Char) → in_class flags c ≡ is_flag c
unfolding in_class is_flag
flag_class c = ground (arith, digit_codes (code c))

verb_class : (c : Char) → in_class verbs c ≡ is_verb c
unfolding in_class is_verb
verb_class c = refl

-- Flags, and then a verb.
abbrev pub IsTail : Text → Type 0
IsTail [] = ⊥
IsTail (c ∷ []) = in_class verbs c ≡ true
IsTail (c ∷ (d ∷ s)) = (in_class flags c ≡ true) × IsTail (d ∷ s)

-- A text that the pattern matches as a whole.
abbrev pub IsDirective : Text → Type 0
IsDirective [] = ⊥
IsDirective (c ∷ s) = (in_class signs c ≡ true) × IsTail s

-- No directive starts where `s` starts.
abbrev pub NoneAt : Text → Type 0
NoneAt s = (v r : Text) → IsDirective v → s ≡ v ++ r → ⊥

-- No directive starts anywhere in `before`, which `rest` follows.
abbrev pub NoneIn : (before rest : Text) → Type 0
NoneIn [] rest = Unit
NoneIn (c ∷ before) rest = NoneAt (c ∷ (before ++ rest)) × NoneIn before rest

-- A text cut at its leftmost directives.
abbrev pub IsCut : Text → List Match → Text → Type 0
IsCut s [] tail = (s ≡ tail) × NoneIn s []
IsCut s (m ∷ ms) tail =
    (rest : Text) × (s ≡ m.before ++ (m.verb ++ rest))
    × NoneIn m.before (m.verb ++ rest)
    × IsDirective m.verb
    × IsCut rest ms tail

IsTail-cons : (c : Char) (v : Text) → in_class flags c ≡ true → IsTail v → IsTail (c ∷ v)
IsTail-cons c [] f t = absurd t
IsTail-cons c (d ∷ v) f t = (f, t)

head_of : Char → Text → Char
head_of c [] = c
head_of c (d ∷ s) = d

rest_of : Text → Text
rest_of [] = []
rest_of (d ∷ s) = s

module _ (c d : Char) (s t : Text) (e : c ∷ s ≡ d ∷ t) where
  heads : c ≡ d
  unfolding head_of
  heads = ap (head_of c) e

  tails : s ≡ t
  unfolding rest_of
  tails = ap rest_of e

not_verb : (c : Char) → in_class verbs c ≡ false → in_class verbs c ≡ true → ⊥
not_verb c f t = absurd (ground (arith, f, t))

nil_starts : (c : Char) (s : Text) → [] ≡ c ∷ s → ⊥
nil_starts c s e = absurd (ground (arith, e))

-- Where no tail ends: none after a flag, and none at all after another character.
NoEnd : Text → Type 0
NoEnd s = (v r : Text) → IsTail v → s ≡ v ++ r → ⊥

module _ (c : Char) (s : Text) (vb : in_class verbs c ≡ false) where
  NoEnd-flag : NoEnd s → NoEnd (c ∷ s)
  unfolding NoEnd
  NoEnd-flag h [] r t e = t
  NoEnd-flag h (d ∷ []) r t e = not_verb c vb (ap (in_class verbs) (heads c d s r e) ∙ t)
  NoEnd-flag h (d ∷ (d' ∷ v)) r t e = h (d' ∷ v) r t.1 (tails c d s (d' ∷ (v ++ r)) e)

  NoEnd-other : in_class flags c ≡ false → NoEnd (c ∷ s)
  unfolding NoEnd
  NoEnd-other fl [] r t e = t
  NoEnd-other fl (d ∷ []) r t e = not_verb c vb (ap (in_class verbs) (heads c d s r e) ∙ t)
  NoEnd-other fl (d ∷ (d' ∷ v)) r t e =
      let same = ap (in_class flags) (heads c d s (d' ∷ (v ++ r)) e) ∙ t.0 in
      absurd (ground (arith, fl, same))

NoEnd-nil : NoEnd []
unfolding NoEnd
NoEnd-nil [] r t e = t
NoEnd-nil (d ∷ v) r t e = nil_starts d (v ++ r) e

abbrev Ends : Text → Option (Text × Text) → Type 0
Ends s none = NoEnd s
Ends s (some (v, r)) = IsTail v × (s ≡ v ++ r)

Ends-cons :
    (c : Char) (s : Text) (o : Option (Text × Text)) (v f : Bool)
    → Ends s o
    → in_class verbs c ≡ v
    → in_class flags c ≡ f
    → Ends (c ∷ s) (if v then some (c ∷ [], s) else if f then after_flag c o else none)
Ends-cons c s o true f h vb fl = (vb, refl)
Ends-cons c s (some (v, r)) false true h vb fl = (IsTail-cons c v fl h.0, ap (λ x. c ∷ x) h.1)
Ends-cons c s none false true h vb fl = NoEnd-flag c s vb h
Ends-cons c s o false false h vb fl = NoEnd-other c s vb fl

flags_and_verb-Ends : (s : Text) → Ends s (flags_and_verb s)
unfolding flags_and_verb
flags_and_verb-Ends [] = NoEnd-nil
flags_and_verb-Ends (c ∷ s) =
    Ends-cons c s (flags_and_verb s) (is_verb c) (is_flag c) (flags_and_verb-Ends s) (verb_class c)
      (flag_class c)

module _ (c : Char) (s : Text) where
  NoneAt-percent : NoEnd s → NoneAt (c ∷ s)
  unfolding NoEnd
  NoneAt-percent h [] r t e = t
  NoneAt-percent h (d ∷ v) r t e = h v r t.1 (tails c d s (v ++ r) e)

  NoneAt-other : in_class signs c ≡ false → NoneAt (c ∷ s)
  NoneAt-other pc [] r t e = t
  NoneAt-other pc (d ∷ v) r t e =
      let same = ap (in_class signs) (heads c d s (v ++ r) e) ∙ t.0 in
      absurd (ground (arith, pc, same))

abbrev Matches : Text → Option (Text × Text) → Type 0
Matches s none = NoneAt s
Matches s (some (v, r)) = IsDirective v × (s ≡ v ++ r)

Matches-cons :
    (c : Char) (s : Text) (o : Option (Text × Text)) (p : Bool)
    → Ends s o
    → in_class signs c ≡ p
    → Matches (c ∷ s) (if p then after_flag c o else none)
Matches-cons c s (some (v, r)) true h pc = ((pc, h.0), ap (λ x. c ∷ x) h.1)
Matches-cons c s none true h pc = NoneAt-percent c s h
Matches-cons c s o false h pc = NoneAt-other c s pc

match_verb-cons : (c : Char) (s : Text) → Matches (c ∷ s) (match_verb (c ∷ s))
unfolding match_verb
match_verb-cons c s =
    Matches-cons c s (flags_and_verb s) (is_percent c) (flags_and_verb-Ends s) (sign_class c)

abbrev Leftmost : Text → Option (Match × Text) → Type 0
Leftmost s none = NoneIn s []
Leftmost s (some (m, r)) =
    (s ≡ m.before ++ (m.verb ++ r)) × NoneIn m.before (m.verb ++ r) × IsDirective m.verb

Leftmost-cons :
    (c : Char) (s : Text) (o : Option (Text × Text)) (later : Option (Match × Text))
    → Matches (c ∷ s) o
    → Leftmost s later
    → Leftmost (c ∷ s) (here_or o (further c later))
Leftmost-cons c s (some (v, r)) later m l = (m.1, tt, m.0)
Leftmost-cons c s none none m l = (subst (λ t. NoneAt (c ∷ t)) (sym (append-nil s)) m, l)
Leftmost-cons c s none (some (n, r)) m (e, out, d) =
    (ap (λ x. c ∷ x) e, (subst (λ t. NoneAt (c ∷ t)) e m, out), d)

search-Leftmost : (s : Text) → Leftmost s (search s)
unfolding search
search-Leftmost [] = tt
search-Leftmost (c ∷ s) =
    Leftmost-cons c s (match_verb (c ∷ s)) (search s) (match_verb-cons c s) (search-Leftmost s)

IsDirective-length : (v : Text) → IsDirective v → 0 < length v
IsDirective-length [] d = absurd d
IsDirective-length (c ∷ v) d = omega arith

abbrev pub IsCutOf : Text → Scanned → Type 0
IsCutOf s (ms, tail) = IsCut s ms tail

abbrev round : ℕ → Text → Option (Match × Text) → Scanned
round fuel s none = ([], s)
round fuel s (some (m, rest)) = scanned_after m (finditer fuel rest)

finditer-suc : (fuel : ℕ) (s : Text) → finditer (suc fuel) s ≡ round fuel s (search s)
unfolding finditer
finditer-suc fuel s = refl

round-IsCut :
    (fuel : ℕ) (s : Text) (o : Option (Match × Text))
    → length s < suc fuel
    → ((r : Text) → length r < fuel → IsCutOf r (finditer fuel r))
    → Leftmost s o
    → IsCutOf s (round fuel s o)
round-IsCut fuel s none h rest l = (refl, l)
round-IsCut fuel s (some (m, r)) h rest (e, out, d) =
    let shorter : length r < fuel = omega (
      arith,
      ap length e,
      length-append m.before (m.verb ++ r),
      length-append m.verb r,
      IsDirective-length m.verb d,
      h,
    ) in
    (r, e, out, d, rest r shorter)

finditer-IsCut : (fuel : ℕ) (s : Text) → length s < fuel → IsCutOf s (finditer fuel s)
finditer-IsCut zero s h = absurd (omega arith)
finditer-IsCut (suc fuel) s h =
    rw (finditer-suc fuel s)
      (round-IsCut fuel s (search s) h (finditer-IsCut fuel) (search-Leftmost s))

-- The scan of a format cuts it at its leftmost directives: the pieces put together are the format, no
-- directive starts in the text before a piece that is one, and none is left in the tail.
pub matches-IsCut : (fmt : Text) → IsCutOf fmt (matches fmt)
matches-IsCut fmt = finditer-IsCut (suc (length fmt)) fmt (omega arith)
