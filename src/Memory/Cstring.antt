-- ===== src/Memory/Cstring.antt =====
-- `read_cstring` against a plain description of what it reads.
use opa_py_wasm.Base.{
  ℕ, zero, suc, ◌+◌, ◌-◌, ◌≤◌, min, ◌≡◌, refl, ap, sym, ◌∙◌, true, false, Option, none, some, [],
  ◌∷◌, ◌++◌, arith, leb, ◌==◌, if◌then◌else◌, length, take, drop, slice, length-append, length-take,
  length-drop, Option-cases, Bool-cases, inl, inr, append_assoc, take_split, take_of_le, drop-drop,
  drop_of_le, leb→le,
}
use opa_py_wasm.Base.Int.{ℤ, pos, negsuc, pos_part, leb_ℤ, ltb_ℤ}
use opa_py_wasm.Errors.{fresh, opa, memory}
use opa_py_wasm.Result.{Result, ok, raised, Exec, pure, ◌>>=◌}
use opa_py_wasm.Types.{Bytes}
use opa_py_wasm.Runtime.{Runtime}
use opa_py_wasm.Abi
use opa_py_wasm.Memory.{Limits, cstring_chunk, find_nul, finish, scan, read_cstring}

-- What wasmtime documents of a memory: it is a row of bytes, and a read is a clamped slice.
pub record MemoryLaws (rt : Runtime) : Type 0 where
  pub contents : rt.State → Bytes
  pub len_law : (s : rt.State) → rt.memory_len s ≡ length (contents s)
  pub read_law :
      (a b : ℕ) (s : rt.State) → rt.memory_read (pos a) (pos b) s ≡ ok (slice a b (contents s))

-- The bytes before the first NUL, if there is one.
abbrev pub before_nul : Bytes → Option Bytes
before_nul [] = none
before_nul (b ∷ bs) =
    if b == 0 then some [] else elim (before_nul bs) [ none ↦ none | some t ↦ some (b ∷ t) ]

abbrev prefixed : Bytes → Option Bytes → Option Bytes
prefixed xs none = none
prefixed xs (some t) = some (xs ++ t)

abbrev pub found_or_error : Option Bytes → Result Bytes
found_or_error none = raised (fresh (opa memory))
found_or_error (some t) = ok t

abbrev split_at : Bytes → Bytes → Option ℕ → Option Bytes
split_at xs ys none = prefixed xs (before_nul ys)
split_at xs ys (some n) = some (take n xs)

before_nul-append : (xs ys : Bytes) → before_nul (xs ++ ys) ≡ split_at xs ys (find_nul xs)
unfolding find_nul
before_nul-append [] ys = ground arith
before_nul-append (x ∷ xs) ys = ground (arith, before_nul-append xs ys)

prefixed-prefixed :
    (xs ys : Bytes) (o : Option Bytes) → prefixed xs (prefixed ys o) ≡ prefixed (xs ++ ys) o
prefixed-prefixed xs ys none = refl
prefixed-prefixed xs ys (some t) = ap (λ zs. some zs) (sym (append_assoc xs ys t))

prefixed-nil : (o : Option Bytes) → found_or_error (prefixed [] o) ≡ found_or_error o
prefixed-nil none = refl
prefixed-nil (some t) = refl

module _ (rt : Runtime) (laws : MemoryLaws rt) where
  -- What the loop is to find from a position on, within the budget that is left.
  abbrev rest_of : ℕ → ℕ → Bytes → rt.State → Result Bytes
  rest_of budget at out s =
      found_or_error
        (prefixed out (before_nul (take (budget - length out) (drop at (laws.contents s)))))

  -- The round that reads `k` bytes.
  round :
      (budget at k : ℕ) (out : Bytes) (s : rt.State)
      → k ≤ budget - length out
      → at + k ≤ length (laws.contents s)
      → let chunk = take k (drop at (laws.contents s)) in
        (length (out ++ chunk) ≡ length out + k)
        × (rest_of budget at out s
            ≡ found_or_error (
                prefixed out (
                  split_at chunk
                    (take (budget - length out - k) (drop (at + k) (laws.contents s)))
                    (find_nul chunk))))
  round budget at k out s h fits =
      let m = laws.contents s in
      let chunk = take k (drop at m) in
      (
        omega (arith, length-append out chunk, length-take k (drop at m), length-drop at m),
        ap (λ o. found_or_error (prefixed out o))
            (ap before_nul (
                take_split k (budget - length out - k) (budget - length out) (drop at m)
                  (omega arith)
                ∙ ap (λ d. chunk ++ take (budget - length out - k) d)
                    (drop-drop k at (at + k) m refl))
              ∙ before_nul-append chunk _),
      )

  module _ (budget at k : ℕ) (out : Bytes) (s : rt.State) (within : k ≤ budget - length out)
      (fits : at + k ≤ length (laws.contents s)) where
    round_none :
        find_nul (take k (drop at (laws.contents s))) ≡ none
        → rest_of budget (at + k) (out ++ take k (drop at (laws.contents s))) s
          ≡ rest_of budget at out s
    round_none e =
        let m = laws.contents s in
        let chunk = take k (drop at m) in
        let (len, whole) = round budget at k out s within fits in
        sym (
          whole
          ∙ ap
              (λ o. found_or_error (
                prefixed out (split_at chunk (take (budget - length out - k) (drop (at + k) m)) o)))
              e
          ∙ ap found_or_error (prefixed-prefixed out chunk _)
          ∙ ap
              (λ n.
                found_or_error (prefixed (out ++ chunk) (before_nul (take n (drop (at + k) m)))))
              (omega (arith, len)))

    round_some :
        (n : ℕ)
        → find_nul (take k (drop at (laws.contents s))) ≡ some n
        → ok (out ++ take n (take k (drop at (laws.contents s)))) ≡ rest_of budget at out s
    round_some n e =
        let m = laws.contents s in
        let chunk = take k (drop at m) in
        let (len, whole) = round budget at k out s within fits in
        sym (
          whole
          ∙ ap
              (λ o. found_or_error (
                prefixed out (split_at chunk (take (budget - length out - k) (drop (at + k) m)) o)))
              e)

  spent :
      (budget at : ℕ) (out : Bytes) (s : rt.State)
      → budget ≤ length out
      → raised (fresh (opa memory)) ≡ rest_of budget at out s
  spent budget at out s h =
      let none_left : 0 ≡ budget - length out = omega arith in
      ap (λ n. found_or_error (prefixed out (before_nul (take n (drop at (laws.contents s))))))
        none_left

  at_end :
      (budget at : ℕ) (out : Bytes) (s : rt.State)
      → length (laws.contents s) ≤ at
      → raised (fresh (opa memory)) ≡ rest_of budget at out s
  at_end budget at out s h =
      ap (λ xs. found_or_error (prefixed out (before_nul xs)))
        (sym (
          take_of_le (budget - length out) (drop at (laws.contents s))
            (omega (arith, length-drop at (laws.contents s)))
          ∙ drop_of_le at (laws.contents s) h))

  -- One round, at the position `stop` where its read ends.
  finish_lem :
      (budget at stop : ℕ) (out : Bytes) (s : rt.State) (rest : Exec rt.State Bytes)
      → at ≤ stop
      → stop - at ≤ budget - length out
      → stop ≤ length (laws.contents s)
      → rest s ≡ (rest_of budget stop (out ++ take (stop - at) (drop at (laws.contents s))) s, s)
      → finish rt out
          (take (stop - at) (drop at (laws.contents s)))
          (find_nul (take (stop - at) (drop at (laws.contents s))))
          rest
          s
        ≡ (rest_of budget at out s, s)
  unfolding pure
  finish_lem budget at stop out s rest up within fits ih =
      elim (Option-cases (find_nul (take (stop - at) (drop at (laws.contents s))))) [
        | inl e ↦ rw e (
            ih
            ∙ ap (λ r. (r, s))
                (ap (λ n. rest_of budget n (out ++ take (stop - at) (drop at (laws.contents s))) s)
                    (omega arith)
                  ∙ round_none budget at (stop - at) out s within (omega arith) e))
        | inr (n, e) ↦
            rw e
              (ap (λ r. (r, s)) (round_some budget at (stop - at) out s within (omega arith) n e))
      ]

  read_lem :
      (budget at stop : ℕ) (out : Bytes) (s : rt.State) (rest : Bytes → Exec rt.State Bytes)
      → at ≤ stop
      → stop - at ≤ budget - length out
      → stop ≤ length (laws.contents s)
      → (let chunk = take (stop - at) (drop at (laws.contents s)) in
          rest chunk s ≡ (rest_of budget stop (out ++ chunk) s, s))
      → (Abi.memory_read rt (pos at) (pos stop) >>= λ chunk.
            finish rt out chunk (find_nul chunk) (rest chunk))
          s
        ≡ (rest_of budget at out s, s)
  unfolding Abi.memory_read ◌>>=◌
  read_lem budget at stop out s rest up within fits ih = rw (laws.read_law at stop s) (
      finish_lem budget at stop out s (rest (take (stop - at) (drop at (laws.contents s)))) up
        within fits ih)

  scan_lem :
      (fuel budget at : ℕ) (out : Bytes) (s : rt.State)
      → budget ≤ fuel + length out
      → at ≤ length (laws.contents s)
      → scan rt fuel budget (rt.memory_len s) at out s ≡ (rest_of budget at out s, s)
  unfolding scan ◌>>=◌
  scan_lem zero budget at out s f h = ap (λ r. (r, s)) (spent budget at out s (omega arith))
  scan_lem (suc fuel) budget at out s f h =
      let len = laws.len_law s in
      let stop : ℕ =
        min (min (at + cstring_chunk) (at + (budget - length out))) (rt.memory_len s) in
      let chunk = take (stop - at) (drop at (laws.contents s)) in
      elim (Bool-cases (leb budget (length out))) [
        | inl e ↦ rw e (ap (λ r. (r, s)) (spent budget at out s (leb→le _ _ e)))
        | inr e ↦ rw e (elim (Bool-cases (leb stop at)) [
          | inl d ↦ rw d (ap (λ r. (r, s)) (at_end budget at out s (ground (arith, len))))
          | inr d ↦ rw d (
              read_lem budget at stop out s _ (ground arith) (ground arith) (omega (arith, len)) (
                scan_lem fuel budget stop (out ++ chunk) s
                  (ground (
                    arith,
                    len,
                    length-append out chunk,
                    length-take (stop - at) (drop at (laws.contents s)),
                    length-drop at (laws.contents s),
                  ))
                  (omega (arith, len))))
        ])
      ]

  -- What `read_cstring` is to return, told from the whole memory.
  abbrev pub cstring_at : Limits → ℤ → Bytes → Result Bytes
  cstring_at limits (negsuc n) m = raised (fresh (opa memory))
  cstring_at limits (pos a) m =
      found_or_error (before_nul (take (pos_part limits.max_cstring_scan_bytes) (drop a m)))

  rest_of-start :
      (budget a : ℕ) (s : rt.State)
      → rest_of budget a [] s ≡ found_or_error (before_nul (take budget (drop a (laws.contents s))))
  rest_of-start budget a s =
      let whole : budget - 0 ≡ budget = omega arith in
      ap (λ n. found_or_error (prefixed [] (before_nul (take n (drop a (laws.contents s)))))) whole
      ∙ prefixed-nil (before_nul (take budget (drop a (laws.contents s))))

  -- Where guest memory is a row of bytes: at every address, `read_cstring` returns the bytes from there up to the first NUL if that lies
  -- in the memory within the scan budget, and raises `OpaMemoryError` if not; chunking is invisible.
  pub read_cstring_lem :
      (limits : Limits) (addr : ℤ) (s : rt.State)
      → read_cstring rt limits addr s ≡ (cstring_at limits addr (laws.contents s), s)
  unfolding read_cstring ◌>>=◌ Abi.memory_len
  read_cstring_lem limits (negsuc n) s =
      let negative : ltb_ℤ (negsuc n) (pos 0) ≡ true = ground arith in rw negative
  read_cstring_lem limits (pos a) s =
      let budget = pos_part limits.max_cstring_scan_bytes in
      let len = laws.len_law s in
      let nonneg : ltb_ℤ (pos a) (pos 0) ≡ false = ground arith in
      elim (Bool-cases (leb_ℤ (pos (rt.memory_len s)) (pos a))) [
        | inl e ↦
            rw (nonneg, e)
              (ap (λ r. (r, s))
                (at_end budget a [] s (ground (arith, len)) ∙ rest_of-start budget a s))
        | inr e ↦
            rw (nonneg, e)
              (scan_lem (suc budget) budget a [] s (omega arith) (ground (arith, len))
                ∙ ap (λ r. (r, s)) (rest_of-start budget a s))
      ]
