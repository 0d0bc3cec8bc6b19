-- ===== src/Errors/Chain.antt =====
-- opapywasm/evaluator.py: the two walks along an exception's `__cause__` / `__context__` links, with
-- the `seen` set that ends them where the links run in a circle.
use text.Mathlib.Text.{find?}
use opa_py_wasm.Base.{
  ℕ, zero, suc, ◌+◌, ◌≤◌, ◌<◌, String, ◌≡◌, refl, inl, inr, Bool, true, false, ◌||◌, Option, none,
  some, List, [], ◌∷◌, arith, ◌==◌, if◌then◌else◌, length, get_elem?, get_elem?-lt, contains,
  Bool-cases, Option-cases,
}
use opa_py_wasm.Errors.{ExnObject, Exn, is_opa}

-- `cur.__cause__ or cur.__context__`
abbrev pub next_link : ExnObject → Option ℕ
next_link o = elim o.cause [ some i ↦ some i | none ↦ o.context ]

-- The loop of both walks: the first object that passes the test. `none` means that the fuel ran
-- out; `some none` that the links ended, or led back to an object already seen.
unfoldable pub walk :
    (ExnObject → Bool) → List ExnObject → ℕ → List ℕ → Option ℕ → Option (Option ℕ)
walk test objects zero seen cur = none
walk test objects (suc fuel) seen none = some none
walk test objects (suc fuel) seen (some i) = elim (get_elem? objects i) [
  | none ↦ some none
  | some o ↦
      let rest = walk test objects fuel (i ∷ seen) (next_link o) in
      if contains seen i then some none else if test o then some (some i) else rest
]

abbrev pub chain_fuel : Exn → ℕ
chain_fuel e = suc (length e.objects)

abbrev pub found {ℓ} : {A : Type ℓ} → Option (Option A) → Option A
found none = none
found (some o) = o

abbrev pub is_some {ℓ} : {A : Type ℓ} → Option A → Bool
is_some none = false
is_some (some a) = true

-- The first typed error of the chain, as its place among the objects.
unfoldable pub find_typed_in_chain : Exn → Option ℕ
find_typed_in_chain e = found (walk (λ o. is_opa o.kind) e.objects (chain_fuel e) [] (some e.root))

-- `lower` is `str.lower`.
module _ (lower : String → String) where
  abbrev mentions_interrupt : ExnObject → Bool
  mentions_interrupt o =
      is_some (find? (lower o.text) "interrupt") || is_some (find? (lower o.text) "epoch")

  -- Whether an object of the chain has a text that mentions "interrupt" or "epoch".
  unfoldable pub is_epoch_interrupt : Exn → Bool
  is_epoch_interrupt e =
      is_some (found (walk mentions_interrupt e.objects (chain_fuel e) [] (some e.root)))

-- The number of places below `n` that are not yet seen.
unseen : ℕ → List ℕ → ℕ
unseen zero seen = 0
unseen (suc n) seen = unseen n seen + (if contains seen n then 0 else 1)

unseen-le : (n : ℕ) (seen : List ℕ) → unseen n seen ≤ n
unfolding unseen
unseen-le zero seen = omega arith
unseen-le (suc n) seen = ground (arith, unseen-le n seen)

unseen-cons_of_le : (n i : ℕ) (seen : List ℕ) → n ≤ i → unseen n (i ∷ seen) ≡ unseen n seen
unfolding unseen contains
unseen-cons_of_le zero i seen h = refl
unseen-cons_of_le (suc n) i seen h = ground (arith, unseen-cons_of_le n i seen)

-- Seeing a new place below `n` leaves one place less.
unseen-cons :
    (n i : ℕ) (seen : List ℕ)
    → i < n
    → contains seen i ≡ false
    → unseen n (i ∷ seen) + 1 ≡ unseen n seen
unfolding unseen contains
unseen-cons zero i seen h c = absurd (omega arith)
unseen-cons (suc n) i seen h c = elim (Bool-cases (i == n)) [
  | inl e ↦ ground (arith, unseen-cons_of_le n i seen)
  | inr e ↦ ground (arith, unseen-cons n i seen)
]

walk_ends_from :
    (test : ExnObject → Bool) (objects : List ExnObject) (fuel : ℕ) (seen : List ℕ) (cur : Option ℕ)
    → unseen (length objects) seen < fuel
    → (r : Option ℕ) × (walk test objects fuel seen cur ≡ some r)
unfolding walk
walk_ends_from test objects zero seen cur h = absurd (omega arith)
walk_ends_from test objects (suc fuel) seen none h = (none, refl)
walk_ends_from test objects (suc fuel) seen (some i) h = elim (Option-cases (get_elem? objects i)) [
  | inl e ↦ (none, rw (e, walk))
  | inr (o, e) ↦ elim (Bool-cases (contains seen i)) [
    | inl c ↦ (none, rw (e, walk) (rw c))
    | inr c ↦
        let fewer = unseen-cons (length objects) i seen (get_elem?-lt objects i e) c in
        let (r, p) = walk_ends_from test objects fuel (i ∷ seen) (next_link o) (omega arith) in
        elim (Bool-cases (test o)) [
          | inl t ↦ (some i, rw (e, walk) (rw (c, t)))
          | inr t ↦ (r, rw (e, walk) (rw (c, t) p))
        ]
  ]
]

-- Whatever the links, circles included, both walks end within the fuel that they are given.
pub walk_ends :
    (test : ExnObject → Bool) (e : Exn)
    → (r : Option ℕ) × (walk test e.objects (chain_fuel e) [] (some e.root) ≡ some r)
walk_ends test e =
    walk_ends_from test e.objects (chain_fuel e) [] (some e.root)
      (omega (arith, unseen-le (length e.objects) []))

-- What a walk finds passes the test.
pub walk_passes :
    (test : ExnObject → Bool) (objects : List ExnObject) (fuel : ℕ) (seen : List ℕ) (cur : Option ℕ)
    {i : ℕ}
    → walk test objects fuel seen cur ≡ some (some i)
    → (o : ExnObject) × (get_elem? objects i ≡ some o) × (test o ≡ true)
unfolding walk
walk_passes test objects zero seen cur h = cc
walk_passes test objects (suc fuel) seen none h = cc
walk_passes test objects (suc fuel) seen (some j) {i} h =
    elim (Option-cases (get_elem? objects j)) [
      | inl e ↦ absurd (ground arith)
      | inr (o, e) ↦
          let h' = rw (e, walk) at h in
          elim (Bool-cases (contains seen j)) [
            | inl c ↦ cc (rw c at h')
            | inr c ↦
                let h'' = rw c at h' in
                elim (Bool-cases (test o)) [
                  | inl t ↦ let same : i ≡ j = cc (rw t at h'') in (o, rw same e, t)
                  | inr t ↦ walk_passes test objects fuel (j ∷ seen) (next_link o) (rw t at h'')
                ]
          ]
    ]
