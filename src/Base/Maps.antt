-- ===== src/Base/Maps.antt =====
-- Lists under a function, member by member.
use mathlib.Core.Path.{◌≡◌, refl, ap, ◌∙◌}
use mathlib.Core.List.{List, [], ◌∷◌, map}
use mathlib.Core.Option.{some}
use Prim.Native.Nat.{ℕ, zero, suc}
use native.Mathlib.Omega.{arith}
use opa_py_wasm.Base.Lists.{get_elem?, set, replicate}

module _ {A B : Type 0} (f : A → B) where
  pub get_elem?-map :
      (xs : List A) (i : ℕ) {a : A} → get_elem? xs i ≡ some a → get_elem? (map f xs) i ≡ some (f a)
  get_elem?-map [] i h = absurd (ground arith)
  get_elem?-map (x ∷ xs) zero h = ap some (ap f (cc h))
  get_elem?-map (x ∷ xs) (suc i) h = get_elem?-map xs i h

  pub map-set : (xs : List A) (i : ℕ) (b : A) → map f (set xs i b) ≡ set (map f xs) i (f b)
  map-set [] i b = refl
  map-set (x ∷ xs) zero b = refl
  map-set (x ∷ xs) (suc i) b = ap (λ ys. f x ∷ ys) (map-set xs i b)

  -- A member replaced by one that the function does not tell apart.
  pub map-set_same :
      (xs : List A) (i : ℕ) (a b : A)
      → get_elem? xs i ≡ some a
      → f b ≡ f a
      → map f (set xs i b) ≡ map f xs
  map-set_same [] i a b h e = refl
  map-set_same (x ∷ xs) zero a b h e = ap (λ y. y ∷ map f xs) (e ∙ ap f (cc h))
  map-set_same (x ∷ xs) (suc i) a b h e = ap (λ ys. f x ∷ ys) (map-set_same xs i a b h e)

  pub map-replicate : (n : ℕ) (a : A) → map f (replicate n a) ≡ replicate n (f a)
  map-replicate zero a = refl
  map-replicate (suc n) a = ap (λ ys. f a ∷ ys) (map-replicate n a)
