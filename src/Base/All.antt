-- ===== src/Base/All.antt =====
-- A predicate on every member of a list, and lists that grow at the end.
use mathlib.Core.Path.{◌≡◌, subst}
use mathlib.Core.List.{List, [], ◌∷◌, ◌++◌}
use mathlib.Core.Option.{some}
use Prim.Native.Nat.{ℕ, zero, suc}
use native.Mathlib.Omega.{arith}
use opa_py_wasm.Base.Lists.{get_elem?, set, replicate}

-- A predicate on every member of a list.
abbrev pub All {ℓ} : {A : Type ℓ} → (A → Type 0) → List A → Type 0
All P [] = Unit {0}
All P (x ∷ xs) = P x × All P xs

module _ {A : Type 0} (P : A → Type 0) where
  pub All-get : (xs : List A) (k : ℕ) {a : A} → All P xs → get_elem? xs k ≡ some a → P a
  All-get [] k h e = absurd (ground arith)
  All-get (x ∷ xs) zero h e = subst P (cc e) h.0
  All-get (x ∷ xs) (suc k) h e = All-get xs k h.1 e

  pub All-set : (xs : List A) (k : ℕ) (b : A) → All P xs → P b → All P (set xs k b)
  All-set [] k b h p = tt
  All-set (x ∷ xs) zero b h p = (p, h.1)
  All-set (x ∷ xs) (suc k) b h p = (h.0, All-set xs k b h.1 p)

  pub All-concat : (xs : List A) (b : A) → All P xs → P b → All P (xs ++ b ∷ [])
  All-concat [] b h p = (p, tt)
  All-concat (x ∷ xs) b h p = (h.0, All-concat xs b h.1 p)

  pub All-replicate : (n : ℕ) (a : A) → P a → All P (replicate n a)
  All-replicate zero a p = tt
  All-replicate (suc n) a p = (p, All-replicate n a p)

pub All-map :
    {A : Type 0} (P Q : A → Type 0) (xs : List A) → ((a : A) → P a → Q a) → All P xs → All Q xs
All-map P Q [] f h = tt
All-map P Q (x ∷ xs) f h = (f x h.0, All-map P Q xs f h.1)

pub get_elem?-append_left :
    {A : Type 0} (xs ys : List A) (i : ℕ) {a : A}
    → get_elem? xs i ≡ some a
    → get_elem? (xs ++ ys) i ≡ some a
get_elem?-append_left [] ys i h = absurd (ground arith)
get_elem?-append_left (x ∷ xs) ys zero h = h
get_elem?-append_left (x ∷ xs) ys (suc i) h = get_elem?-append_left xs ys i h
