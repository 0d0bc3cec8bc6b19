-- ===== src/Result/Keeps.antt =====
-- Rules for actions: what every step of a block keeps, and what its last step establishes.
use opa_py_wasm.Base.{◌≡◌, refl, sym, subst, Bool, true, false, if◌then◌else◌}
use opa_py_wasm.Errors.{Exn}
use opa_py_wasm.Result.{
  Result, ok, raised, Exec, pure, gets, rethrow, handled, continue, catch, ◌>>=◌,
}

-- `m` keeps `P`, whether it returns or raises.
pub record Keeps {ℓ κ μ} {S : Type ℓ} {A : Type κ} (P : S → Type μ) (m : Exec S A)
    : Type (ℓ ⊔ κ ⊔ μ) where
  pub at : (s : S) → P s → P (m s).1

-- A postcondition of a result; an exception meets any.
abbrev pub Post {ℓ κ μ} : {S : Type ℓ} {A : Type κ} → (A → S → Type μ) → Result A → S → Type μ
Post Q (ok a) s = Q a s
Post Q (raised e) s = Unit

-- Whenever `m` returns, `Q` holds of the value and the state.
pub record Returns {ℓ κ μ} {S : Type ℓ} {A : Type κ} (Q : A → S → Type μ) (m : Exec S A)
    : Type (ℓ ⊔ κ ⊔ μ) where
  pub at : (s : S) → Post Q (m s).0 (m s).1

module _ {ℓ κ μ} {S : Type ℓ} {A : Type κ} {P : S → Type μ} where
  -- What leaves the state alone keeps everything.
  still : (m : Exec S A) → ((s : S) → (m s).1 ≡ s) → Keeps P m
  still m same = record { at = λ s kept. subst P (sym (same s)) kept }

  pub Keeps-rethrow : (e : Exn) → Keeps P (rethrow {A = A} e)
  unfolding rethrow
  Keeps-rethrow e = still (rethrow e) λ s. refl

  pub Keeps-pure : (value : A) → Keeps P (pure value)
  unfolding pure
  Keeps-pure value = still (pure value) λ s. refl

  pub Keeps-gets : (read : S → A) → Keeps P (gets read)
  unfolding gets
  Keeps-gets read = still (gets read) λ s. refl

  pub Keeps-if : (b : Bool) (m n : Exec S A) → Keeps P m → Keeps P n → Keeps P (if b then m else n)
  Keeps-if true m n km kn = km
  Keeps-if false m n km kn = kn

  Keeps-handled :
      (r : Result A) (h : Exn → Exec S A) → ((e : Exn) → Keeps P (h e)) → Keeps P (handled h r)
  unfolding pure
  Keeps-handled (ok a) h kh = Keeps-pure a
  Keeps-handled (raised e) h kh = kh e

  pub Keeps-catch :
      (m : Exec S A) (h : Exn → Exec S A)
      → Keeps P m
      → ((e : Exn) → Keeps P (h e))
      → Keeps P (catch m h)
  Keeps-catch m h km kh = record {
    at = λ s p. let (r, s') = m s in (Keeps-handled r h kh).at s' (km.at s p);
  }

module _ {ℓ κ ν μ} {S : Type ℓ} {A : Type κ} {B : Type ν} where
  Keeps-continue :
      {P : S → Type μ} (r : Result A) (rest : A → Exec S B)
      → ((a : A) → Keeps P (rest a))
      → Keeps P (continue r rest)
  unfolding rethrow
  Keeps-continue (ok a) rest rest_kept = rest_kept a
  Keeps-continue (raised e) rest rest_kept = Keeps-rethrow e

  pub Keeps-bind :
      {P : S → Type μ} (first : Exec S A) (rest : A → Exec S B)
      → Keeps P first
      → ((a : A) → Keeps P (rest a))
      → Keeps P (first >>= rest)
  unfolding ◌>>=◌
  Keeps-bind first rest kept rest_kept = record {
    at = λ s p. let (r, s') = first s in (Keeps-continue r rest rest_kept).at s' (kept.at s p);
  }

  Returns-continue :
      {Q : B → S → Type μ} (r : Result A) (rest : A → Exec S B) (s : S)
      → ((a : A) → Returns Q (rest a))
      → Post Q (continue r rest s).0 (continue r rest s).1
  Returns-continue (ok a) rest s rest_holds = (rest_holds a).at s
  Returns-continue (raised e) rest s rest_holds = tt

  -- A postcondition of the last action of a block is one of the block.
  pub Returns-bind :
      {Q : B → S → Type μ} (first : Exec S A) (rest : A → Exec S B)
      → ((a : A) → Returns Q (rest a))
      → Returns Q (first >>= rest)
  unfolding ◌>>=◌
  Returns-bind first rest rest_holds = record {
    at = λ s. let (r, s') = first s in Returns-continue r rest s' rest_holds;
  }
