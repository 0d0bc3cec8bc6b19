-- ===== src/Result.antt =====
-- Python code that may raise: a result, or an exception. A method also gives the state that it
-- leaves, on the raising paths too.
pub mod Keeps
pub mod Raises
use opa_py_wasm.Base.{◌≡◌, refl, Bool, true, false, if◌then◌else◌}
use opa_py_wasm.Errors.{Kind, Exn, fresh, kind_of, is_exception}

pub data Result {ℓ} (A : Type ℓ) : Type ℓ where
  ok : A → Result A
  raised : Exn → Result A

abbrev pub then_result {ℓ κ} : {A : Type ℓ} {B : Type κ} → Result A → (A → Result B) → Result B
then_result (ok a) f = f a
then_result (raised e) f = raised e

pub then_result-eq-ok {ℓ κ} :
    {A : Type ℓ} {B : Type κ} (r : Result A) (f : A → Result B) {b : B}
    → then_result r f ≡ ok b
    → (a : A) × (r ≡ ok a) × (f a ≡ ok b)
then_result-eq-ok (ok a) f h = (a, refl, h)
then_result-eq-ok (raised e) f h = cc

-- `try: r except ...: handler(exc)`
abbrev pub or_handle {ℓ} : {A : Type ℓ} → Result A → (Exn → Result A) → Result A
or_handle (ok a) h = ok a
or_handle (raised e) h = h e

abbrev pub is_ok {ℓ} : {A : Type ℓ} → Result A → Bool
is_ok (ok a) = true
is_ok (raised e) = false

-- Whether an `Exception` was raised.
abbrev pub failed {ℓ} : {A : Type ℓ} → Result A → Bool
failed (ok a) = false
failed (raised e) = is_exception (kind_of e)

abbrev pub Exec {ℓ κ} : Type ℓ → Type κ → Type (ℓ ⊔ κ)
Exec S A = S → Result A × S

module _ {ℓ κ} {S : Type ℓ} {A : Type κ} where
  unfoldable pub pure : A → Exec S A
  pure a s = (ok a, s)

  unfoldable pub lift : Result A → Exec S A
  lift r s = (r, s)

  unfoldable pub gets : (S → A) → Exec S A
  gets f s = (ok (f s), s)

  unfoldable pub rethrow : Exn → Exec S A
  rethrow e s = (raised e, s)

  unfoldable pub throw : Kind → Exec S A
  throw k s = (raised (fresh k), s)

unfoldable pub modify {ℓ} : {S : Type ℓ} → (S → S) → Exec S (Unit {0})
modify f s = (ok tt, f s)

-- `if test: raise k`
unfoldable pub raise_if {ℓ} : {S : Type ℓ} → Bool → Kind → Exec S (Unit {0})
raise_if true k s = (raised (fresh k), s)
raise_if false k s = (ok tt, s)

module _ {ℓ κ μ} {S : Type ℓ} {A : Type κ} {B : Type μ} where
  abbrev pub continue : Result A → (A → Exec S B) → Exec S B
  continue (ok value) rest s = rest value s
  continue (raised e) rest s = (raised e, s)

  infixl 5 ◌>>=◌
  -- Opening it opens the plain actions too.
  unfoldable pub ◌>>=◌ : Exec S A → (A → Exec S B) → Exec S B
  unfolding pure lift gets rethrow throw modify raise_if
  ◌>>=◌ first rest s = let (outcome, left) = first s in continue outcome rest left

  infixl 5 ◌>>◌
  abbrev pub ◌>>◌ : Exec S A → Exec S B → Exec S B
  first >> rest = first >>= λ _. rest

-- `try: m except ...: handler(exc)`; the handler runs in the state that `m` left.
module _ {ℓ κ} {S : Type ℓ} {A : Type κ} where
  abbrev pub handled : (Exn → Exec S A) → Result A → S → Result A × S
  handled h (ok a) s = (ok a, s)
  handled h (raised e) s = h e s

  abbrev pub catch : Exec S A → (Exn → Exec S A) → Exec S A
  catch m h s = let (r, s') = m s in handled h r s'
