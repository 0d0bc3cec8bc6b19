-- ===== src/Result/Raises.antt =====
-- Rules for actions: which exceptions the steps of a block may raise.
use opa_py_wasm.Base.{Bool, true, false, if◌then◌else◌}
use opa_py_wasm.Errors.{Kind, Exn, fresh}
use opa_py_wasm.Result.{
  Result, ok, raised, then_result, or_handle, Exec, pure, lift, gets, modify, rethrow, throw,
  raise_if, continue, handled, catch, ◌>>=◌,
}

-- Whatever is raised meets `P`.
abbrev pub RaisedOnly {ℓ κ} : {A : Type ℓ} → (Exn → Type κ) → Result A → Type κ
RaisedOnly P (ok a) = Unit
RaisedOnly P (raised e) = P e

pub record Raises {ℓ κ μ} {S : Type ℓ} {A : Type κ} (P : Exn → Type μ) (m : Exec S A)
    : Type (ℓ ⊔ κ ⊔ μ) where
  pub at : (s : S) → RaisedOnly P (m s).0

module _ {ℓ κ μ} {A : Type ℓ} {B : Type κ} (P : Exn → Type μ) where
  pub RaisedOnly-then :
      (r : Result A) (f : A → Result B)
      → RaisedOnly P r
      → ((a : A) → RaisedOnly P (f a))
      → RaisedOnly P (then_result r f)
  RaisedOnly-then (ok a) f h k = k a
  RaisedOnly-then (raised e) f h k = h

pub RaisedOnly-weaken {ℓ κ μ} :
    {A : Type ℓ} (P : Exn → Type κ) (Q : Exn → Type μ) (r : Result A)
    → ((e : Exn) → P e → Q e)
    → RaisedOnly P r
    → RaisedOnly Q r
RaisedOnly-weaken P Q (ok a) f h = tt
RaisedOnly-weaken P Q (raised e) f h = f e h

-- A handler that turns what meets `Q` into what meets `P`.
pub RaisedOnly-handle {ℓ κ μ} :
    {A : Type ℓ} (P : Exn → Type κ) (Q : Exn → Type μ) (r : Result A) (h : Exn → Result A)
    → RaisedOnly Q r
    → ((e : Exn) → Q e → RaisedOnly P (h e))
    → RaisedOnly P (or_handle r h)
RaisedOnly-handle P Q (ok a) h q k = tt
RaisedOnly-handle P Q (raised e) h q k = k e q

module _ {ℓ κ μ} {S : Type ℓ} {A : Type κ} {P : Exn → Type μ} where
  pub Raises-pure : (value : A) → Raises {S = S} P (pure value)
  unfolding pure
  Raises-pure value = record { at = λ s. tt }

  pub Raises-gets : (read : S → A) → Raises P (gets read)
  unfolding gets
  Raises-gets read = record { at = λ s. tt }

  pub Raises-lift : (r : Result A) → RaisedOnly P r → Raises {S = S} P (lift r)
  unfolding lift
  Raises-lift r h = record { at = λ s. h }

  pub Raises-rethrow : (e : Exn) → P e → Raises {S = S} {A = A} P (rethrow e)
  unfolding rethrow
  Raises-rethrow e h = record { at = λ s. h }

  pub Raises-throw : (k : Kind) → P (fresh k) → Raises {S = S} {A = A} P (throw k)
  unfolding throw
  Raises-throw k h = record { at = λ s. h }

  pub Raises-if :
      (b : Bool) (m n : Exec S A) → Raises P m → Raises P n → Raises P (if b then m else n)
  Raises-if true m n hm hn = hm
  Raises-if false m n hm hn = hn

module _ {ℓ μ} {S : Type ℓ} {P : Exn → Type μ} where
  pub Raises-modify : (f : S → S) → Raises P (modify f)
  unfolding modify
  Raises-modify f = record { at = λ s. tt }

  pub Raises-raise_if : (b : Bool) (k : Kind) → P (fresh k) → Raises {S = S} P (raise_if b k)
  unfolding raise_if
  Raises-raise_if true k h = record { at = λ s. h }
  Raises-raise_if false k h = record { at = λ s. tt }

module _ {ℓ κ ν μ} {S : Type ℓ} {A : Type κ} {B : Type ν} {P : Exn → Type μ} where
  Raises-continue :
      (r : Result A) (rest : A → Exec S B) (s : S)
      → RaisedOnly P r
      → ((a : A) → Raises P (rest a))
      → RaisedOnly P (continue r rest s).0
  Raises-continue (ok a) rest s h k = (k a).at s
  Raises-continue (raised e) rest s h k = h

  pub Raises-bind :
      (first : Exec S A) (rest : A → Exec S B)
      → Raises P first
      → ((a : A) → Raises P (rest a))
      → Raises P (first >>= rest)
  unfolding ◌>>=◌
  Raises-bind first rest h k = record {
    at = λ s. let (r, t) = first s in Raises-continue r rest t (h.at s) k;
  }

module _ {ℓ κ μ ν} {S : Type ℓ} {A : Type κ} {P : Exn → Type μ} {Q : Exn → Type ν} where
  Raises-handled :
      (r : Result A) (h : Exn → Exec S A) (s : S)
      → RaisedOnly Q r
      → ((e : Exn) → Q e → Raises P (h e))
      → RaisedOnly P (handled h r s).0
  Raises-handled (ok a) h s q k = tt
  Raises-handled (raised e) h s q k = (k e q).at s

  pub Raises-catch :
      (m : Exec S A) (h : Exn → Exec S A)
      → Raises Q m
      → ((e : Exn) → Q e → Raises P (h e))
      → Raises P (catch m h)
  Raises-catch m h q k = record { at = λ s. let (r, t) = m s in Raises-handled r h t (q.at s) k }
