-- ===== src/Errors.antt =====
-- opapywasm/errors.py: the exception classes, and exceptions as Python has them: objects linked by
-- `__cause__` and `__context__`, whose links may run in a circle.
pub mod Chain
use opa_py_wasm.Base.{
  ◌⊎◌, ℕ, String, ◌≡◌, refl, ap, Bool, true, false, Option, none, some, List, [], ◌∷◌, ◌++◌, length,
  get_elem?, set, get_elem?-append_last, get_elem?-lt, get_elem?-set_self,
}

-- The classes of errors.py below `OpaWasmError`, which is flat.
pub data OpaError : Type 0 where
  invalid_policy abi abort evaluation builtin memory : OpaError
  pool_timeout policy_closed invalid_input entrypoint data_error : OpaError

-- What the program's handlers tell apart. `exit` stands for the exceptions that do not derive from
-- `Exception`, such as `KeyboardInterrupt`.
pub data Kind : Type 0 where
  opa_wasm : Kind
  opa : OpaError → Kind
  value_error : Kind
  unicode_error : Kind
  type_error : Kind
  trap : Kind
  other : Kind
  exit : Kind

-- isinstance(exc, OpaWasmError)
abbrev pub is_opa : Kind → Bool
is_opa opa_wasm = true
is_opa (opa e) = true
is_opa _ = false

-- isinstance(exc, Exception)
abbrev pub is_exception : Kind → Bool
is_exception exit = false
is_exception _ = true

-- isinstance(exc, ValueError): `UnicodeError` derives from it.
abbrev pub is_value_error : Kind → Bool
is_value_error value_error = true
is_value_error unicode_error = true
is_value_error _ = false

pub record ExnObject : Type 0 where
  pub kind : Kind
  pub text : String
  pub cause : Option ℕ
  pub context : Option ℕ

-- A raised exception: the objects that its links reach, and the place of the one that was raised.
pub record Exn : Type 0 where
  pub objects : List ExnObject
  pub root : ℕ

abbrev pub or_other : Option ExnObject → Kind
or_other none = other
or_other (some o) = o.kind

-- type(exc)
unfoldable pub kind_of : Exn → Kind
kind_of e = or_other (get_elem? e.objects e.root)

abbrev pub or_no_text : Option ExnObject → String
or_no_text none = ""
or_no_text (some o) = o.text

-- str(exc)
unfoldable pub text_of : Exn → String
text_of e = or_no_text (get_elem? e.objects e.root)

-- If `e` is an `Exception`, then `P`.
abbrev pub IfException : Exn → Type 0 → Type 0
IfException e P = (is_exception (kind_of e) ≡ false) ⊎ P

-- A new exception object with no links. The messages that the program composes are left out.
unfoldable pub fresh : Kind → Exn
fresh k = record {
  objects = record { kind = k; text = ""; cause = none; context = none } ∷ [];
  root = 0;
}

-- `raise k(text) from e`, in the handler of `e`: a new object whose two links are `e`.
unfoldable pub raise_saying : Kind → String → Exn → Exn
raise_saying k text e = record {
  objects =
      e.objects
      ++ record { kind = k; text = text; cause = some e.root; context = some e.root } ∷ [];
  root = length e.objects;
}

-- The same with a message that the program composes.
abbrev pub raise_from : Kind → Exn → Exn
raise_from k e = raise_saying k "" e

abbrev with_cause : List ExnObject → ℕ → Option ExnObject → ℕ → List ExnObject
with_cause objects i none c = objects
with_cause objects i (some o) c = set objects i (record o { cause = some c })

-- `raise typed from e`, where `typed` is the object `i` among those that `e` links.
unfoldable pub raise_linked : ℕ → Exn → Exn
raise_linked i e = record {
  objects = with_cause e.objects i (get_elem? e.objects i) e.root;
  root = i;
}

pub kind_of-fresh : (k : Kind) → kind_of (fresh k) ≡ k
unfolding kind_of fresh
kind_of-fresh k = refl

pub kind_of-raise_saying :
    (k : Kind) (text : String) (e : Exn) → kind_of (raise_saying k text e) ≡ k
unfolding kind_of raise_saying
kind_of-raise_saying k text e = rw get_elem?-append_last

-- Linking a cause to an object changes no object's class, nor its text.
object-raise_linked :
    (i : ℕ) (e : Exn) (o : ExnObject)
    → get_elem? e.objects i ≡ some o
    → get_elem? (raise_linked i e).objects i ≡ some (record o { cause = some e.root })
unfolding raise_linked
object-raise_linked i e o h =
    rw (h, raise_linked) (get_elem?-set_self e.objects i _ (get_elem?-lt e.objects i h))

pub kind_of-raise_linked :
    (i : ℕ) (e : Exn) (o : ExnObject)
    → get_elem? e.objects i ≡ some o
    → (kind_of (raise_linked i e) ≡ o.kind) × (text_of (raise_linked i e) ≡ o.text)
unfolding kind_of text_of raise_linked
kind_of-raise_linked i e o h =
    let at = object-raise_linked i e o h in (ap or_other at, ap or_no_text at)
