-- ===== src/Builtins/Snapshots.antt =====
-- Snapshots do not change, and the next one shows what was registered.
use opa_py_wasm.Base.{
  ℕ, zero, suc, ◌<◌, ◌≡◌, refl, ◌∙◌, String, Bool, not, ◌&&◌, Option, none, some, List, [], ◌∷◌,
  ◌++◌, arith, if◌then◌else◌, length, get_elem?, length-append, get_elem?-append_last, str_eq,
  Bool-cases, inl, inr,
}
use opa_py_wasm.Base.Dict.{Dict, get, put, delete, get-put}
use opa_py_wasm.Errors.Chain.{is_some}
use opa_py_wasm.Result.{is_ok}
use opa_py_wasm.Instance.{Callable}
use opa_py_wasm.Builtins.{
  Registry, view, republish, is_registered, register, unregister, snapshot, Call, registering,
  unregistering, run,
}

get_elem?-append_left :
    {A : Type 0} (xs ys : List A) (i : ℕ) → i < length xs → get_elem? (xs ++ ys) i ≡ get_elem? xs i
get_elem?-append_left [] ys i h = absurd (omega arith)
get_elem?-append_left (x ∷ xs) ys zero h = refl
get_elem?-append_left (x ∷ xs) ys (suc i) h = get_elem?-append_left xs ys i (omega arith)

-- A registry refers to a dict that exists.
abbrev pub IsRegistry : Registry → Type 0
IsRegistry r = r.published < length r.objects

-- What a registry keeps for those who hold references into it.
record Extends (r q : Registry) : Type 0 where
  same : (ref : ℕ) → ref < length r.objects → view ref q ≡ view ref r
  longer : (ref : ℕ) → ref < length r.objects → ref < length q.objects

republish-Extends :
    (change : Dict Callable → Dict Callable) (r : Registry) → Extends r (republish change r)
unfolding view
republish-Extends change r = record {
  same =
      λ ref h. rw (get_elem?-append_left r.objects (change (view r.published r) ∷ []) ref h) refl;
  longer = λ ref h. omega (arith, length-append r.objects (change (view r.published r) ∷ []));
}

Extends-self : (r : Registry) → Extends r r
Extends-self r = record { same = λ ref h. refl; longer = λ ref h. h }

register-Extends :
    (name : String) (fn : Option Callable) (replace : Bool) (r : Registry)
    → Extends r (register name fn replace r).1
unfolding register
register-Extends name none replace r = Extends-self r
register-Extends name (some fn) replace r =
    elim (Bool-cases (not replace && is_registered name r)) [
      | inl e ↦ rw e (Extends-self r)
      | inr e ↦ rw e (republish-Extends (put name fn) r)
    ]

unregister-Extends : (name : String) (r : Registry) → Extends r (unregister name r).1
unfolding unregister
unregister-Extends name r = elim (Bool-cases (is_registered name r)) [
  | inl e ↦ rw e (republish-Extends (delete name) r)
  | inr e ↦ rw e (Extends-self r)
]

run-Extends : (calls : List Call) (r : Registry) → Extends r (run calls r)
unfolding run
run-Extends [] r = Extends-self r
run-Extends (registering name fn replace ∷ calls) r =
    let now = register-Extends name fn replace r in
    let later = run-Extends calls (register name fn replace r).1 in
    record {
      same = λ ref h. later.same ref (now.longer ref h) ∙ now.same ref h;
      longer = λ ref h. later.longer ref (now.longer ref h);
    }
run-Extends (unregistering name ∷ calls) r =
    let now = unregister-Extends name r in
    let later = run-Extends calls (unregister name r).1 in
    record {
      same = λ ref h. later.same ref (now.longer ref h) ∙ now.same ref h;
      longer = λ ref h. later.longer ref (now.longer ref h);
    }

-- Whatever is registered and unregistered after a snapshot was taken, by any thread, the snapshot
-- keeps showing the dict that it showed first.
pub snapshot_stable :
    (r : Registry) (calls : List Call)
    → IsRegistry r
    → view (snapshot r) (run calls r) ≡ view (snapshot r) r
unfolding snapshot
snapshot_stable r calls h = (run-Extends calls r).same r.published h

view-republish :
    (change : Dict Callable → Dict Callable) (r : Registry)
    → view (republish change r).published (republish change r) ≡ change (view r.published r)
unfolding view
view-republish change r = rw get_elem?-append_last

-- A registration that is accepted is what the next snapshot finds under its name, and it changes no
-- other name. It is refused, and changes nothing, exactly where what is given cannot be called, or
-- replacing is off and the name taken.
pub register_lem :
    (name other : String) (fn : Option Callable) (replace : Bool) (r : Registry)
    → let (o, q) = register name fn replace r in
      (is_ok o ≡ (is_some fn && not (not replace && is_registered name r)))
      × (get other (view (snapshot q) q)
          ≡ (if is_ok o && str_eq name other then fn else get other (view (snapshot r) r)))
unfolding register snapshot
register_lem name other none replace r = (refl, refl)
register_lem name other (some fn) replace r =
    elim (Bool-cases (not replace && is_registered name r)) [
      | inl e ↦ rw e (refl, refl)
      | inr e ↦ rw e (refl, rw (view-republish (put name fn) r) (get-put name other fn _))
    ]
