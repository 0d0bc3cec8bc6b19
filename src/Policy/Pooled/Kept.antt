-- ===== src/Policy/Pooled/Kept.antt =====
-- One evaluation keeps the idle instances of a policy healthy.
use opa_py_wasm.Base.{
  ℕ, suc, ◌+◌, ◌≤◌, ◌≡◌, refl, ◌⊎◌, inl, inr, Bool, true, false, none, some, List, [], ◌∷◌, arith,
  if◌then◌else◌, length, length-append,
}
use opa_py_wasm.Base.All.{All, All-concat}
use opa_py_wasm.Base.Dict.{Dict}
use opa_py_wasm.Base.Int.{ℤ}
use opa_py_wasm.Errors.{fresh, opa, policy_closed}
use opa_py_wasm.Result.{Result, ok, raised}
use opa_py_wasm.Types.{Value, Host, PolicyConfig}
use opa_py_wasm.Runtime.{Runtime}
use opa_py_wasm.Abi.{OpaAbiSpec}
use opa_py_wasm.Data.Checkpoint.{HeapLaws, IsClean}
use opa_py_wasm.Instance.{Instance, Built}
use opa_py_wasm.Instance.Construction.{WasBuilt, build-WasBuilt}
use opa_py_wasm.Policy.{DataState, as_value}
use opa_py_wasm.Policy.Construction.{built_on, new_scaffold}
use opa_py_wasm.Policy.Pooled.{
  Slot, Served, put_slot, release, lend, lent, after_create, with_slot, borrow, evaluate_at,
}
use opa_py_wasm.Policy.Pooled.Healthy.{exits, Lent, lend-Lent}

module _ (rt : Runtime) (laws : HeapLaws rt) where
  -- An instance that is fit for any loan: not poisoned, its heap at the checkpoint, its data no newer
  -- than the policy's.
  abbrev pub IsHealthy : ℕ → Slot rt → Type 0
  IsHealthy v none = Unit
  IsHealthy v (some i) =
      (i.poisoned ≡ false) × IsClean rt laws i.session.manager × (i.data_version ≤ v)

  -- Every idle instance is fit, and until `close` no slot is lost.
  abbrev pub IsSound : ℕ → Served rt → Type 0
  IsSound size p =
      All (IsHealthy p.documents.version) p.idle
      × ((p.documents.closed ≡ true) ⊎ (length p.idle ≡ size))

module _ (host : Host) (rt : Runtime) (config : PolicyConfig) (spec : OpaAbiSpec)
    (create : ℕ → Result rt.State) (ensured : Result (Unit {0})) (entrypoints : Dict ℤ)
    (laws : HeapLaws rt) (size : ℕ) where
  -- A call that has not exited leaves the policy sound.
  abbrev pub Kept : {A : Type 0} → Result A → Served rt → Type 0
  Kept r q = (exits r ≡ true) ⊎ IsSound rt laws size q

  -- One slot is out, and the others are sound.
  abbrev IsLending : Served rt → Type 0
  IsLending p = All (IsHealthy rt laws p.documents.version) p.idle × (suc (length p.idle) ≡ size)

  put-IsSound :
      (slot : Slot rt) (p : Served rt)
      → IsLending p
      → IsHealthy rt laws p.documents.version slot
      → IsSound rt laws size (put_slot slot p)
  put-IsSound slot p (all, count) h = (
    All-concat (IsHealthy rt laws p.documents.version) p.idle slot all h,
    inr (omega (arith, length-append p.idle (slot ∷ []), count)),
  )

  clean-IsSound :
      (i : Instance rt) (p : Served rt) (poisoned : Bool)
      → i.poisoned ≡ poisoned
      → IsLending p
      → IsClean rt laws i.session.manager
      → i.data_version ≤ p.documents.version
      → IsSound rt laws size (
          if poisoned
          then put_slot none (record p { recreated = p.recreated + 1 })
          else put_slot (some i) p)
  clean-IsSound i p true x l c v = put-IsSound none (record p { recreated = p.recreated + 1 }) l tt
  clean-IsSound i p false x l c v = put-IsSound (some i) p l (x, c, v)

  release-Kept :
      (r : Result Value) (i : Instance rt) (p : Served rt)
      → IsLending p
      → Lent host rt config laws p.documents.version r i
      → Kept r (release i p)
  unfolding release
  release-Kept r i p l (inl x) = inl x
  release-Kept r i p l (inr (inl x)) =
      rw x (inr (put-IsSound none (record p { recreated = p.recreated + 1 }) l tt))
  release-Kept r i p l (inr (inr (c, v))) =
      inr (clean-IsSound i p i.poisoned refl l c (omega (arith, v)))

  lent-Kept :
      (input_value : Value) (ident : ℤ) (i : Instance rt) (p : Served rt)
      → IsLending p
      → IsClean rt laws i.session.manager
      → let (r, q) = lent host rt config spec create ensured entrypoints input_value ident i p in
        Kept r q
  lent-Kept input_value ident i p l c =
      let (r, j) = lend host rt config input_value ident p.documents i in
      release-Kept r j p l (lend-Lent host rt config laws input_value ident p.documents i c)

  -- A new instance is clean.
  abbrev IsNew : Result (Built rt) → Type 0
  IsNew (ok b) = IsClean rt laws b.made.session.manager
  IsNew (raised e) = Unit

  built-IsNew :
      (v : ℕ) (r : Result (Built rt)) (s : rt.State)
      → WasBuilt host rt config spec laws ensured v r s
      → IsNew r
  built-IsNew v (ok b) s h = let (p, e, d, c, q) = h in c
  built-IsNew v (raised e) s h = tt

  created-IsNew :
      (d : DataState) (c : Result rt.State)
      → IsNew (built_on host rt config spec ensured d c new_scaffold).0
  created-IsNew d (raised e) = tt
  created-IsNew d (ok store) =
      built-IsNew d.version _ _
        (build-WasBuilt host rt config spec laws ensured (as_value d.document) d.version store)

  after_create-Kept :
      (input_value : Value) (ident : ℤ) (r : Result (Built rt)) (p : Served rt)
      → IsLending p
      → IsNew r
      → let (o, q) =
          after_create host rt config spec create ensured entrypoints input_value ident r p in
        Kept o q
  after_create-Kept input_value ident (raised e) p l h = inr (put-IsSound none p l tt)
  after_create-Kept input_value ident (ok b) p l h =
      lent-Kept input_value ident b.made (record p { created = p.created + 1 }) l h

  with_slot-Kept :
      (input_value : Value) (ident : ℤ) (slot : Slot rt) (p : Served rt)
      → IsLending p
      → IsHealthy rt laws p.documents.version slot
      → let (o, q) =
          with_slot host rt config spec create ensured entrypoints input_value ident slot p in
        Kept o q
  with_slot-Kept input_value ident (some i) p l h = lent-Kept input_value ident i p l h.1
  with_slot-Kept input_value ident none p l h =
      after_create-Kept input_value ident _ (record p { asked = p.asked + 1 }) l
        (created-IsNew p.documents (create p.asked))

  borrow-Kept :
      (input_value : Value) (ident : ℤ) (idle : List (Slot rt)) (p : Served rt)
      → p.idle ≡ idle
      → IsSound rt laws size p
      → All (IsHealthy rt laws p.documents.version) idle
      → length idle ≡ size
      → let (o, q) =
          borrow host rt config spec create ensured entrypoints input_value ident idle p in
        Kept o q
  borrow-Kept input_value ident [] p e s all count = inr s
  borrow-Kept input_value ident (slot ∷ rest) p e s all count =
      with_slot-Kept input_value ident slot (record p { idle = rest }) (all.1, count) all.0

  open_or_closed :
      (input_value : Value) (ident : ℤ) (p : Served rt) (closed : Bool)
      → p.documents.closed ≡ closed
      → IsSound rt laws size p
      → let (o, q) =
          if closed
          then (raised (fresh (opa policy_closed)), p)
          else borrow host rt config spec create ensured entrypoints input_value ident p.idle p in
        Kept o q
  open_or_closed input_value ident p true x s = inr s
  open_or_closed input_value ident p false x s = elim s.1 [
    | inl y ↦ absurd (ground (arith, x, y))
    | inr count ↦ borrow-Kept input_value ident p.idle p refl s s.0 count
  ]

  pub evaluate_at-Kept :
      (input_value : Value) (ident : Result ℤ) (p : Served rt)
      → IsSound rt laws size p
      → let (o, q) =
          evaluate_at host rt config spec create ensured entrypoints input_value ident p in
        Kept o q
  evaluate_at-Kept input_value (raised e) p s = inr s
  evaluate_at-Kept input_value (ok ident) p s =
      open_or_closed input_value ident p p.documents.closed refl s
