-- ===== src/Policy/Whole/Sides.antt =====
-- How the operations of the whole act on its three sides.
use opa_py_wasm.Base.{
  suc, ◌≡◌, refl, ap, ◌∙◌, Bool, true, false, List, [], ◌∷◌, ◌++◌, map, ltb, length, Bool-cases,
  ◌⊎◌, inl, inr, append-nil,
}
use opa_py_wasm.Pool
use opa_py_wasm.Pool.{Pool}
use opa_py_wasm.Policy.Versions
use opa_py_wasm.Policy.Versions.{Holder, Shared}
use opa_py_wasm.Policy.Lifecycle
use opa_py_wasm.Policy.Lifecycle.{Life}
use opa_py_wasm.Policy.Whole.{
  Slot, placeholder, full, sentinel, Whole, put_nowait, free_slot, count_recreated,
}
use opa_py_wasm.Policy.Whole.Turns.{stops}
use opa_py_wasm.Policy.Whole.Views.{
  slot_of, pool_of, pool_thread, holder_of, holders, shared_of, worker_of, life_of, caller_of,
}

pool-length : (slots : List Slot) → length (map slot_of slots) ≡ length slots
pool-length [] = refl
pool-length (slot ∷ slots) = ap suc (pool-length slots)

pool-append :
    (slots others : List Slot)
    → map slot_of (slots ++ others) ≡ map slot_of slots ++ map slot_of others
pool-append [] others = refl
pool-append (slot ∷ slots) others = ap (λ xs. slot_of slot ∷ xs) (pool-append slots others)

pub pool-put_nowait :
    (slot : Slot) (w : Whole)
    → pool_of (put_nowait slot w) ≡ Pool.put_nowait (slot_of slot) (pool_of w)
unfolding put_nowait Pool.put_nowait
pool-put_nowait slot w =
    rw (pool-length w.idle) (elim (Bool-cases (ltb (length w.idle) w.max_size)) [
      | inl e ↦ rw e (ap (λ xs. record (pool_of w) { idle = xs }) (pool-append w.idle (slot ∷ [])))
      | inr e ↦ rw e refl
    ])

pub pool-free_slot :
    (slot : Slot) (w : Whole)
    → pool_of (free_slot slot w) ≡ Pool.free_slot (slot_of slot) (pool_of w)
unfolding free_slot Pool.free_slot
pool-free_slot placeholder w = refl
pool-free_slot (full it) w = refl
pool-free_slot sentinel w = refl

pub pool-count_recreated :
    (b : Bool) (w : Whole) → pool_of (count_recreated b w) ≡ Pool.count_recreated b (pool_of w)
unfolding count_recreated Pool.count_recreated
pool-count_recreated true w = refl
pool-count_recreated false w = refl

holders-append :
    (slots others : List Slot) → holders (slots ++ others) ≡ holders slots ++ holders others
holders-append [] others = refl
holders-append (placeholder ∷ slots) others = holders-append slots others
holders-append (full it ∷ slots) others = ap (λ xs. holder_of it ∷ xs) (holders-append slots others)
holders-append (sentinel ∷ slots) others = holders-append slots others

-- A put adds the instance of the slot, if it has one and there is room.
pub shared-put_nowait :
    (slot : Slot) (w : Whole)
    → (shared_of (put_nowait slot w)
        ≡ record (shared_of w) { idle = holders w.idle ++ holders (slot ∷ []) })
      ⊎ (shared_of (put_nowait slot w) ≡ shared_of w)
unfolding put_nowait
shared-put_nowait slot w = elim (Bool-cases (ltb (length w.idle) w.max_size)) [
  | inl e ↦
      inl (rw e (ap (λ xs. record (shared_of w) { idle = xs }) (holders-append w.idle (slot ∷ []))))
  | inr e ↦ inr (rw e refl)
]

-- A put of what is no instance adds none.
pub shared-put_empty :
    (slot : Slot) (w : Whole)
    → holders (slot ∷ []) ≡ []
    → shared_of (put_nowait slot w) ≡ shared_of w
shared-put_empty slot w e = elim (shared-put_nowait slot w) [
  | inl h ↦
      h
      ∙ ap (λ xs. record (shared_of w) { idle = xs })
          (ap (λ xs. holders w.idle ++ xs) e ∙ append-nil (holders w.idle))
  | inr h ↦ h
]

pub shared-free_slot : (slot : Slot) (w : Whole) → shared_of (free_slot slot w) ≡ shared_of w
unfolding free_slot
shared-free_slot placeholder w = refl
shared-free_slot (full it) w = refl
shared-free_slot sentinel w = refl

pub shared-count_recreated : (b : Bool) (w : Whole) → shared_of (count_recreated b w) ≡ shared_of w
unfolding count_recreated
shared-count_recreated true w = refl
shared-count_recreated false w = refl

pub life-put_nowait : (slot : Slot) (w : Whole) → life_of (put_nowait slot w) ≡ life_of w
unfolding put_nowait
life-put_nowait slot w = elim (Bool-cases (ltb (length w.idle) w.max_size)) [
  | inl e ↦ rw e refl
  | inr e ↦ rw e refl
]

pub life-free_slot : (slot : Slot) (w : Whole) → life_of (free_slot slot w) ≡ life_of w
unfolding free_slot
life-free_slot placeholder w = refl
life-free_slot (full it) w = refl
life-free_slot sentinel w = refl

pub life-count_recreated : (b : Bool) (w : Whole) → life_of (count_recreated b w) ≡ life_of w
unfolding count_recreated
life-count_recreated true w = refl
life-count_recreated false w = refl

-- A thread that has left `evaluate_raw` or `close` is outside on each side.
pub stops-views :
    (b : Bool)
    → (pool_thread (stops b) ≡ Pool.outside)
      × (worker_of (stops b) ≡ Versions.resting)
      × (caller_of (stops b) ≡ Lifecycle.stops b)
stops-views true = (refl, refl, refl)
stops-views false = (refl, refl, refl)
