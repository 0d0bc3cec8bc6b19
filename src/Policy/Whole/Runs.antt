-- ===== src/Policy/Whole/Runs.antt =====
-- Every run of the whole is a run of the pool, of the data document and of the lifecycle.
use opa_py_wasm.Base.{
  ℕ, zero, suc, ◌≤◌, ◌≡◌, refl, sym, ap, ◌∙◌, subst, ◌⊎◌, inl, inr, false, some, List, [], ◌∷◌, map,
  arith, get_elem?, set, replicate, Bool-cases,
}
use opa_py_wasm.Base.Maps.{get_elem?-map, map-set, map-set_same, map-replicate}
use opa_py_wasm.Pool
use opa_py_wasm.Pool.{System, Step}
use opa_py_wasm.Pool.Weights.{owns, le-sum_of}
use opa_py_wasm.Pool.Ownership.{placed}
use opa_py_wasm.Pool.Safety.{exclusive_loan}
use opa_py_wasm.Policy.Versions
use opa_py_wasm.Policy.Versions.{World, new_shared}
use opa_py_wasm.Policy.Versions.Fresh.{no_stale_data}
use opa_py_wasm.Policy.Lifecycle
use opa_py_wasm.Policy.Lifecycle.{new_life}
use opa_py_wasm.Policy.Ticker.{running, ticker_outlives}
use opa_py_wasm.Policy.Whole.{Item, Whole, placeholder, new_whole, init}
use opa_py_wasm.Policy.Whole.Turns.{
  Thread, away, evaluating, Scene, Act, turn, Reaches, begin, then',
}
use opa_py_wasm.Policy.Whole.Views.{
  slot_of, pool_of, pool_thread, holder_of, holders, shared_of, worker_of, life_of, caller_of,
}
use opa_py_wasm.Policy.Whole.Refines.{OrSame, Turn-pool, Turn-shared, Turn-life}

abbrev pub pool_scene : Scene → System
pool_scene s = record { pool = pool_of s.whole; threads = map pool_thread s.threads }

abbrev pub data_scene : Scene → World
data_scene s = record { shared = shared_of s.whole; workers = map worker_of s.threads }

abbrev pub life_scene : Scene → Lifecycle.Scene
life_scene s = record { life = life_of s.whole; callers = map caller_of s.threads }

-- A step on one side: the thread that moves, among all of them.
module _ {S T U : Type 0} (R : S → T → S → T → Type 0) (Steps : U → U → Type 0) (f : Thread → T)
    (scene : S → List T → U)
    (pick : (x y : S) (a b : T) (ts : List T) (i : ℕ)
      → get_elem? ts i ≡ some a
      → R x a y b
      → Steps (scene x ts) (scene y (set ts i b))) where
  lifted :
      {x y : S} (ts : List Thread) (i : ℕ) (a b : Thread)
      → get_elem? ts i ≡ some a
      → OrSame R x (f a) y (f b)
      → (scene y (map f (set ts i b)) ≡ scene x (map f ts))
        ⊎ Steps (scene x (map f ts)) (scene y (map f (set ts i b)))
  lifted {x} {y} ts i a b e (inl (p, q)) =
      inl (ap (λ z. scene z (map f (set ts i b))) p ∙ ap (scene x) (map-set_same f ts i a b e q))
  lifted {x} {y} ts i a b e (inr m) = inr (
      subst (λ us. Steps (scene x (map f ts)) (scene y us)) (sym (map-set f ts i b))
        (pick x y (f a) (f b) (map f ts) i (get_elem?-map f ts i e) m))

Act-pool :
    {s t : Scene} → Act s t → (pool_scene t ≡ pool_scene s) ⊎ Step (pool_scene s) (pool_scene t)
Act-pool {s} (turn {w} {a} {b} i e m) =
    lifted Pool.Move Step pool_thread (λ p ts. record { pool = p; threads = ts })
      (λ x y c d ts j at move. Pool.pick j at move) s.threads i a b e (Turn-pool m)

Act-data :
    {s t : Scene}
    → Act s t
    → (data_scene t ≡ data_scene s) ⊎ Versions.Act (data_scene s) (data_scene t)
Act-data {s} (turn {w} {a} {b} i e m) =
    lifted Versions.Turn Versions.Act worker_of (λ p ts. record { shared = p; workers = ts })
      (λ x y c d ts j at move. Versions.act j at move) s.threads i a b e (Turn-shared m)

Act-life :
    {s t : Scene}
    → Act s t
    → (life_scene t ≡ life_scene s) ⊎ Lifecycle.Act (life_scene s) (life_scene t)
Act-life {s} (turn {w} {a} {b} i e m) =
    lifted Lifecycle.Turn Lifecycle.Act caller_of (λ p ts. record { life = p; callers = ts })
      (λ x y c d ts j at move. Lifecycle.turn j at move) s.threads i a b e (Turn-life m)

-- The states that each side starts from.
abbrev Starts : ℕ → Whole → Type 0
Starts size w =
    (Pool.init size ≡ some (pool_of w)) × (shared_of w ≡ new_shared) × (life_of w ≡ new_life)

holders-replicate : (n : ℕ) → holders (replicate n placeholder) ≡ []
holders-replicate zero = refl
holders-replicate (suc n) = holders-replicate n

init-Starts : (size : ℕ) (w : Whole) → init size ≡ some w → Starts size w
unfolding init Pool.init
init-Starts zero w e = absurd (ground arith)
init-Starts (suc n) w e =
    let idle = map-replicate slot_of n placeholder in
    let none_held = holders-replicate (suc n) in
    let same : new_whole (suc n) ≡ w = cc in
    subst (Starts (suc n)) same (
      ap (λ xs. some (record (pool_of (new_whole (suc n))) { idle = Pool.placeholder ∷ xs }))
          (sym idle),
      ap (λ xs. record new_shared { idle = xs }) none_held,
      refl,
    )

OrSame-run :
    {U : Type 0} (Run : U → Type 0) (Steps : U → U → Type 0) (x y : U)
    → ((a b : U) → Run a → Steps a b → Run b)
    → Run x
    → (y ≡ x) ⊎ Steps x y
    → Run y
OrSame-run Run Steps x y next r (inl e) = subst Run (sym e) r
OrSame-run Run Steps x y next r (inr m) = next x y r m

-- Every run of the whole policy is, seen from the pool, a run of the pool, seen from the data
-- document, a run of the versions, and seen from the count of evaluations, a run of the lifecycle.
pub Reaches-sides :
    {size n : ℕ} {s : Scene}
    → Reaches size n s
    → Pool.Reach size n (pool_scene s)
      × Versions.Reaches n (data_scene s)
      × Lifecycle.Reaches n (life_scene s)
Reaches-sides {size} {n} (begin {w} e) =
    let (p, d, l) = init-Starts size w e in
    (
      subst (λ ts. Pool.Reach size n (record { pool = pool_of w; threads = ts }))
          (sym (map-replicate pool_thread n away)) (Pool.start p),
      subst
          (λ s.
            Versions.Reaches n (record { shared = s; workers = map worker_of (replicate n away) }))
          (sym d)
          (subst (λ ts. Versions.Reaches n (record { shared = new_shared; workers = ts }))
            (sym (map-replicate worker_of n away)) Versions.begin),
      subst
          (λ s.
            Lifecycle.Reaches n (record { life = s; callers = map caller_of (replicate n away) }))
          (sym l)
          (subst (λ ts. Lifecycle.Reaches n (record { life = new_life; callers = ts }))
            (sym (map-replicate caller_of n away)) Lifecycle.begin),
    )
Reaches-sides {size} {n} (then' {s} {t} r a) =
    let (p, d, l) = Reaches-sides r in
    (
      OrSame-run (Pool.Reach size n) Step (pool_scene s) (pool_scene t) (λ x y. Pool.next) p
          (Act-pool a),
      OrSame-run (Versions.Reaches n) Versions.Act (data_scene s) (data_scene t)
          (λ x y. Versions.then') d (Act-data a),
      OrSame-run (Lifecycle.Reaches n) Lifecycle.Act (life_scene s) (life_scene t)
          (λ x y. Lifecycle.then') l (Act-life a),
    )

-- In every interleaving of `evaluate_raw`, `set_data` and `close`, and at every moment at which a
-- thread evaluates on an instance: a thread that has an instance of that number is that thread, the
-- instance is neither idle nor freed, it has the document that was published under its version, that
-- version is not older than the one current when the thread called, and the epoch ticker is not
-- stopped.
pub evaluating-whole :
    {size n : ℕ} {s : Scene}
    → Reaches size n s
    → (k j called : ℕ) (it : Item) (b : Thread)
    → get_elem? s.threads k ≡ some (evaluating called it)
    → get_elem? s.threads j ≡ some b
    → 1 ≤ owns it.number (pool_thread b)
    → (j ≡ k)
      × (placed it.number (pool_of s.whole) ≡ 0)
      × (called ≤ it.version)
      × (get_elem? s.whole.published it.version ≡ some it.document)
      × (s.whole.stopped ≡ false)
evaluating-whole {s} r k j called it b ek ej o =
    let (p, d, l) = Reaches-sides r in
    let held : 1 ≤ owns it.number (pool_thread (evaluating called it)) = ground arith in
    let (same, unplaced) =
      exclusive_loan p it.number j k _ _ (get_elem?-map pool_thread s.threads j ej)
        (get_elem?-map pool_thread s.threads k ek) o held in
    let (later, published) =
      no_stale_data d k called (holder_of it) (get_elem?-map worker_of s.threads k ek) in
    let runs =
      le-sum_of running (map caller_of s.threads) k _ (get_elem?-map caller_of s.threads k ek) in
    (
      same,
      unplaced,
      later,
      published,
      elim (Bool-cases s.whole.stopped) [
        | inl c ↦ absurd (omega (arith, ticker_outlives l c))
        | inr c ↦ c
      ],
    )
