-- ===== src/Policy/Versions/Fresh.antt =====
-- No evaluation sees stale data.
use opa_py_wasm.Base.{
  ℕ, suc, ◌+◌, ◌≤◌, ◌<◌, ◌≡◌, refl, ◌⊎◌, inl, inr, some, [], ◌∷◌, ◌++◌, arith, length, get_elem?,
  length-append, get_elem?-append_last, subst,
}
use opa_py_wasm.Base.All.{
  All, All-get, All-set, All-concat, All-replicate, All-map, get_elem?-append_left,
}
use opa_py_wasm.Policy.Versions.{
  Document, Holder, Shared, new_shared, publish, put_idle, Worker, resting, offering, borrowing,
  building, constructing, lent, snapped, evaluating, ending, Turn, offer, write, call, draw,
  draw_placeholder, borrow_fails, snapshot_build, construct, construct_fails, refuse, drain,
  snapshot, fresh, reload, reload_fails, finish, keep, discard, World, Act, act, Reaches, begin,
  then',
}

-- Version `v` was published with the document `d`.
abbrev pub IsPublished : Shared → ℕ → Document → Type 0
IsPublished s v d = get_elem? s.published v ≡ some d

-- An instance has the document of its version, or its version is behind.
abbrev IsSound : Shared → ℕ → Holder → Type 0
IsSound s current i =
    (i.version ≤ current) × (IsPublished s i.version i.document ⊎ (i.version < current))

-- What each thread may rely on.
abbrev Knows : Shared → Worker → Type 0
Knows s (borrowing n) = n ≤ s.version
Knows s (building n) = n ≤ s.version
Knows s (constructing n v d) = (n ≤ v) × (v ≤ s.version) × IsPublished s v d
Knows s (lent n i) = (n ≤ s.version) × IsSound s s.version i
Knows s (snapped n i v d) = (n ≤ v) × (v ≤ s.version) × IsPublished s v d × IsSound s v i
Knows s (evaluating n i) =
    (n ≤ i.version) × (i.version ≤ s.version) × IsPublished s i.version i.document
Knows s (ending i) = IsSound s s.version i
Knows s _ = Unit {0}

-- The history only grows.
record Extends (s t : Shared) : Type 0 where
  kept : (v : ℕ) (d : Document) → IsPublished s v d → IsPublished t v d
  later : s.version ≤ t.version

record Inv (s : Shared) : Type 0 where
  current : IsPublished s s.version s.document
  count : length s.published ≡ suc s.version
  idle : All (IsSound s s.version) s.idle

same-Extends : (s : Shared) → Extends s s
same-Extends s = record { kept = λ v d h. h; later = omega arith }

publish-Extends : (d : Document) (s : Shared) → Extends s (publish d s)
unfolding publish
publish-Extends d s = record {
  kept = λ v e h. get_elem?-append_left s.published (d ∷ []) v h;
  later = omega arith;
}

module _ {s t : Shared} (x : Extends s t) where
  IsSound-later : (c e : ℕ) (i : Holder) → c ≤ e → IsSound s c i → IsSound t e i
  IsSound-later c e i le (b, inl p) = (omega arith, inl (x.kept i.version i.document p))
  IsSound-later c e i le (b, inr p) = (omega arith, inr (omega arith))

  Knows-later : (a : Worker) → Knows s a → Knows t a
  Knows-later resting k = tt
  Knows-later (offering d) k = tt
  Knows-later (borrowing n) k = omega (arith, x.later)
  Knows-later (building n) k = omega (arith, x.later)
  Knows-later (constructing n v d) (a, b, c) = (a, omega (arith, x.later), x.kept v d c)
  Knows-later (lent n i) (a, b) =
      (omega (arith, x.later), IsSound-later s.version t.version i x.later b)
  Knows-later (snapped n i v d) (a, b, c, e) =
      (a, omega (arith, x.later), x.kept v d c, IsSound-later v v i (omega arith) e)
  Knows-later (evaluating n i) (a, b, c) =
      (a, omega (arith, x.later), x.kept i.version i.document c)
  Knows-later (ending i) k = IsSound-later s.version t.version i x.later k

write-Inv : (d : Document) (s : Shared) → Inv s → Inv (publish d s)
unfolding publish
write-Inv d s h = record {
  current =
      subst (λ n. get_elem? (s.published ++ d ∷ []) n ≡ some d) (omega (arith, h.count))
        (get_elem?-append_last s.published d);
  count = omega (arith, h.count, length-append s.published (d ∷ []));
  idle =
      All-map (IsSound s s.version) (IsSound (publish d s) (s.version + 1)) s.idle
        (λ i k. IsSound-later (publish-Extends d s) s.version (s.version + 1) i (omega arith) k)
        h.idle;
}

put_idle-Inv :
    (i : Holder) (s : Shared)
    → Inv s
    → IsSound s s.version i
    → Inv (put_idle i s) × Extends s (put_idle i s) × Unit {0}
unfolding put_idle
put_idle-Inv i s h k = (
  record {
    current = h.current;
    count = h.count;
    idle = All-concat (IsSound s s.version) s.idle i h.idle k;
  },
  record { kept = λ v d p. p; later = omega arith },
  tt,
)

fresh_document :
    (s : Shared) (i : Holder) (v : ℕ)
    → IsPublished s i.version i.document ⊎ (i.version < v)
    → v ≤ i.version
    → IsPublished s i.version i.document
fresh_document s i v (inl p) le = p
fresh_document s i v (inr p) le = absurd (omega arith)

-- A step keeps what the pool relies on, extends the history, and its thread knows what it may rely on.
Turn-Inv :
    {s t : Shared} {a b : Worker}
    → Turn s a t b
    → Inv s
    → Knows s a
    → Inv t × Extends s t × Knows t b
unfolding publish put_idle
Turn-Inv (offer {s} d) h k = (h, same-Extends s, tt)
Turn-Inv (write {s} {d}) h k = (write-Inv d s h, publish-Extends d s, tt)
Turn-Inv (call {s}) h k = (h, same-Extends s, omega arith)
Turn-Inv (draw {s} {i} {rest} e) h k =
    let (sound, others) = subst (All (IsSound s s.version)) e h.idle in
    (
      record { current = h.current; count = h.count; idle = others },
      record { kept = λ v d p. p; later = omega arith },
      (k, sound),
    )
Turn-Inv (draw_placeholder {s}) h k = (h, same-Extends s, k)
Turn-Inv (borrow_fails {s}) h k = (h, same-Extends s, tt)
Turn-Inv (snapshot_build {s}) h k = (h, same-Extends s, (k, omega arith, h.current))
Turn-Inv (construct {s} {n} {v} {d}) h (a, b, c) = (h, same-Extends s, (omega arith, (b, inl c)))
Turn-Inv (construct_fails {s}) h k = (h, same-Extends s, tt)
Turn-Inv (refuse {s}) h k = (h, same-Extends s, tt)
Turn-Inv (drain {s} {i} {rest} e) h k =
    let (sound, others) = subst (All (IsSound s s.version)) e h.idle in
    (
      record { current = h.current; count = h.count; idle = others },
      record { kept = λ v d p. p; later = omega arith },
      tt,
    )
Turn-Inv (snapshot {s}) h (a, b) = (h, same-Extends s, (a, omega arith, h.current, b))
Turn-Inv (fresh {s} {n} {v} {i} e) h (a, b, c, (f, p)) =
    let same : i.version ≡ v = ground arith in
    let known = fresh_document s i v p (omega arith) in
    (h, same-Extends s, (omega arith, omega arith, known))
Turn-Inv (reload {s} e) h (a, b, c, f) = (h, same-Extends s, (a, b, c))
Turn-Inv (reload_fails {s} {v} {i} left e) h (a, b, c, (f, p)) =
    let behind : i.version < s.version = ground arith in
    (h, same-Extends s, (omega arith, inr behind))
Turn-Inv (finish {s}) h (a, b, c) = (h, same-Extends s, (b, inl c))
Turn-Inv (keep {s} {i}) h k = put_idle-Inv i s h k
Turn-Inv (discard {s}) h k = (h, same-Extends s, tt)

record Sound (w : World) : Type 0 where
  inv : Inv w.shared
  knows : All (Knows w.shared) w.workers

Act-Sound : {w u : World} → Sound w → Act w u → Sound u
Act-Sound {w} h (act {s} {a} {b} k e t) =
    let (inv, x, knows) = Turn-Inv t h.inv (All-get (Knows w.shared) w.workers k h.knows e) in
    record {
      inv = inv;
      knows =
          All-set (Knows s) w.workers k b
            (All-map (Knows w.shared) (Knows s) w.workers (λ c. Knows-later x c) h.knows) knows;
    }

Reaches-Sound : {n : ℕ} {w : World} → Reaches n w → Sound w
Reaches-Sound {n} begin = record {
  inv = record { current = refl; count = refl; idle = tt };
  knows = All-replicate (Knows new_shared) n resting tt;
}
Reaches-Sound (then' r a) = Act-Sound (Reaches-Sound r) a

-- In every interleaving of `set_data`, evaluations, builds and refreshes, failed and interrupted ones
-- included: an instance that a thread evaluates on has the very document that was published under
-- its version, and that version is not older than the one that was current when the thread called
-- `evaluate_raw`.
pub no_stale_data :
    {n : ℕ} {w : World}
    → Reaches n w
    → (k called : ℕ) (i : Holder) → get_elem? w.workers k ≡ some (evaluating called i)
    → (called ≤ i.version) × IsPublished w.shared i.version i.document
no_stale_data {w} r k called i e =
    let (a, b, c) = All-get (Knows w.shared) w.workers k (Reaches-Sound r).knows e in (a, c)

-- In every interleaving: the current document is the last one published, under the current version,
-- and every document that was published stays under its version through any further step.
pub history_kept :
    {n : ℕ} {w u : World}
    → Reaches n w
    → Act w u
    → (v : ℕ) (d : Document) → IsPublished w.shared v d
    → IsPublished u.shared v d
      × IsPublished u.shared u.shared.version u.shared.document
      × (w.shared.version ≤ u.shared.version)
history_kept {w} r (act {s} {a} {b} k e t) v d p =
    let h = Reaches-Sound r in
    let (inv, x, knows) = Turn-Inv t h.inv (All-get (Knows w.shared) w.workers k h.knows e) in
    (x.kept v d p, inv.current, x.later)
