-- ===== src/Policy/Whole/Refines.antt =====
-- A step of the whole is a step of each of its three sides, or leaves that side alone.
use opa_py_wasm.Base.{◌≡◌, refl, sym, ap, ◌∙◌, subst, ◌⊎◌, inl, inr, none, some, List, map, arith}
use opa_py_wasm.Pool
use opa_py_wasm.Pool.{Pool, Move}
use opa_py_wasm.Policy.Versions
use opa_py_wasm.Policy.Versions.{Shared, Worker}
use opa_py_wasm.Policy.Lifecycle
use opa_py_wasm.Policy.Lifecycle.{Life, Caller}
use opa_py_wasm.Policy.Whole.{
  Slot, placeholder, full, sentinel, Whole, fails_closed, publish, create_instance, enter_eval,
  exit_eval, mark_closed,
}
use opa_py_wasm.Policy.Whole.Turns.{
  Thread, Turn, offer, write, enter, admit, reject, get, time_out, pass, refuse, wake,
  snapshot_build, construct, construct_fails, snapshot, fresh, reload, reload_fails, finish,
  restore, keep, discard, put_back, put_placeholder, free, exit, stop, start_close, close_again,
  drain, drained, post, mark,
}
use opa_py_wasm.Policy.Whole.Views.{
  slot_of, pool_of, pool_thread, holders, shared_of, worker_of, life_of, caller_of,
}
use opa_py_wasm.Policy.Whole.Sides.{
  pool-put_nowait, pool-free_slot, pool-count_recreated, shared-put_nowait, shared-put_empty,
  shared-free_slot, shared-count_recreated, life-put_nowait, life-free_slot, life-count_recreated,
  stops-views,
}

-- A move from `x` and `a` to `y` and `b`, or none.
abbrev pub OrSame : {S T : Type 0} → (S → T → S → T → Type 0) → S → T → S → T → Type 0
OrSame R x a y b = ((y ≡ x) × (b ≡ a)) ⊎ R x a y b

-- A move, to a state told another way.
moved :
    {S T : Type 0} (R : S → T → S → T → Type 0) {x : S} {a : T} {y : S} {b : T} (z : S)
    → z ≡ y
    → R x a y b
    → OrSame R x a z b
moved R {x} {a} {y} {b} z e m = inr (subst (λ s. R x a s b) (sym e) m)

pub Turn-pool :
    {w u : Whole} {a b : Thread}
    → Turn w a u b
    → OrSame Move (pool_of w) (pool_thread a) (pool_of u) (pool_thread b)
unfolding publish create_instance Pool.create_instance enter_eval exit_eval mark_closed fails_closed
    Pool.fails_closed Pool.discards
Turn-pool (admit c) = inr (Pool.enter c)
Turn-pool (get e) = inr (Pool.get (ap (map slot_of) e))
Turn-pool (time_out e) = inr (Pool.time_out (ap (map slot_of) e))
Turn-pool (pass placeholder e) = inr (Pool.pass Pool.placeholder e)
Turn-pool (pass (full it) e) = inr (Pool.pass (Pool.live it.number) e)
Turn-pool (pass sentinel e) = inr (Pool.pass Pool.sentinel e)
Turn-pool (refuse {w} placeholder e) =
    moved Move _ (pool-free_slot placeholder w) (Pool.refuse Pool.placeholder e)
Turn-pool (refuse {w} (full it) e) =
    moved Move _ (pool-free_slot (full it) w) (Pool.refuse (Pool.live it.number) e)
Turn-pool (refuse {w} sentinel e) =
    moved Move _ (pool-free_slot sentinel w) (Pool.refuse Pool.sentinel e)
Turn-pool (wake {w}) = moved Move _ (pool-put_nowait sentinel w) Pool.wake
Turn-pool construct = inr Pool.build
Turn-pool construct_fails = inr Pool.build_fails
Turn-pool (reload_fails left bad e) = inr (Pool.finish none bad)
Turn-pool (finish {it} bad) = inr (Pool.finish (some (Pool.new_loan it.number)) bad)
Turn-pool (restore {w}) = moved Move _ (pool-put_nowait placeholder w) Pool.restore
Turn-pool (keep e) = inr (Pool.keep e)
Turn-pool (discard {w} e) = moved Move _ (pool-count_recreated w.pool_closed w) (Pool.discard e)
Turn-pool (put_back {w} {it}) = moved Move _ (pool-put_nowait (full it) w) Pool.put_back
Turn-pool (put_placeholder {w}) = moved Move _ (pool-put_nowait placeholder w) Pool.put_placeholder
Turn-pool (free {w} {it}) = moved Move _ (pool-free_slot (full it) w) Pool.free
Turn-pool (exit {w}) = inl (refl, (stops-views (exit_eval w).1).0)
Turn-pool (start_close e) = inr (Pool.start_close e)
Turn-pool (drain {w} {slot} {rest} e) =
    moved Move _ (pool-free_slot slot (record w { idle = rest })) (Pool.drain (ap (map slot_of) e))
Turn-pool (drained e) = inr (Pool.drained (ap (map slot_of) e))
Turn-pool (post {w}) = moved Move _ (pool-put_nowait sentinel w) Pool.post
Turn-pool (mark {w}) = inl (refl, (stops-views (mark_closed w).1).0)
Turn-pool _ = inl (refl, refl)

-- A move, to a thread told another way.
renamed :
    {S T : Type 0} (R : S → T → S → T → Type 0) {x : S} {a : T} {y : S} {b : T} (c : T)
    → c ≡ b
    → R x a y b
    → OrSame R x a y c
renamed R {x} {a} {y} {b} c e m = inr (subst (λ t. R x a y t) (sym e) m)

-- Where only the queue changes, and no instance in it.
same_idle :
    (w : Whole) (others : List Slot) {slots : List Slot}
    → w.idle ≡ slots
    → holders slots ≡ holders others
    → shared_of (record w { idle = others }) ≡ shared_of w
same_idle w others e h = ap (λ xs. record (shared_of w) { idle = xs }) (sym (ap holders e ∙ h))

pub Turn-shared :
    {w u : Whole} {a b : Thread}
    → Turn w a u b
    → OrSame Versions.Turn (shared_of w) (worker_of a) (shared_of u) (worker_of b)
unfolding publish Versions.publish Versions.put_idle create_instance enter_eval exit_eval
    mark_closed fails_closed
Turn-shared (offer d c) = inr (Versions.offer d)
Turn-shared write = inr Versions.write
Turn-shared enter = inr Versions.call
Turn-shared (reject c) = inr Versions.borrow_fails
Turn-shared (get {w} {slot = placeholder} {rest} e) = inl (same_idle w rest e refl, refl)
Turn-shared (get {w} {slot = full it} e) = inr (Versions.draw (ap holders e))
Turn-shared (get {w} {slot = sentinel} {rest} e) = inl (same_idle w rest e refl, refl)
Turn-shared (time_out e) = inr Versions.borrow_fails
Turn-shared (pass placeholder e) = inr Versions.draw_placeholder
Turn-shared (pass (full it) e) = inl (refl, refl)
Turn-shared (pass sentinel e) = absurd (ground arith)
Turn-shared (refuse {w} placeholder e) =
    moved Versions.Turn _ (shared-free_slot placeholder w) Versions.borrow_fails
Turn-shared (refuse {w} (full it) e) =
    moved Versions.Turn _ (shared-free_slot (full it) w) Versions.refuse
Turn-shared (refuse {w} sentinel e) =
    moved Versions.Turn _ (shared-free_slot sentinel w) Versions.borrow_fails
Turn-shared (wake {w}) = inl (shared-put_empty sentinel w refl, refl)
Turn-shared snapshot_build = inr Versions.snapshot_build
Turn-shared construct = inr Versions.construct
Turn-shared construct_fails = inr Versions.construct_fails
Turn-shared snapshot = inr Versions.snapshot
Turn-shared (fresh e) = inr (Versions.fresh e)
Turn-shared (reload e) = inr (Versions.reload e)
Turn-shared (reload_fails left bad e) = inr (Versions.reload_fails left e)
Turn-shared (finish bad) = inr Versions.finish
Turn-shared (restore {w}) = inl (shared-put_empty placeholder w refl, refl)
Turn-shared (discard {w} e) =
    moved Versions.Turn _ (shared-count_recreated w.pool_closed w) Versions.discard
Turn-shared (put_back {w} {it}) = elim (shared-put_nowait (full it) w) [
  | inl h ↦ moved Versions.Turn _ h Versions.keep
  | inr h ↦ moved Versions.Turn _ h Versions.discard
]
Turn-shared (put_placeholder {w}) = inl (shared-put_empty placeholder w refl, refl)
Turn-shared (free {w} {it}) = inl (shared-free_slot (full it) w, refl)
Turn-shared (exit {w}) = inl (refl, (stops-views (exit_eval w).1).1)
Turn-shared (drain {w} {slot = placeholder} {rest} e) =
    inl (shared-free_slot placeholder (record w { idle = rest }) ∙ same_idle w rest e refl, refl)
Turn-shared (drain {w} {slot = full it} {rest} e) =
    moved Versions.Turn _ (shared-free_slot (full it) (record w { idle = rest }))
      (Versions.drain (ap holders e))
Turn-shared (drain {w} {slot = sentinel} {rest} e) =
    inl (shared-free_slot sentinel (record w { idle = rest }) ∙ same_idle w rest e refl, refl)
Turn-shared (post {w}) = inl (shared-put_empty sentinel w refl, refl)
Turn-shared (mark {w}) = inl (refl, (stops-views (mark_closed w).1).1)
Turn-shared _ = inl (refl, refl)

pub Turn-life :
    {w u : Whole} {a b : Thread}
    → Turn w a u b
    → OrSame Lifecycle.Turn (life_of w) (caller_of a) (life_of u) (caller_of b)
unfolding publish create_instance enter_eval exit_eval mark_closed fails_closed Lifecycle.enter_eval
    Lifecycle.exit_eval Lifecycle.mark_closed Lifecycle.stop_ticker
Turn-life enter = inr Lifecycle.enter
Turn-life (admit c) = inr (Lifecycle.admit c)
Turn-life (reject c) = inr (Lifecycle.refuse c)
Turn-life (time_out e) = inr Lifecycle.finish
Turn-life (pass placeholder e) = inl (refl, refl)
Turn-life (pass (full it) e) = inl (refl, refl)
Turn-life (pass sentinel e) = inl (refl, refl)
Turn-life (refuse {w} slot e) = inl (life-free_slot slot w, refl)
Turn-life (wake {w}) = moved Lifecycle.Turn _ (life-put_nowait sentinel w) Lifecycle.finish
Turn-life (restore {w}) = moved Lifecycle.Turn _ (life-put_nowait placeholder w) Lifecycle.finish
Turn-life (discard {w} e) = inl (life-count_recreated w.pool_closed w, refl)
Turn-life (put_back {w} {it}) =
    moved Lifecycle.Turn _ (life-put_nowait (full it) w) Lifecycle.finish
Turn-life (put_placeholder {w}) = inl (life-put_nowait placeholder w, refl)
Turn-life (free {w} {it}) = moved Lifecycle.Turn _ (life-free_slot (full it) w) Lifecycle.finish
Turn-life (exit {w}) = renamed Lifecycle.Turn _ (stops-views (exit_eval w).1).2 Lifecycle.exit
Turn-life stop = inr Lifecycle.stop
Turn-life (start_close c) = inr Lifecycle.close_pool
Turn-life (close_again {w} c) =
    moved Lifecycle.Turn _ (ap (λ b. record (life_of w) { pool_closed = b }) c) Lifecycle.close_pool
Turn-life (drain {w} {slot} {rest} e) = inl (life-free_slot slot (record w { idle = rest }), refl)
Turn-life (post {w}) = inl (life-put_nowait sentinel w, refl)
Turn-life (mark {w}) = renamed Lifecycle.Turn _ (stops-views (mark_closed w).1).2 Lifecycle.mark
Turn-life _ = inl (refl, refl)
