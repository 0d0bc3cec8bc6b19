-- ===== src/Tests/Whole.antt =====
-- Runs of a whole policy: one thread publishes a document while another evaluates, on a pool of one.
use opa_py_wasm.Base.{ℕ, ◌≤◌, ◌≡◌, refl, false, none, some, [], ◌∷◌, arith, get_elem?}
use opa_py_wasm.Types.{Bytes}
use opa_py_wasm.Pool
use opa_py_wasm.Pool.Ownership.{placed}
use opa_py_wasm.Policy.Versions
use opa_py_wasm.Policy.Lifecycle
use opa_py_wasm.Policy.Whole.{
  Item, placeholder, Whole, new_whole, init, publish, create_instance, enter_eval, fails_closed,
}
use opa_py_wasm.Policy.Whole.Turns.{
  Thread, away, offering, building, evaluating, Scene, offer, write, enter, admit, get, pass,
  snapshot_build, construct, snapshot, fresh, turn, Reaches, begin, then',
}
use opa_py_wasm.Policy.Whole.Views.{pool_of}
use opa_py_wasm.Policy.Whole.Runs.{
  pool_scene, data_scene, life_scene, Reaches-sides, evaluating-whole,
}

abbrev the_document : Bytes
the_document = 55 ∷ []

-- The policy once the document is published, and the instance is built and lent.
abbrev in_use : Whole
in_use = record (new_whole 1) {
  document = some the_document;
  version = 1;
  published = none ∷ some the_document ∷ [];
  idle = [];
  created = 1;
  next_instance = 1;
  active = 1;
}

abbrev an_item : Item
an_item = record { number = 0; version = 1; document = some the_document }

-- Where the thread stands that evaluates.
abbrev the_first : ℕ
the_first = 0

abbrev two : Whole → Thread → Thread → Scene
two w a b = record { whole = w; threads = a ∷ b ∷ [] }

run_taken : Reaches 1 2 (
    two
      (record (enter_eval (new_whole 1)) { idle = [] })
      (building 0)
      (offering (some the_document)))
unfolding enter_eval fails_closed init
run_taken =
    then'
      (then'
        (then'
          (then' (then' (begin refl) (turn 1 refl (offer (some the_document) refl)))
            (turn 0 refl enter))
          (turn 0 refl (admit refl)))
        (turn 0 refl (get refl)))
      (turn 0 refl (pass placeholder refl))

run_evaluating : Reaches 1 2 (two in_use (evaluating 0 an_item) away)
unfolding enter_eval publish create_instance
run_evaluating =
    then'
      (then'
        (then' (then' (then' run_taken (turn 1 refl write)) (turn 0 refl snapshot_build))
          (turn 0 refl construct))
        (turn 0 refl snapshot))
      (turn 0 refl (fresh refl))

Reaches-sides_example :
    Pool.Reach 1 2 (pool_scene (two in_use (evaluating 0 an_item) away))
    × Versions.Reaches 2 (data_scene (two in_use (evaluating 0 an_item) away))
    × Lifecycle.Reaches 2 (life_scene (two in_use (evaluating 0 an_item) away))
Reaches-sides_example = Reaches-sides run_evaluating

evaluating-whole_example :
    (the_first ≡ the_first)
    × (placed 0 (pool_of in_use) ≡ 0)
    × (0 ≤ 1)
    × (get_elem? in_use.published 1 ≡ some (some the_document))
    × (in_use.stopped ≡ false)
evaluating-whole_example =
    evaluating-whole run_evaluating 0 0 0 an_item (evaluating 0 an_item) refl refl (ground arith)
