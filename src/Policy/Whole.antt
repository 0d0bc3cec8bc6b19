-- ===== src/Policy/Whole.antt =====
-- opapywasm/policy.py and opapywasm/pool.py under concurrency, whole: threads that call `evaluate_raw`,
-- `set_data` and `close` in any order. Here are the
-- fields and the operations on them, and the steps are in the child Turns: each is one block under a
-- lock, one atomic action on the queue or the closed event, one call of the factory, or what a thread
-- does with an instance that it alone has. The modules Pool, Policy/Versions and Policy/Lifecycle each show one side of it.
pub mod Turns
pub mod Views
pub mod Sides
pub mod Refines
pub mod Runs
use opa_py_wasm.Base.{
  ℕ, zero, suc, ◌+◌, ◌-◌, ◌≡◌, Bool, true, false, ◌&&◌, ◌||◌, Option, none, some, List, [], ◌∷◌,
  ◌++◌, ltb, ◌==◌, if◌then◌else◌, length, get_elem?, set, replicate,
}
use opa_py_wasm.Policy.Versions.{Document}

-- An instance: its number in the order of creation, its `data_version`, and its document.
pub record Item : Type 0 where
  pub number : ℕ
  pub version : ℕ
  pub document : Document

-- `None`, an instance, or the close sentinel.
pub data Slot : Type 0 where
  placeholder : Slot
  full : Item → Slot
  sentinel : Slot

-- The policy's fields and those of its pool. `published` lists the documents that have been current,
-- `next_instance` numbers what the factory builds, `freed` lists what `_close_instance` released, and
-- `stopped` tells whether the ticker of the factory is.
pub record Whole : Type 0 where
  pub document : Document
  pub version : ℕ
  pub published : List Document
  pub max_size : ℕ
  pub idle : List Slot
  pub pool_closed : Bool
  pub created : ℕ
  pub recreated : ℕ
  pub next_instance : ℕ
  pub freed : List ℕ
  pub closed : Bool
  pub active : ℕ
  pub stopped : Bool

abbrev pub new_whole : ℕ → Whole
new_whole size = record {
  document = none;
  version = 0;
  published = none ∷ [];
  max_size = size;
  idle = replicate size placeholder;
  pool_closed = false;
  created = 0;
  recreated = 0;
  next_instance = 0;
  freed = [];
  closed = false;
  active = 0;
  stopped = false;
}

-- OpaInstancePool.__init__ raises ValueError for a size below 1.
unfoldable pub init : ℕ → Option Whole
init zero = none
init (suc n) = some (new_whole (suc n))

-- `put_nowait`, with the `queue.Full` that its callers drop.
unfoldable pub put_nowait : Slot → Whole → Whole
put_nowait slot w =
    if ltb (length w.idle) w.max_size then record w { idle = w.idle ++ slot ∷ [] } else w

-- `_close_instance`, where the slot holds one.
unfoldable pub free_slot : Slot → Whole → Whole
free_slot (full it) w = record w { freed = it.number ∷ w.freed }
free_slot _ w = w

abbrev is_sentinel : Slot → Bool
is_sentinel sentinel = true
is_sentinel _ = false

unfoldable pub fails_closed : Bool → Slot → Bool
fails_closed closed slot = is_sentinel slot || closed

-- `set_data` under the data lock.
unfoldable pub publish : Document → Whole → Whole
publish d w = record w { document = d; version = w.version + 1; published = w.published ++ d ∷ [] }

-- `_create_instance`, once the factory has returned.
unfoldable pub create_instance : Whole → Whole
create_instance w = record w { created = w.created + 1; next_instance = suc w.next_instance }

unfoldable pub count_recreated : Bool → Whole → Whole
count_recreated closed w = if closed then w else record w { recreated = w.recreated + 1 }

unfoldable pub enter_eval : Whole → Whole
enter_eval w = record w { active = w.active + 1 }

-- The count, and whether the caller is to stop the ticker.
unfoldable pub exit_eval : Whole → Whole × Bool
exit_eval w = (record w { active = w.active - 1 }, w.closed && (w.active - 1 == 0))

unfoldable pub mark_closed : Whole → Whole × Bool
mark_closed w = (record w { closed = true }, w.active == 0)
