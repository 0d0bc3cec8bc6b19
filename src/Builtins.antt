-- ===== src/Builtins.antt =====
-- opapywasm/builtins.py, `BuiltinRegistry`: dicts as shared objects. A registry names the dict that
-- it has published, and a snapshot is a read-only view of one, named the same way.
pub mod Snapshots
pub mod Sprintf
pub mod Defaults
use opa_py_wasm.Base.{
  ℕ, String, Bool, true, false, not, ◌&&◌, Option, none, some, List, [], ◌∷◌, ◌++◌, if◌then◌else◌,
  length, get_elem?,
}
use opa_py_wasm.Base.Dict.{Dict, get, put, delete}
use opa_py_wasm.Errors.{fresh, opa, builtin}
use opa_py_wasm.Errors.Chain.{is_some}
use opa_py_wasm.Result.{Result, ok, raised, Exec}
use opa_py_wasm.Instance.{Callable}

-- The dicts that exist, in the order of creation, and the place of `_builtins` among them.
pub record Registry : Type 0 where
  pub objects : List (Dict Callable)
  pub published : ℕ

abbrev or_empty : Option (Dict Callable) → Dict Callable
or_empty none = []
or_empty (some d) = d

-- What a reference to a dict shows.
unfoldable pub view : ℕ → Registry → Dict Callable
view ref r = or_empty (get_elem? r.objects ref)

-- `dict(initial)`
unfoldable pub init : Dict Callable → Registry
init initial = record { objects = initial ∷ []; published = 0 }

-- `updated = dict(self._builtins)`, changed, and then published.
abbrev pub republish : (Dict Callable → Dict Callable) → Registry → Registry
republish change r = record {
  objects = r.objects ++ change (view r.published r) ∷ [];
  published = length r.objects;
}

abbrev pub is_registered : String → Registry → Bool
is_registered name r = is_some (get name (view r.published r))

-- What is given for `fn` is `none` if it cannot be called.
unfoldable pub register : String → Option Callable → Bool → Exec Registry (Unit {0})
register name none replace r = (raised (fresh (opa builtin)), r)
register name (some fn) replace r =
    if not replace && is_registered name r
    then (raised (fresh (opa builtin)), r)
    else (ok tt, republish (put name fn) r)

unfoldable pub unregister : String → Exec Registry (Unit {0})
unregister name r =
    if is_registered name r
    then (ok tt, republish (delete name) r)
    else (raised (fresh (opa builtin)), r)

-- The view that `snapshot` returns: a reference to the dict published now.
unfoldable pub snapshot : Registry → ℕ
snapshot r = r.published

-- A call of `register` or `unregister`, from whatever thread: both run under the lock.
pub data Call : Type 0 where
  registering : String → Option Callable → Bool → Call
  unregistering : String → Call

unfoldable pub run : List Call → Registry → Registry
run [] r = r
run (registering name fn replace ∷ calls) r = run calls (register name fn replace r).1
run (unregistering name ∷ calls) r = run calls (unregister name r).1
