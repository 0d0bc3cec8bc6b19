-- ===== src/Runtime/Stores.antt =====
-- opapywasm/runtime.py, `WasmtimeRuntime.__init__` once more, with the Stores that the loop opens and
-- closes, and with the lock around native allocation, which is not reentrant.
pub mod Leaks
use opa_py_wasm.Base.{
  ℕ, zero, suc, ◌*◌, min, Bool, true, false, Option, none, some, List, [], ◌∷◌, ◌==◌, if◌then◌else◌,
  leb,
}
use opa_py_wasm.Base.Int.{ℤ}
use opa_py_wasm.Errors.{Exn, fresh, raise_from, opa, invalid_policy}
use opa_py_wasm.Result.{Result, ok, raised}
use opa_py_wasm.Runtime.Factory.{Factory}
use opa_py_wasm.Runtime.Instantiate.{
  Attempt, done, overflow, wasm_error, other_error, default_memory_pages, instantiation_ceiling,
  too_few,
}

-- The Stores of the process, numbered as they are made: `live` lists those that are not closed.
-- `held` says whether the lock is taken, and `mine` is `self._store`.
pub record Native : Type 0 where
  pub made : ℕ
  pub live : List ℕ
  pub held : Bool
  pub mine : Option ℕ

-- `Store.close()`, which is idempotent.
unfoldable pub without : ℕ → List ℕ → List ℕ
without i [] = []
without i (j ∷ js) = let rest = without i js in if j == i then rest else j ∷ rest

unfoldable pub open_store : Native → Native
open_store n = record n { made = suc n.made; live = n.made ∷ n.live; mine = some n.made }

abbrev pub closed_store : Option ℕ → Native → Native
closed_store none n = n
closed_store (some i) n = record n { live = without i n.live }

-- `self._store.close()`
unfoldable pub close_store : Native → Native
close_store n = closed_store n.mine n

-- A run that may wait forever for the lock, or for fuel.
pub data Run : Type 0 where
  blocked : Run
  exhausted : Run
  ended : Result ℕ → Native → Run

-- `with _NATIVE_LIFECYCLE_LOCK:` around a block, from the state in which it is entered.
abbrev pub released : Run → Run
released (ended r n) = ended r (record n { held = false })
released run = run

abbrev pub locked : (Native → Run) → Native → Run
locked block n = if n.held then blocked else released (block (record n { held = true }))

-- `close`: the Store under the lock; what is raised there is swallowed.
unfoldable pub close : Result ℕ → Native → Run
close r = locked λ n. ended r (close_store n)

module _ (attempt : ℕ → Attempt) (ceiling : ℕ) where
  -- The end of a round, in the state with the round's Store; `rest` is the next round.
  abbrev pub after_attempt : ℕ → (Native → Run) → Native → Attempt → Run
  after_attempt pages rest n done = ended (ok pages) n
  after_attempt pages rest n (wasm_error e) =
      ended (raised (raise_from (opa invalid_policy) e)) (close_store n)
  after_attempt pages rest n (other_error e) = ended (raised e) n
  after_attempt pages rest n (overflow e) =
      if leb ceiling pages
      then ended (raised (raise_from (opa invalid_policy) e)) (close_store n)
      else rest (close_store n)

  unfoldable pub rounds : ℕ → ℕ → Native → Run
  rounds zero pages n = exhausted
  rounds (suc fuel) pages n =
      let rest = rounds fuel (min (pages * 2) ceiling) in
      after_attempt pages rest (open_store n) (attempt pages)

-- `except BaseException: self.close(); raise`
abbrev pub guarded : Run → Run
guarded (ended (raised e) n) = close (raised e) n
guarded run = run

-- WasmtimeRuntime.__init__
unfoldable pub construct : (ℕ → Attempt) → Option ℤ → Native → Run
construct attempt max_memory_pages n =
    let ceiling = instantiation_ceiling max_memory_pages in
    let block = rounds attempt ceiling (suc ceiling) default_memory_pages in
    if too_few max_memory_pages
    then ended (raised (fresh (opa invalid_policy))) n
    else guarded (locked block n)

-- `create_runtime` of a factory; the module decides what an attempt does.
unfoldable pub create_runtime : Factory → (ℕ → Attempt) → Native → Run
create_runtime f attempt n = construct attempt f.max_memory_pages n
