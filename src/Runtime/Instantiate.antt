-- ===== src/Runtime/Instantiate.antt =====
-- opapywasm/runtime.py, `WasmtimeRuntime.__init__`: the loop that instantiates a module, with more
-- initial memory each time its data does not fit. One attempt of wasmtime at a number of pages is a
-- parameter.
use opa_py_wasm.Base.{
  ℕ, zero, suc, ◌+◌, ◌*◌, ◌≤◌, ◌<◌, min, ◌≡◌, refl, inl, inr, Bool, false, Option, none, some,
  arith, leb, leb→le, if◌then◌else◌, Bool-cases,
}
use opa_py_wasm.Base.Int.{ℤ, pos, pos_part, ltb_ℤ}
use opa_py_wasm.Errors.{Exn, fresh, raise_from, opa, invalid_policy}
use opa_py_wasm.Result.{Result, ok, raised}

-- How an attempt ends: it returns, or raises a trap for memory out of bounds, another error of
-- wasmtime, or anything else.
pub data Attempt : Type 0 where
  done : Attempt
  overflow : Exn → Attempt
  wasm_error : Exn → Attempt
  other_error : Exn → Attempt

-- _DEFAULT_MEMORY_PAGES
abbrev pub default_memory_pages : ℕ
default_memory_pages = 2

-- _MAX_INSTANTIATION_MEMORY_PAGES
abbrev pub max_instantiation_memory_pages : ℕ
max_instantiation_memory_pages = 16384

unfoldable pub instantiation_ceiling : Option ℤ → ℕ
instantiation_ceiling none = max_instantiation_memory_pages
instantiation_ceiling (some pages) = pos_part pages

abbrev pub too_few : Option ℤ → Bool
too_few none = false
too_few (some pages) = ltb_ℤ pages (pos default_memory_pages)

module _ (attempt : ℕ → Attempt) (ceiling : ℕ) where
  -- What the `except` clause makes of an attempt; `rest` is the next round.
  abbrev pub after_attempt : ℕ → Option (Result ℕ) → Attempt → Option (Result ℕ)
  after_attempt pages rest done = some (ok pages)
  after_attempt pages rest (wasm_error e) = some (raised (raise_from (opa invalid_policy) e))
  after_attempt pages rest (other_error e) = some (raised e)
  after_attempt pages rest (overflow e) =
      if leb ceiling pages then some (raised (raise_from (opa invalid_policy) e)) else rest

  -- The loop; `none` means that the fuel ran out.
  unfoldable pub retry : ℕ → ℕ → Option (Result ℕ)
  retry zero pages = none
  retry (suc fuel) pages =
      let rest = retry fuel (min (pages * 2) ceiling) in after_attempt pages rest (attempt pages)

-- The initial pages of the instance, or what the constructor raises.
unfoldable pub instantiate : (ℕ → Attempt) → Option ℤ → Option (Result ℕ)
instantiate attempt max_memory_pages =
    let ceiling = instantiation_ceiling max_memory_pages in
    let loop = retry attempt ceiling (suc ceiling) default_memory_pages in
    if too_few max_memory_pages then some (raised (fresh (opa invalid_policy))) else loop

ceiling_low :
    (max_memory_pages : Option ℤ)
    → too_few max_memory_pages ≡ false
    → 2 ≤ instantiation_ceiling max_memory_pages
unfolding instantiation_ceiling
ceiling_low none h = omega arith
ceiling_low (some pages) h = ground arith

module _ (attempt : ℕ → Attempt) (ceiling : ℕ) where
  -- What is known of an attempt that ended the loop.
  abbrev pub EndedBy : Result ℕ → ℕ → Attempt → Type 0
  EndedBy r pages done = r ≡ ok pages
  EndedBy r pages (wasm_error e) = r ≡ raised (raise_from (opa invalid_policy) e)
  EndedBy r pages (other_error e) = r ≡ raised e
  EndedBy r pages (overflow e) =
      (r ≡ raised (raise_from (opa invalid_policy) e)) × (pages ≡ ceiling)

  abbrev pub Ended : Option (Result ℕ) → Type 0
  Ended o =
      (r : Result ℕ) × (o ≡ some r)
      × ((pages : ℕ) × (2 ≤ pages) × (pages ≤ ceiling) × EndedBy r pages (attempt pages))

  attempt-Ended :
      (pages : ℕ) (rest : Option (Result ℕ)) (a : Attempt)
      → attempt pages ≡ a
      → 2 ≤ pages
      → pages ≤ ceiling
      → (pages < ceiling → Ended rest)
      → Ended (after_attempt attempt ceiling pages rest a)
  attempt-Ended pages rest done e low high go = (ok pages, refl, (pages, low, high, rw e refl))
  attempt-Ended pages rest (wasm_error x) e low high go =
      (raised (raise_from (opa invalid_policy) x), refl, (pages, low, high, rw e refl))
  attempt-Ended pages rest (other_error x) e low high go =
      (raised x, refl, (pages, low, high, rw e refl))
  attempt-Ended pages rest (overflow x) e low high go = elim (Bool-cases (leb ceiling pages)) [
    | inl l ↦ rw l (
      raised (raise_from (opa invalid_policy) x),
      refl,
      (pages, low, high, rw e (refl, ground (arith, leb→le ceiling pages))),
    )
    | inr l ↦ rw l (go (ground arith))
  ]

  retry-Ended :
      (fuel pages : ℕ)
      → 2 ≤ pages
      → pages ≤ ceiling
      → ceiling < fuel + pages
      → Ended (retry attempt ceiling fuel pages)
  unfolding retry
  retry-Ended zero pages low high enough = absurd (omega arith)
  retry-Ended (suc fuel) pages low high enough =
      attempt-Ended pages _ (attempt pages) refl low high
        λ more. retry-Ended fuel (min (pages * 2) ceiling) (omega arith) (omega arith) (omega arith)

-- With a limit of at least two pages, or none, the loop ends for every module: its result is that of
-- an attempt at two pages or more, within the ceiling. It returns only where that attempt did, gives
-- up on memory only at the ceiling, and turns an error of wasmtime into `OpaInvalidPolicyError`.
pub instantiate-Ended :
    (attempt : ℕ → Attempt) (max_memory_pages : Option ℤ)
    → too_few max_memory_pages ≡ false
    → Ended attempt (instantiation_ceiling max_memory_pages) (instantiate attempt max_memory_pages)
unfolding instantiate
instantiate-Ended attempt max_memory_pages h = rw h (
    retry-Ended attempt (instantiation_ceiling max_memory_pages)
      (suc (instantiation_ceiling max_memory_pages)) 2 (omega arith)
      (ceiling_low max_memory_pages h) (omega arith))
