-- ===== src/Policy/Pooled.antt =====
-- opapywasm/policy.py, `evaluate_raw`, `evaluate`, `set_data` and `close` on a policy with its whole
-- pool, one call after the other. What threads make of the pool is the module `Pool`; here the slots
-- hold the instances themselves.
pub mod Healthy
pub mod Kept
pub mod Calls
use opa_py_wasm.Base.{
  ℕ, suc, ◌+◌, ◌≡◌, Bool, true, false, not, Option, none, some, List, [], ◌∷◌, ◌++◌, if◌then◌else◌,
  replicate,
}
use opa_py_wasm.Base.Dict.{Dict}
use opa_py_wasm.Base.Int.{ℤ, pos_part}
use opa_py_wasm.Errors.{kind_of, is_exception, fresh, opa, policy_closed, pool_timeout}
use opa_py_wasm.Result.{Result, ok, raised, then_result, Exec, lift, ◌>>=◌, ◌>>◌}
use opa_py_wasm.Types.{Value, Host, Entrypoint, PolicyConfig}
use opa_py_wasm.Runtime.{Runtime}
use opa_py_wasm.Abi.{OpaAbiSpec}
use opa_py_wasm.Instance
use opa_py_wasm.Instance.{Instance, Built}
use opa_py_wasm.Policy.{
  DataState, Decision, resolve_entrypoint, simplify_result, refresh_if_stale, set_data,
}
use opa_py_wasm.Policy.Construction.{no_data, new_scaffold, built_on}

-- A slot of the queue: an instance, or the placeholder for one.
abbrev pub Slot : Runtime → Type 0
Slot rt = Option (Instance rt)

-- The policy: its data, the queue of the pool, its counters, and the number of runtimes that were
-- asked of the factory.
pub record Served (rt : Runtime) : Type 0 where
  pub documents : DataState
  pub idle : List (Slot rt)
  pub created : ℕ
  pub recreated : ℕ
  pub asked : ℕ

abbrev pub new_served : {rt : Runtime} → PolicyConfig → Served rt
new_served config = record {
  documents = no_data;
  idle = replicate (pos_part config.pool_size) none;
  created = 0;
  recreated = 0;
  asked = 0;
}

module _ {rt : Runtime} where
  -- _put_slot, which finds room: the slot was drawn from this queue.
  abbrev pub put_slot : Slot rt → Served rt → Served rt
  put_slot slot p = record p { idle = p.idle ++ slot ∷ [] }

  -- `_release` of an open pool.
  unfoldable pub release : Instance rt → Served rt → Served rt
  release i p =
      if i.poisoned
      then put_slot none (record p { recreated = p.recreated + 1 })
      else put_slot (some i) p

  -- `close`, as far as the slots go: the pool drains its queue.
  unfoldable pub close : Served rt → Served rt
  close p = record p { documents = record p.documents { closed = true }; idle = [] }

module _ (host : Host) (rt : Runtime) (config : PolicyConfig) where
  -- The body of the `with` block, on the instance of the loan, after the refresh of the borrow.
  abbrev pub lend : Value → ℤ → DataState → Exec (Instance rt) Value
  lend input_value ident documents = do
    refresh_if_stale host rt config documents
    Instance.evaluate host rt config input_value ident

-- `create` is what the factory gives for each runtime that it is asked for, and `ensured` what
-- `ensure_running` does.
module _ (host : Host) (rt : Runtime) (config : PolicyConfig) (spec : OpaAbiSpec)
    (create : ℕ → Result rt.State) (ensured : Result (Unit {0})) (entrypoints : Dict ℤ) where
  abbrev pub lent : Value → ℤ → Instance rt → Exec (Served rt) Value
  lent input_value ident i p =
      let (r, j) = lend host rt config input_value ident p.documents i in (r, release j p)

  -- After `_create_instance`: a construction that failed puts the placeholder back.
  abbrev pub after_create : Value → ℤ → Result (Built rt) → Exec (Served rt) Value
  after_create input_value ident (raised e) p = (raised e, put_slot none p)
  after_create input_value ident (ok b) p =
      lent input_value ident b.made (record p { created = p.created + 1 })

  -- The borrow, from the slot that was drawn on.
  abbrev pub with_slot : Value → ℤ → Slot rt → Exec (Served rt) Value
  with_slot input_value ident (some i) p = lent input_value ident i p
  with_slot input_value ident none p =
      let (r, w) = built_on host rt config spec ensured p.documents (create p.asked) new_scaffold in
      after_create input_value ident r (record p { asked = p.asked + 1 })

  -- _take_slot, and the `with` block on what it gives. With no one to return a slot, an empty queue
  -- is a timeout.
  abbrev pub borrow : Value → ℤ → List (Slot rt) → Exec (Served rt) Value
  borrow input_value ident [] p = (raised (fresh (opa pool_timeout)), p)
  borrow input_value ident (slot ∷ rest) p =
      with_slot input_value ident slot (record p { idle = rest })

  abbrev pub evaluate_at : Value → Result ℤ → Exec (Served rt) Value
  evaluate_at input_value (raised e) p = (raised e, p)
  evaluate_at input_value (ok ident) p =
      if p.documents.closed
      then (raised (fresh (opa policy_closed)), p)
      else borrow input_value ident p.idle p

  unfoldable pub evaluate_raw : Value → Option Entrypoint → Exec (Served rt) Value
  evaluate_raw input_value e p = evaluate_at input_value (resolve_entrypoint config entrypoints e) p

  unfoldable pub evaluate : Value → Option Entrypoint → Exec (Served rt) Decision
  evaluate input_value e p =
      let (r, q) = evaluate_raw input_value e p in (then_result r (simplify_result config), q)

  -- set_data, on the policy.
  unfoldable pub set_document : Value → Exec (Served rt) (Unit {0})
  set_document value p =
      let (r, d) = set_data host config value p.documents in (r, record p { documents = d })
