-- ===== src/Policy/Pooled/Calls.antt =====
-- The idle instances of a policy are healthy, whatever was called before.
use opa_py_wasm.Base.{
  ℕ, zero, suc, ◌+◌, ◌≤◌, ◌≡◌, refl, ap, ◌∙◌, inl, inr, Bool, true, false, Option, none, some,
  arith, length, replicate,
}
use opa_py_wasm.Base.All.{All-map, All-replicate}
use opa_py_wasm.Base.Dict.{Dict}
use opa_py_wasm.Base.Int.{ℤ, pos_part}
use opa_py_wasm.Errors.{opa, policy_closed}
use opa_py_wasm.Result.{continue, modify, raise_if, lift, ◌>>◌, Result, ok, raised, ◌>>=◌}
use opa_py_wasm.Types.{Bytes, Value, Host, Entrypoint, PolicyConfig}
use opa_py_wasm.Runtime.{Runtime}
use opa_py_wasm.Abi.{OpaAbiSpec}
use opa_py_wasm.Data.Checkpoint.{HeapLaws}
use opa_py_wasm.Policy.{DataState, resolve_entrypoint, serialise_data, set_data}
use opa_py_wasm.Policy.Pooled.{Slot, Served, new_served, close, evaluate_raw, set_document}
use opa_py_wasm.Policy.Pooled.Healthy.{exits}
use opa_py_wasm.Policy.Pooled.Kept.{IsHealthy, IsSound, evaluate_at-Kept}

length-replicate : {A : Type 0} (n : ℕ) (a : A) → length (replicate n a) ≡ n
length-replicate zero a = refl
length-replicate (suc n) a = ap suc (length-replicate n a)

IsHealthy-later :
    (rt : Runtime) (laws : HeapLaws rt) (v w : ℕ)
    → v ≤ w
    → (slot : Slot rt) → IsHealthy rt laws v slot
    → IsHealthy rt laws w slot
IsHealthy-later rt laws v w h none s = tt
IsHealthy-later rt laws v w h (some i) s = (s.0, s.1, omega (arith, s.2, h))

published_later :
    (document : Result (Option Bytes)) (d : DataState)
    → let (r, e) =
        continue document
          (λ o. modify (λ t. record t { document = o; version = t.version + 1 }))
          d in
      (d.version ≤ e.version) × (e.closed ≡ d.closed)
unfolding modify
published_later (ok o) d = (omega arith, refl)
published_later (raised x) d = (omega arith, refl)

checked_later :
    (closed : Bool) (document : Result (Option Bytes)) (d : DataState)
    → let (r, e) =
        (do
          raise_if closed (opa policy_closed)
          o ← lift document
          modify (λ t. record t { document = o; version = t.version + 1 }))
          d in
      (d.version ≤ e.version) × (e.closed ≡ d.closed)
unfolding ◌>>=◌
checked_later true document d = (omega arith, refl)
checked_later false document d = published_later document d

set_data-later :
    (host : Host) (config : PolicyConfig) (value : Value) (d : DataState)
    → let (r, e) = set_data host config value d in (d.version ≤ e.version) × (e.closed ≡ d.closed)
unfolding set_data
set_data-later host config value d = checked_later d.closed (serialise_data host config value) d

module _ (host : Host) (rt : Runtime) (config : PolicyConfig) (spec : OpaAbiSpec)
    (create : ℕ → Result rt.State) (ensured : Result (Unit {0})) (entrypoints : Dict ℤ) where
  -- What calls from one thread make of a new policy, none of which has raised what is no `Exception`.
  pub data Reaches : Served rt → Type 0 where
    begin : Reaches (new_served config)
    evaluated :
        {p : Served rt} (input_value : Value) (e : Option Entrypoint)
        → Reaches p
        → exits (evaluate_raw host rt config spec create ensured entrypoints input_value e p).0
          ≡ false
        → Reaches (evaluate_raw host rt config spec create ensured entrypoints input_value e p).1
    updated :
        {p : Served rt} (value : Value)
        → Reaches p
        → Reaches (set_document host rt config spec create ensured entrypoints value p).1
    closed : {p : Served rt} → Reaches p → Reaches (close p)

  raw-Kept :
      (laws : HeapLaws rt) (size : ℕ) (input_value : Value) (e : Option Entrypoint) (p : Served rt)
      → IsSound rt laws size p
      → exits (evaluate_raw host rt config spec create ensured entrypoints input_value e p).0
        ≡ false
      → IsSound rt laws size
          (evaluate_raw host rt config spec create ensured entrypoints input_value e p).1
  unfolding evaluate_raw
  raw-Kept laws size input_value e p s n =
      elim (evaluate_at-Kept host rt config spec create ensured entrypoints laws size input_value
        (resolve_entrypoint config entrypoints e) p s) [
          | inl x ↦ absurd (ground (arith, x, n))
          | inr q ↦ q
        ]

  updated-IsSound :
      (laws : HeapLaws rt) (size : ℕ) (value : Value) (p : Served rt)
      → IsSound rt laws size p
      → IsSound rt laws size (set_document host rt config spec create ensured entrypoints value p).1
  unfolding set_document
  updated-IsSound laws size value p s =
      let (later, same) = set_data-later host config value p.documents in
      (
        All-map _ _ p.idle (IsHealthy-later rt laws _ _ later) s.0,
        elim s.1 [ inl x ↦ inl (same ∙ x) | inr count ↦ inr count ],
      )

  -- Where the guest's heap pointer is what was last set, and a failed setting leaves it: after any
  -- sequence of evaluations, changes of the data and closes from a new policy, failed ones included,
  -- but with no evaluation that raises what is no `Exception`, every idle instance is fit for the next loan: it is not poisoned, its heap ends at its
  -- checkpoint, and its data is no newer than the policy's. Until `close`, no slot is lost.
  pub Reaches-IsSound :
      (laws : HeapLaws rt) {p : Served rt}
      → Reaches p
      → IsSound rt laws (pos_part config.pool_size) p
  unfolding close
  Reaches-IsSound laws begin = (
    All-replicate (IsHealthy rt laws 0) (pos_part config.pool_size) none tt,
    inr (length-replicate (pos_part config.pool_size) none),
  )
  Reaches-IsSound laws (evaluated input_value e r n) =
      raw-Kept laws _ input_value e _ (Reaches-IsSound laws r) n
  Reaches-IsSound laws (updated value r) = updated-IsSound laws _ value _ (Reaches-IsSound laws r)
  Reaches-IsSound laws (closed r) = (tt, inl refl)
