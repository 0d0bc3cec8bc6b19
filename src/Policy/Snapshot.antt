-- ===== src/Policy/Snapshot.antt =====
-- What `set_data` promises of later evaluations.
use opa_py_wasm.Base.{
  suc, ◌+◌, ◌≤◌, ◌≡◌, refl, ap, subst, ◌∙◌, Bool, true, false, Option, some, arith, ◌==◌,
  if◌then◌else◌, Bool-cases, inl, inr, length,
}
use opa_py_wasm.Base.Int.{pos, ltb_ℤ}
use opa_py_wasm.Errors.{opa, policy_closed, invalid_input, kind_of, raise_from, is_value_error}
use opa_py_wasm.Result.{
  Result, ok, raised, then_result, or_handle, raise_if, lift, continue, modify, then_result-eq-ok,
  ◌>>=◌,
}
use opa_py_wasm.Types.{Bytes, Value, null, str, bytes, Host, PolicyConfig}
use opa_py_wasm.Runtime.{Runtime}
use opa_py_wasm.Memory.{coerce_to_json_bytes, check_size, validated, is_type_or_value_error}
use opa_py_wasm.Instance
use opa_py_wasm.Instance.{Instance}
use opa_py_wasm.Policy.{
  DataState, parsed, serialised, within_limit, serialise_data, set_data, as_value, refresh_if_stale,
}

abbrev publish : Option Bytes → DataState → DataState
publish document s = record s { document = document; version = s.version + 1 }

published :
    (r : Result (Option Bytes)) (s t : DataState)
    → continue r (λ d. modify (publish d)) s ≡ (ok tt, t)
    → (r ≡ ok t.document) × (t.version ≡ suc s.version)
unfolding modify
published (ok d) s t h =
    let same = ap (λ x. x.1.version) h in (ap (λ x. ok x.1.document) h, omega arith)
published (raised e) s t h = absurd (ground arith)

gated :
    (closed : Bool) (r : Result (Option Bytes)) (s t : DataState)
    → (raise_if closed (opa policy_closed) >>= λ u. lift r >>= λ d. modify (publish d)) s
      ≡ (ok tt, t)
    → (r ≡ ok t.document) × (t.version ≡ suc s.version)
unfolding ◌>>=◌
gated true r s t h = absurd (ground arith)
gated false r s t h = published r s t h

-- What Python documents of `json`: it reads what it writes.
pub record JsonLaws (host : Host) : Type 0 where
  pub reads_back :
      (value : Value) (raw : Bytes)
      → then_result (host.dumps value) host.encode ≡ ok raw
      → (v : Value) × (host.loads raw ≡ ok v)

module _ (host : Host) (config : PolicyConfig) where
  -- A `set_data` that returns has published the serialised document under the next version.
  set_data-ok :
      (value : Value) (s t : DataState)
      → set_data host config value s ≡ (ok tt, t)
      → (serialise_data host config value ≡ ok t.document) × (t.version ≡ suc s.version)
  unfolding set_data ◌>>=◌
  set_data-ok value s t h = gated s.closed (serialise_data host config value) s t h

  -- Once `set_data` has returned, every instance that is still at the version before, or at an older
  -- one, is given the new document at its next borrow, under the new version.
  pub set_data-refresh :
      (rt : Runtime) (value : Value) (s t : DataState) (i : Instance rt)
      → set_data host config value s ≡ (ok tt, t)
      → i.data_version ≤ s.version
      → (serialise_data host config value ≡ ok t.document)
        × (refresh_if_stale host rt config t i
            ≡ Instance.reload_data host rt config (as_value t.document) (suc s.version) i)
  unfolding refresh_if_stale
  set_data-refresh rt value s t i h older =
      let (d, v) = set_data-ok value s t h in
      let stale : (i.data_version == t.version) ≡ false = ground arith in
      (d, rw stale (ap (λ n. Instance.reload_data host rt config (as_value t.document) n i) v))

  parsed-loads :
      (b raw : Bytes) → parsed host config b ≡ ok raw → (v : Value) × (host.loads raw ≡ ok v)
  parsed-loads b raw h = loaded (host.loads b) refl h
    where
      loaded :
          (r : Result Value)
          → host.loads b ≡ r
          → or_handle (then_result r λ _. ok b) (λ e.
            if is_value_error (kind_of e)
            then raised (raise_from (opa invalid_input) e)
            else raised e)
            ≡ ok raw
          → (v : Value) × (host.loads raw ≡ ok v)
      loaded (ok v) e k = (v, cc)
      loaded (raised x) e k = absurd (ground arith)

  written-loads :
      (laws : JsonLaws host) (value : Value) (r : Result Bytes) (raw : Bytes)
      → then_result (host.dumps value) host.encode ≡ r
      → or_handle r (λ e.
        if is_type_or_value_error (kind_of e)
        then raised (raise_from (opa invalid_input) e)
        else raised e)
        ≡ ok raw
      → (v : Value) × (host.loads raw ≡ ok v)
  written-loads laws value (ok b) raw e h = laws.reads_back value raw cc
  written-loads laws value (raised x) raw e h = absurd (ground arith)

  serialised-loads :
      (laws : JsonLaws host) (value : Value) (raw : Bytes)
      → serialised host config value ≡ ok raw
      → (v : Value) × (host.loads raw ≡ ok v)
  serialised-loads laws (str text) raw h =
      let (b, e, p) = then_result-eq-ok (host.encode text) (parsed host config) h in
      parsed-loads b raw p
  serialised-loads laws (bytes b) raw h = parsed-loads b raw h
  serialised-loads laws value raw h = written-loads laws value _ raw refl h

  within_limit-ok :
      (b raw : Bytes)
      → within_limit host config b ≡ ok (some raw)
      → (b ≡ raw) × (check_size raw config.max_data_bytes ≡ ok tt)
  unfolding check_size
  within_limit-ok b raw h = elim (Bool-cases (ltb_ℤ config.max_data_bytes (pos (length b)))) [
    | inl c ↦ absurd (let h' = rw c at h in ground arith)
    | inr c ↦
        let same : b ≡ raw = cc (rw c at h) in
        let small = subst (λ x. ltb_ℤ config.max_data_bytes (pos (length x)) ≡ false) same c in
        (same, rw small refl)
  ]

  -- Where `json` reads back what it writes: whatever document `set_data` accepts, the codec of an
  -- instance accepts too, with the same bytes, so that a later reload cannot fail on the document.
  pub serialise_data-reloads :
      (laws : JsonLaws host) (value : Value) (raw : Bytes)
      → serialise_data host config value ≡ ok (some raw)
      → (coerce_to_json_bytes host (bytes raw) true ≡ ok raw)
        × (check_size raw config.max_data_bytes ≡ ok tt)
  unfolding serialise_data coerce_to_json_bytes validated
  serialise_data-reloads laws null raw h = absurd (ground arith)
  serialise_data-reloads laws value raw h =
      let (b, e, w) =
        then_result-eq-ok (serialised host config value) (within_limit host config) h in
      let (same, size) = within_limit-ok b raw w in
      let (v, l) = serialised-loads laws value raw (e ∙ ap (λ x. ok x) same) in (rw l refl, size)
