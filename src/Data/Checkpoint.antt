-- ===== src/Data/Checkpoint.antt =====
-- The heap pointer and the checkpoint after each way that `load_data` may end.
use opa_py_wasm.Base.{ℕ, ◌≡◌, refl, true, arith, if◌then◌else◌, Bool-cases, inl, inr, ◌⊎◌}
use opa_py_wasm.Base.Int.{ℤ}
use opa_py_wasm.Errors.{
  IfException, Exn, kind_of, is_exception, raise_saying, kind_of-raise_saying, opa, data_error,
}
use opa_py_wasm.Result.{Result, ok, raised, Exec, handled, modify, continue, rethrow, ◌>>=◌, ◌>>◌}
use opa_py_wasm.Types.{Value, null, Host}
use opa_py_wasm.Runtime.{Runtime}
use opa_py_wasm.Abi
use opa_py_wasm.Memory
use opa_py_wasm.Data.{
  Manager, no_data_addr, is_data_error, on_store, load_data, load_document, load_failed, loaded,
  forget_data,
}

-- A call of `opa_heap_ptr_set` or `opa_heap_ptr_get` has raised this.
abbrev pub HeapFailed : Runtime → Exn → Type 0
HeapFailed rt e =
    ((p : ℤ) × (s : rt.State) × ((Abi.opa_heap_ptr_set rt p s).0 ≡ raised e))
    ⊎ ((s : rt.State) × ((Abi.opa_heap_ptr_get rt s).0 ≡ raised e))

module _ {S : Type 0} (heap : S → ℤ) where
  -- What a call that sets the heap pointer to `p` does in `s`: it sets it, or raises and leaves it.
  abbrev pub HasSet : S → ℤ → Result (Unit {0}) → S → Type 0
  HasSet s p (ok u) t = heap t ≡ p
  HasSet s p (raised e) t = heap t ≡ heap s

  -- What a call that asks for the heap pointer gives, if it returns.
  abbrev pub HasGot : Result ℤ → S → Type 0
  HasGot (ok p) t = heap t ≡ p
  HasGot (raised e) t = Unit

-- What OPA documents of its heap pointer: one call sets it, another gives it. Either may raise instead,
-- as both do after a deadline has passed. Arming a deadline does not touch it.
pub record HeapLaws (rt : Runtime) : Type 0 where
  pub heap : rt.State → ℤ
  pub set_law :
      (p : ℤ) (s : rt.State) → let (r, t) = Abi.opa_heap_ptr_set rt p s in HasSet heap s p r t
  pub get_law : (s : rt.State) → let (r, t) = Abi.opa_heap_ptr_get rt s in HasGot heap r t
  pub heap-deadline :
      (ticks : ℕ) (s : rt.State) → heap (rt.store_set_epoch_deadline ticks s) ≡ heap s

module _ (rt : Runtime) (laws : HeapLaws rt) where
  -- The heap ends where the checkpoint says.
  abbrev pub IsClean : Manager rt → Type 0
  IsClean d = laws.heap d.store ≡ d.data_heap_ptr

  -- No data document: the checkpoint is where the heap began.
  abbrev pub IsEmpty : Manager rt → Type 0
  IsEmpty d = (d.data_addr ≡ no_data_addr) × (d.data_heap_ptr ≡ d.initial_heap_ptr)

  -- What holds after `load_data` has returned, or raised an `Exception`.
  abbrev pub Loaded : Result (Unit {0}) → Manager rt → Type 0
  Loaded (ok u) d = IsClean d
  Loaded (raised e) d =
      IfException e (((kind_of e ≡ opa data_error) × IsEmpty d × IsClean d) ⊎ HeapFailed rt e)

  -- The same, with the heap's beginning still known.
  abbrev LoadedFrom : ℤ → Result (Unit {0}) → Manager rt → Type 0
  LoadedFrom initial r d = Loaded r d × (d.initial_heap_ptr ≡ initial)

  -- The last two steps of `load_document`.
  abbrev checkpoint : Exec (Manager rt) (Unit {0})
  checkpoint = do
    ptr ← on_store rt (Abi.opa_heap_ptr_get rt)
    modify (λ d. record d { data_heap_ptr = ptr })

  -- `load_document` from the outcome of the conversion on.
  abbrev keep_document : Result ℤ → Exec (Manager rt) (Unit {0})
  keep_document r = do
    addr ← handled (load_failed rt) r
    modify (λ d. record d { data_addr = addr })
    checkpoint

  failed_kind :
      (e : Exn)
      → kind_of (if is_data_error (kind_of e) then e else raise_saying (opa data_error) "" e)
        ≡ opa data_error
  failed_kind e = ground (arith, kind_of-raise_saying (opa data_error) "" e)

  got-Loaded :
      (s : rt.State) (r : Result ℤ) (t : rt.State) (d : Manager rt)
      → (Abi.opa_heap_ptr_get rt s).0 ≡ r
      → HasGot laws.heap r t
      → let (o, d') =
          continue r
            (λ ptr. modify (λ m. record m { data_heap_ptr = ptr }))
            (record d { store = t }) in
        LoadedFrom d.initial_heap_ptr o d'
  unfolding modify
  got-Loaded s (ok p) t d e h = (h, refl)
  got-Loaded s (raised x) t d e h = (inr (inr (inr (s, e))), refl)

  checkpoint-Loaded :
      (d : Manager rt) → let (o, d') = checkpoint d in LoadedFrom d.initial_heap_ptr o d'
  unfolding ◌>>=◌ on_store
  checkpoint-Loaded d = got-Loaded d.store _ _ d refl (laws.get_law d.store)

  -- The handler from the outcome of its reset on, for the error that it raises at the end.
  reset-Loaded :
      (e : Exn) (s : rt.State) (r : Result (Unit {0})) (t : rt.State) (d : Manager rt)
      (rest : ℤ → Exec (Manager rt) (Unit {0}))
      → kind_of e ≡ opa data_error
      → (Abi.opa_heap_ptr_set rt d.initial_heap_ptr s).0 ≡ r
      → HasSet laws.heap s d.initial_heap_ptr r t
      → let (q, m) =
          continue r (λ _. (do forget_data rt; rethrow {A = ℤ} e)) (record d { store = t }) in
        let (o, d') = continue q rest m in LoadedFrom d.initial_heap_ptr o d'
  unfolding ◌>>=◌ modify
  reset-Loaded e s (ok u) t d rest k h g = (inr (inl (k, (refl, refl), g)), refl)
  reset-Loaded e s (raised x) t d rest k h g = (inr (inr (inl (d.initial_heap_ptr, s, h))), refl)

  failed-Loaded :
      (e : Exn) (d : Manager rt) (rest : ℤ → Exec (Manager rt) (Unit {0}))
      → let (o, d') = (load_failed rt e >>= rest) d in LoadedFrom d.initial_heap_ptr o d'
  unfolding ◌>>=◌ on_store
  failed-Loaded e d rest = elim (Bool-cases (is_exception (kind_of e))) [
    | inl x ↦ rw x (
        reset-Loaded _ d.store _ _ d rest (failed_kind e) refl
          (laws.set_law d.initial_heap_ptr d.store))
    | inr x ↦ rw x (inl x, refl)
  ]

  keep_Loaded :
      (r : Result ℤ) (d : Manager rt)
      → let (o, d') = keep_document r d in LoadedFrom d.initial_heap_ptr o d'
  unfolding ◌>>=◌ modify
  keep_Loaded (ok a) d = checkpoint-Loaded (record d { data_addr = a })
  keep_Loaded (raised e) d = failed-Loaded e d _

  document_Loaded :
      (host : Host) (limit : ℤ) (value : Value) (d : Manager rt)
      → let (o, d') = load_document host rt limit value d in LoadedFrom d.initial_heap_ptr o d'
  unfolding load_document ◌>>=◌ on_store
  document_Loaded host limit value d =
      let (r, s) = Memory.python_to_opa_value host rt value limit true d.store in
      keep_Loaded r (record d { store = s })

  loaded_Loaded :
      (host : Host) (limit : ℤ) (value : Value) (d : Manager rt)
      → laws.heap d.store ≡ d.initial_heap_ptr
      → let (o, d') = loaded host rt limit value d in LoadedFrom d.initial_heap_ptr o d'
  unfolding modify
  loaded_Loaded host limit null d h = (h, refl)
  loaded_Loaded host limit value d h = document_Loaded host limit value d

  first-Loaded :
      (host : Host) (limit : ℤ) (value : Value) (s : rt.State) (r : Result (Unit {0}))
      (t : rt.State) (d : Manager rt)
      → (Abi.opa_heap_ptr_set rt d.initial_heap_ptr s).0 ≡ r
      → HasSet laws.heap s d.initial_heap_ptr r t
      → let (o, d') = continue r (λ _. loaded host rt limit value) (record d { store = t }) in
        LoadedFrom d.initial_heap_ptr o d'
  first-Loaded host limit value s (ok u) t d e h = loaded_Loaded host limit value _ h
  first-Loaded host limit value s (raised x) t d e h =
      (inr (inr (inl (d.initial_heap_ptr, s, e))), refl)

  -- Where the guest's heap pointer is what was last set, and a failed setting leaves it: after
  -- `load_data` returns, the heap ends at the checkpoint. An `Exception` that it raises was raised by a
  -- call of `opa_heap_ptr_set` or `opa_heap_ptr_get`, or is an `OpaDataError`, and then no document is
  -- left and the heap ends at the checkpoint. Where the heap began stays known either way.
  pub load_data-Loaded :
      (host : Host) (limit : ℤ) (value : Value) (d : Manager rt)
      → let (o, d') = load_data host rt limit value d in
        Loaded o d' × (d'.initial_heap_ptr ≡ d.initial_heap_ptr)
  unfolding load_data ◌>>=◌ on_store
  load_data-Loaded host limit value d =
      first-Loaded host limit value d.store _ _ d refl (laws.set_law d.initial_heap_ptr d.store)
