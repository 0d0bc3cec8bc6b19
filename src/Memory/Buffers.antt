-- ===== src/Memory/Buffers.antt =====
-- `write_bytes` and `read_bytes`, on a guest memory that is a row of bytes.
use opa_py_wasm.Base.{
  ℕ, zero, suc, ◌+◌, ◌-◌, ◌≤◌, ◌≡◌, refl, ap, ◌∙◌, ◌⊎◌, inl, inr, Bool, true, false, not, [], ◌∷◌,
  ◌++◌, arith, leb, leb→le, length, take, drop, slice, length-append, length-take, length-drop,
}
use opa_py_wasm.Base.Int.{ℤ, pos, negsuc, ◌+ℤ◌, ltb_ℤ, leb_ℤ}
use opa_py_wasm.Errors.{kind_of, opa, memory, kind_of-fresh}
use opa_py_wasm.Result.{Result, ok, raised, Exec, pure, raise_if, continue, ◌>>=◌, ◌>>◌}
use opa_py_wasm.Types.{Bytes}
use opa_py_wasm.Runtime.{Runtime}
use opa_py_wasm.Abi
use opa_py_wasm.Memory.{check_range, check_pointer, write_bytes, read_bytes}
use opa_py_wasm.Memory.Cstring.{MemoryLaws}

-- `old` with `new` over its bytes from `a` on.
abbrev pub over : ℕ → Bytes → Bytes → Bytes
over a new old = take a old ++ (new ++ drop (a + length new) old)

-- What wasmtime documents of a write within the memory.
pub record WriteLaws (rt : Runtime) (laws : MemoryLaws rt) : Type 0 where
  pub written : ℕ → Bytes → rt.State → rt.State
  pub write_law :
      (a : ℕ) (new : Bytes) (s : rt.State)
      → a + length new ≤ length (laws.contents s)
      → rt.memory_write (pos a) new s ≡ (ok tt, written a new s)
  pub contents-written :
      (a : ℕ) (new : Bytes) (s : rt.State)
      → a + length new ≤ length (laws.contents s)
      → laws.contents (written a new s) ≡ over a new (laws.contents s)

drop-take_append : (a : ℕ) (xs ys : Bytes) → a ≤ length xs → drop a (take a xs ++ ys) ≡ ys
drop-take_append zero xs ys h = refl
drop-take_append (suc a) [] ys h = absurd (omega arith)
drop-take_append (suc a) (x ∷ xs) ys h = drop-take_append a xs ys (omega arith)

take-append : (xs ys : Bytes) → take (length xs) (xs ++ ys) ≡ xs
take-append [] ys = refl
take-append (x ∷ xs) ys = ap (λ zs. x ∷ zs) (take-append xs ys)

slice-over :
    (a : ℕ) (new old : Bytes)
    → a + length new ≤ length old
    → slice a (a + length new) (over a new old) ≡ new
slice-over a new old h =
    let width : a + length new - a ≡ length new = omega arith in
    rw (drop-take_append a old (new ++ drop (a + length new) old) (omega (arith, h)), width)
      (take-append new (drop (a + length new) old))

length-over :
    (a : ℕ) (new old : Bytes) → a + length new ≤ length old → length (over a new old) ≡ length old
length-over a new old h = omega (
  arith,
  length-append (take a old) (new ++ drop (a + length new) old),
  length-append new (drop (a + length new) old),
  length-take a old,
  length-drop (a + length new) old,
  h,
)

not_negative : (n : ℕ) → ltb_ℤ (pos n) (pos 0) ≡ false
not_negative n = ground arith

sum_pos : (a n : ℕ) → pos a +ℤ pos n ≡ pos (a + n)
sum_pos a n = ground arith

fits : (m n : ℕ) → ltb_ℤ (pos m) (pos n) ≡ not (leb n m)
fits m n = ground arith

positive : (a : ℕ) → leb_ℤ (pos (suc a)) (pos 0) ≡ false
positive a = ground arith

below_zero : (n : ℕ) → leb_ℤ (negsuc n) (pos 0) ≡ true
below_zero n = ground arith

module _ (rt : Runtime) (laws : MemoryLaws rt) (s : rt.State) where
  check_range-eq :
      (a n : ℕ)
      → check_range rt (pos a) (pos n) s
        ≡ raise_if (not (leb (a + n) (length (laws.contents s)))) (opa memory) s
  unfolding check_range Abi.memory_len ◌>>=◌
  check_range-eq a n = rw (not_negative a, not_negative n, sum_pos a n, fits, laws.len_law s) refl

  read-eq :
      (a n : ℕ)
      → a + n ≤ length (laws.contents s)
      → read_bytes rt (pos a) (pos n) s ≡ (ok (slice a (a + n) (laws.contents s)), s)
  unfolding read_bytes Abi.memory_read ◌>>=◌
  read-eq a n h =
      let inside : leb (a + n) (length (laws.contents s)) ≡ true = ground (arith, h) in
      rw (check_range-eq a n, inside, sum_pos a n, laws.read_law a (a + n) s) refl

module _ (rt : Runtime) (laws : MemoryLaws rt) (writes : WriteLaws rt laws) (raw : Bytes) where
  -- What a write does after the allocation that left `u`.
  abbrev pub WasWritten : Result ℤ → rt.State → Result ℤ → rt.State → Type 0
  WasWritten allocated u (raised e) t =
      ((allocated ≡ raised e) ⊎ (kind_of e ≡ opa memory)) × (t ≡ u)
  WasWritten allocated u (ok addr) t =
      (allocated ≡ ok addr)
      × ((a : ℕ) × (addr ≡ pos (suc a))
          × (suc a + length raw ≤ length (laws.contents u))
          × (laws.contents t ≡ over (suc a) raw (laws.contents u)))
      × (read_bytes rt addr (pos (length raw)) t ≡ (ok raw, t))

  abbrev rest_of : ℤ → Exec rt.State ℤ
  rest_of allocated = do
    addr ← check_pointer rt allocated
    check_range rt addr (pos (length raw))
    Abi.memory_write rt addr raw
    pure addr

  reads_back :
      (a : ℕ) (u : rt.State)
      → suc a + length raw ≤ length (laws.contents u)
      → let t = writes.written (suc a) raw u in
        read_bytes rt (pos (suc a)) (pos (length raw)) t ≡ (ok raw, t)
  reads_back a u h =
      let t = writes.written (suc a) raw u in
      let c = writes.contents-written (suc a) raw u h in
      read-eq rt laws t (suc a) (length raw)
        (omega (arith, ap length c, length-over (suc a) raw (laws.contents u) h, h))
      ∙ ap (λ bytes. (ok bytes, t))
          (ap (slice (suc a) (suc a + length raw)) c ∙ slice-over (suc a) raw (laws.contents u) h)

  refused-WasWritten :
      (allocated : ℤ) (u : rt.State)
      → leb_ℤ allocated (pos 0) ≡ true
      → let (r, t) = rest_of allocated u in WasWritten (ok allocated) u r t
  unfolding check_pointer ◌>>=◌
  refused-WasWritten allocated u h = rw h (inr (kind_of-fresh (opa memory)), refl)

  placed-WasWritten :
      (a : ℕ) (u : rt.State) (inside : Bool)
      → leb (suc a + length raw) (length (laws.contents u)) ≡ inside
      → let (r, t) = rest_of (pos (suc a)) u in WasWritten (ok (pos (suc a))) u r t
  unfolding check_pointer Abi.memory_write ◌>>=◌
  placed-WasWritten a u true h =
      let within = leb→le _ _ h in
      rw
        (
          positive a,
          check_range-eq rt laws u (suc a) (length raw),
          h,
          writes.write_law (suc a) raw u within,
        )
        (
          refl,
          (a, refl, within, writes.contents-written (suc a) raw u within),
          reads_back a u within,
        )
  placed-WasWritten a u false h =
      rw (positive a, check_range-eq rt laws u (suc a) (length raw), h)
        (inr (kind_of-fresh (opa memory)), refl)

  rest-WasWritten :
      (allocated : ℤ) (u : rt.State)
      → let (r, t) = rest_of allocated u in WasWritten (ok allocated) u r t
  rest-WasWritten (negsuc n) u = refused-WasWritten (negsuc n) u (below_zero n)
  rest-WasWritten (pos zero) u = refused-WasWritten (pos zero) u refl
  rest-WasWritten (pos (suc a)) u = placed-WasWritten a u _ refl

  allocated-WasWritten :
      (m : Result ℤ) (u : rt.State) → let (r, t) = continue m rest_of u in WasWritten m u r t
  allocated-WasWritten (ok allocated) u = rest-WasWritten allocated u
  allocated-WasWritten (raised e) u = (inl refl, refl)

-- Where guest memory is a row of bytes: `write_bytes` returns the address that the guest allocated,
-- which is positive and leaves room for the bytes; the memory has the bytes there and is as it was
-- elsewhere, and `read_bytes` gives them back. Otherwise it raises what the allocation raised, or
-- `OpaMemoryError`, and writes nothing.
pub write_bytes-WasWritten :
    (rt : Runtime) (laws : MemoryLaws rt) (writes : WriteLaws rt laws) (raw : Bytes) (s : rt.State)
    → let (allocated, u) = Abi.opa_malloc rt (pos (length raw)) s in
      let (r, t) = write_bytes rt raw s in WasWritten rt laws writes raw allocated u r t
unfolding write_bytes ◌>>=◌
write_bytes-WasWritten rt laws writes raw s = allocated-WasWritten rt laws writes raw _ _
