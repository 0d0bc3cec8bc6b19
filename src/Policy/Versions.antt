-- ===== src/Policy/Versions.antt =====
-- opapywasm/policy.py and opapywasm/pool.py, the data document under concurrency: `set_data` by some
-- threads, and by others `evaluate_raw` with the borrow, the build and the refresh of an instance.
-- Each step is one block under the data lock, or what a thread does with an instance that it alone
-- has.
pub mod Fresh
use opa_py_wasm.Base.{
  ℕ, suc, ◌+◌, ◌≡◌, true, false, Option, none, some, List, [], ◌∷◌, ◌++◌, ◌==◌, get_elem?, set,
  replicate,
}
use opa_py_wasm.Types.{Bytes}

abbrev pub Document : Type 0
Document = Option Bytes

-- What an instance has loaded: its `data_version`, and the document in its memory.
pub record Holder : Type 0 where
  pub version : ℕ
  pub document : Document

-- `_data` and `_data_version`, and the instances that are idle in the pool. `published` is no field
-- of the program: it lists the documents that have been current, by version.
pub record Shared : Type 0 where
  pub document : Document
  pub version : ℕ
  pub published : List Document
  pub idle : List Holder

abbrev pub new_shared : Shared
new_shared = record { document = none; version = 0; published = none ∷ []; idle = [] }

-- `set_data` under the lock.
unfoldable pub publish : Document → Shared → Shared
publish d s = record s { document = d; version = s.version + 1; published = s.published ++ d ∷ [] }

unfoldable pub put_idle : Holder → Shared → Shared
put_idle i s = record s { idle = s.idle ++ i ∷ [] }

-- Where a thread stands; `called` is the version that was current when it called `evaluate_raw`.
pub data Worker : Type 0 where
  resting : Worker
  offering : Document → Worker
  borrowing : (called : ℕ) → Worker
  building : (called : ℕ) → Worker
  constructing : (called version : ℕ) (document : Document) → Worker
  lent : (called : ℕ) → Holder → Worker
  snapped : (called : ℕ) → Holder → (version : ℕ) (document : Document) → Worker
  evaluating : (called : ℕ) → Holder → Worker
  ending : Holder → Worker

-- The atomic steps of one thread.
pub data Turn : Shared → Worker → Shared → Worker → Type 0 where
  -- set_data, once the document is serialised
  offer : {s : Shared} (d : Document) → Turn s resting s (offering d)
  write : {s : Shared} {d : Document} → Turn s (offering d) (publish d s) resting
  -- evaluate_raw, and the borrow: an idle instance, or a placeholder and `_build_instance`
  call : {s : Shared} → Turn s resting s (borrowing s.version)
  draw :
      {s : Shared} {n : ℕ} {i : Holder} {rest : List Holder}
      → s.idle ≡ i ∷ rest
      → Turn s (borrowing n) (record s { idle = rest }) (lent n i)
  draw_placeholder : {s : Shared} {n : ℕ} → Turn s (borrowing n) s (building n)
  borrow_fails : {s : Shared} {n : ℕ} → Turn s (borrowing n) s resting
  snapshot_build :
      {s : Shared} {n : ℕ} → Turn s (building n) s (constructing n s.version s.document)
  construct :
      {s : Shared} {n v : ℕ} {d : Document}
      → Turn s (constructing n v d) s (lent n (record { version = v; document = d }))
  construct_fails : {s : Shared} {n v : ℕ} {d : Document} → Turn s (constructing n v d) s resting
  -- an instance that is drawn from a closed pool is dropped, and so are the idle ones that its
  -- `close` drains
  refuse : {s : Shared} {n : ℕ} {i : Holder} → Turn s (lent n i) s resting
  drain :
      {s : Shared} {i : Holder} {rest : List Holder}
      → s.idle ≡ i ∷ rest
      → Turn s resting (record s { idle = rest }) resting
  -- _refresh_if_stale
  snapshot :
      {s : Shared} {n : ℕ} {i : Holder} → Turn s (lent n i) s (snapped n i s.version s.document)
  fresh :
      {s : Shared} {n v : ℕ} {i : Holder} {d : Document}
      → (i.version == v) ≡ true
      → Turn s (snapped n i v d) s (evaluating n i)
  reload :
      {s : Shared} {n v : ℕ} {i : Holder} {d : Document}
      → (i.version == v) ≡ false
      → Turn s (snapped n i v d) s (evaluating n (record { version = v; document = d }))
  -- a reload that fails, whatever the memory of the instance then holds
  reload_fails :
      {s : Shared} {n v : ℕ} {i : Holder} {d : Document} (left : Document)
      → (i.version == v) ≡ false
      → Turn s (snapped n i v d) s (ending (record i { document = left }))
  -- the release after the evaluation, or after the reload that failed: the pool keeps the instance or
  -- drops it
  finish : {s : Shared} {n : ℕ} {i : Holder} → Turn s (evaluating n i) s (ending i)
  keep : {s : Shared} {i : Holder} → Turn s (ending i) (put_idle i s) resting
  discard : {s : Shared} {i : Holder} → Turn s (ending i) s resting

pub record World : Type 0 where
  pub shared : Shared
  pub workers : List Worker

pub data Act (w : World) : World → Type 0 where
  act :
      {s : Shared} {a b : Worker} (k : ℕ)
      → get_elem? w.workers k ≡ some a
      → Turn w.shared a s b
      → Act w (record { shared = s; workers = set w.workers k b })

-- What some interleaving of `n` threads reaches from a new policy.
pub data Reaches (n : ℕ) : World → Type 0 where
  begin : Reaches n (record { shared = new_shared; workers = replicate n resting })
  then' : {w u : World} → Reaches n w → Act w u → Reaches n u
