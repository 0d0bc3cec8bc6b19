-- ===== src/Lib.antt =====
-- Verification library of opapywasm, the Python SDK that evaluates OPA policies compiled to
-- WebAssembly.
--
-- The program: `OpaWasmPolicy` (opapywasm/policy.py) compiles a module once and keeps a pool
-- (opapywasm/pool.py) of instances (opapywasm/instance.py). Each instance owns a wasmtime Store
-- (opapywasm/runtime.py), bound to the OPA ABI (opapywasm/abi.py), a codec between Python, JSON and
-- guest memory (opapywasm/memory.py), the data document with its heap checkpoints
-- (opapywasm/data.py) and an evaluator (opapywasm/evaluator.py), which calls the host builtins
-- (opapywasm/builtins.py) back.
--
-- The files:
--   Base: names of the libraries, lists over the native numbers, integers, dictionaries.
--   Errors: opapywasm/errors.py, exceptions as linked objects. Errors/Chain: the walks of
--     opapywasm/evaluator.py along the links. Result: code that may raise, with the state it leaves.
--   Types: opapywasm/types.py and the Python library that the program calls, as the record `Host`.
--   Runtime: `WasmtimeRuntime`; what wasmtime does is the record `Runtime`, a parameter.
--     Runtime/Instantiate: the loop of its constructor. Runtime/Stores: the same loop with the Stores
--     that it opens and closes and the lifecycle lock. Runtime/Factory: `WasmtimeRuntimeFactory` and
--     the registration of the host functions. Runtime/Callbacks: those functions themselves.
--     Runtime/Epoch: `EpochTicker` as a step relation.
--   Abi: `OpaAbiSpec` and `OpaAbi`. Memory: `MemoryCodec`. Data: `DataManager`.
--   Evaluator: `Evaluator`. Instance: `OpaPolicyInstance`. Instance/Guest: the instance with a guest
--     that calls the host functions, and that their dispatch calls again.
--   Pool: `OpaInstancePool` as a step relation: a thread's atomic action on the queue or the closed
--     event is one step, and threads interleave in any order.
--   Builtins: `BuiltinRegistry`, with the dicts that it publishes as shared objects.
--     Builtins/Sprintf: `_sprintf`, its scan and its loop. Builtins/Defaults: the other default
--     builtins, over the record `Library` of Python's and PyYAML's functions.
--   Policy: `OpaWasmPolicy`, its entrypoints, data snapshot and decisions. Policy/Serve: `evaluate`
--     as a whole, on the instance that the pool lent. Policy/Lifecycle: the count of running
--     evaluations, as a step relation like the pool's. Policy/Versions: `set_data` against concurrent
--     evaluations. Policy/Whole: the pool, the document and the lifecycle in one state, and its child
--     Turns their steps. Policy/Construction: the constructor with its probe. Policy/Pooled: the
--     policy with the instances in its pool, for calls in sequence. Policy/Registration:
--     `register_builtin`, and the dispatch after it.
--   Fixtures: scripts/build_fixtures.py, over the record `Shell` of the commands and files outside.
--   Tests: runs and instances of the theorems on a toy guest and on small pools.
--
-- Python integers are the type of `Base/Int`, bytes are lists of numbers, and times are whole
-- milliseconds; how many ticks a timeout makes by Python's float division and `math.ceil` is a field of
-- `Host`. `read_cstring` runs on fuel, one more than its scan budget: every round reads at
-- least a byte. The walks along an exception's links run on one more than the number of objects:
-- every round sees a new one. The loop of instantiation runs on one more than its ceiling: every
-- round but the last tries more pages than the one before. The scan of a format runs on one more than
-- its length: every match has a character or more.
--
-- A guest in Instance/Guest is given a stack of any depth for the calls that the dispatch makes of it
-- while it runs; the theorems hold at every depth, and where the stack is full, the call traps.
--
-- Not modelled: messages that the program composes, logging, reading Wasm from files and streams, a
-- dispatch that the guest asks for while its instance is under construction, the wait of a second
-- `close` for the first, the examples, and the code of wasmtime, of PyYAML and of Python's own
-- library, which are parameters with named laws.
pub mod Base
pub mod Errors
pub mod Result
pub mod Types
pub mod Runtime
pub mod Abi
pub mod Memory
pub mod Data
pub mod Evaluator
pub mod Instance
pub mod Pool
pub mod Builtins
pub mod Policy
pub mod Fixtures
pub mod Tests
