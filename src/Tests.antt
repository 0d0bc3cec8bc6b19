-- ===== src/Tests.antt =====
-- Concrete runs: a toy module in the place of wasmtime, and threads on small pools.
mod Guest
mod Exports
mod Threads
mod Policies
mod Hosts
mod Defaults
mod Shells
mod Scripts
mod Whole
mod Registered
