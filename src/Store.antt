-- ===== src/Store.antt =====
-- pkg/apiserver/adapter/secondary/persistence/inmemory: the generic store and the repository of
-- agents on it.
pub mod Ops
pub mod Agents
pub mod Pages
pub mod Lookup
pub mod Invariant
pub mod Versions
pub mod Writes
