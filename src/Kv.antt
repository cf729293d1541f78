-- ===== src/Kv.antt =====
-- The key-value wrappers of src/kv, through which the benchmarks reach the two trees. The trees are
-- interfaces here: records of operations, with their documented behaviour as laws.
pub mod Format
pub mod Background
pub mod Trees
pub mod Masstree
pub mod Art
pub mod Key
pub mod Hotness
pub mod Lifecycle
