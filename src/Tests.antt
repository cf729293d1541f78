-- ===== src/Tests.antt =====
-- Each theorem of the list in Lib at a concrete input.
pub mod Cxl
pub mod Queue
pub mod Threshold
pub mod Histogram
pub mod Strategy
pub mod Art
pub mod Node
pub mod Tree
pub mod Workers
pub mod Tables
pub mod Helper
pub mod Kv
pub mod Executor
