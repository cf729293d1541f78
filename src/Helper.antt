-- ===== src/Helper.antt =====
-- The helpers of src/helper.h and src/helper.cpp, which the key-value wrappers and the benchmarks
-- share: extremes of a vector, the cores of the threads, range scans, timing and printing.
pub mod Stats
pub mod Cores
pub mod Output
pub mod RangeScan
