-- ===== src/Bench.antt =====
-- benchmarks/sylog_bench.cpp.
pub mod Options
pub mod Samples
pub mod Run
pub mod Report
