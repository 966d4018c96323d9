-- ===== src/Physical.antt =====
-- The physical operators: src/operators and src/bloom_filter.cpp.
pub mod Chunk
pub mod Bloom
pub mod MinMax
pub mod Distinct
pub mod Registry
pub mod CreateFilter
pub mod Source
pub mod Probe
