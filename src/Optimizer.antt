-- ===== src/Optimizer.antt =====
-- The optimizer: src/optimizer/robust_optimizer.cpp.
pub mod Stack
pub mod Lift
pub mod UnionFind
pub mod Dag
pub mod Extract
pub mod SpanningTree
pub mod Tree
pub mod Operations
pub mod Generate
pub mod Walk
pub mod Link
pub mod Pushdown
