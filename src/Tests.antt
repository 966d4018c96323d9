-- ===== src/Tests.antt =====
-- Examples of the theorems.
mod Fixtures
mod Physical
mod Optimizer
mod Graph
mod Flip
mod Generate
mod Link
mod Tree
mod Registered
