-- ===== src/Plan.antt =====
-- src/PafioPlan/CompilePlan.cpp: the choice of what to build, and the order of the packages.
pub mod Order
pub mod Hash
pub mod Select
