-- ===== src/Wasm/Exec/Safe.antt =====
-- The interpreter keeps its invariant: the children take it through the branches, through one
-- instruction, and through whole runs.
pub mod Branches
pub mod Steps
pub mod Runs
pub mod Escape
