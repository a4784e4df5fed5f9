-- ===== src/Wasm/Exec.antt =====
-- One instruction of `run` in wasm/wasm.c, by the class of its opcode.
--
-- A frame holds the local variables of one activation of `run`. The children model branches
-- (`Branch`) and calls with the loop of `run` itself (`Call`).
pub mod Frame
pub mod Branch
pub mod Step
pub mod Call
pub mod Safe
