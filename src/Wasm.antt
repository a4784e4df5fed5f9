-- ===== src/Wasm.antt =====
-- The WebAssembly interpreter, wasm/wasm.h and wasm/wasm.c.
pub mod Reader
pub mod Scan
pub mod Module
pub mod Alu
pub mod Names
pub mod Strerror
pub mod Stack
pub mod Memory
pub mod Load
pub mod Exec
pub mod Sandbox
mod Examples
