-- ===== src/Host.antt =====
-- The bridge between the sandbox and the kernel, wasm/host.c: its key queue, and the clamping of
-- what a guest draws.
pub mod Keys
pub mod Window
pub mod Programs
pub mod Music
pub mod Digits
pub mod Picture
pub mod Desk
mod Examples
