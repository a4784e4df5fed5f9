-- ===== src/Sound.antt =====
-- The sounds of wasm/sb16.c: the clips in the DMA buffer, and the card or the speaker that plays them.
pub mod Mix
pub mod Clips
pub mod Card
mod Examples
