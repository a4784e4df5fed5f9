-- ===== src/Fat.antt =====
-- The FAT32 driver, fs/fat32.h and fs/fat32.c.
--
-- `g_sector` is filled before each use within one function, so it is a local value here. The disk
-- is reached through `Disk`, the two functions that the platform provides.
pub mod Bytes
pub mod Names
pub mod Disk
pub mod Table
pub mod Directory
pub mod Files
pub mod Format
pub mod Space
mod Examples
