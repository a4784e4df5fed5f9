-- ===== src/Edit.antt =====
-- The edit buffer of fs/fat32_disk.c: `fs_edit` of fs/fsedit.h and the functions behind it.
--
-- A text is a function of the offset into `g_text`. An `int` is its bit pattern. The driver in
-- fs/fat32.c is reached through `Volume`.
pub mod Text
pub mod Name
pub mod Volume
pub mod Editor
pub mod Driver
mod Examples
