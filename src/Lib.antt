-- ===== src/Lib.antt =====
-- JVMOS-JIT is a small system for a 32-bit PC. Its C code is a WebAssembly sandbox (wasm/), a FAT32
-- driver with an edit buffer (fs/), and the bridges between these and the desktop. This library
-- models the sandbox, the driver, the edit buffer, the bridge, the sound driver and the C runtime.
--
--   Base          tests, lists, 32-bit words and binary digits
--   Wasm/Reader   the byte reader of wasm/wasm.c: rd_u8, rd_uleb, rd_sleb, rd_skip
--   Wasm/Scan     skip_immediates, branch_target, else_or_end; Wasm/Scan/Nesting is the binary format
--                 that they are set beside
--   Wasm/Module   wasm/wasm.h: the tables, the run-time state, the ways a function ends
--   Wasm/Load     wasm_load and its sections
--   Wasm/Alu      i32 arithmetic
--   Wasm/Memory   mem_check, loads and stores, memory.size and memory.grow
--   Wasm/Exec     run, do_call and wasm_call: branches, single instructions, calls
--   Wasm/Strerror the texts of the errors
--   Wasm/Sandbox  loading and running together
--   Fat           the FAT32 driver, fs/fat32.h and fs/fat32.c, over the two sector functions
--   Fs            fs_init, the fs_* queries and fs_run of fs/fat32_disk.c
--   Edit          fs_edit of fs/fat32_disk.c and fs/fsedit.h, over the driver as an interface, and
--                 Edit/Driver, which fills the interface with the driver
--   Host          wasm/host.c: the table of host functions (Host/Desk), with the key queue, the
--                 rectangles, numbers and pictures they draw, the music; and the programs it runs
--   Sound         wasm/sb16.c: the mixing of tones, the clips in the DMA buffer, the card
--   Runtime       wasm/runtime.c
--
-- wasm_load fills a WasmModule from the bytes of a program; wasm_call looks up an export in it and
-- runs its code against the operand stack, the locals and the labels that the module holds. A host
-- function is a parameter of the sandbox: it gets its arguments and the host's state and gives a value
-- and a new state, and is taken not to write into the module.
--
-- State is passed explicitly. An array is a function of its index, and an access outside an array
-- that the source does not test ends the model's run as `wild`. An int is its 32-bit pattern, and
-- wrap-around is written out. LEB128 loops have five rounds, since the shift passes 31 in the fifth;
-- scans and loading have as many as there are bytes left; a run of a guest, which need not end, is
-- on fuel, and `none` says that it ran out. A br_table that never ends is `spin`, and `none` as well.
--
-- The disk is a parameter: a read gives a sector or fails, a write says whether it succeeded, and
-- IsDisk states that a sector that was written is read back and that no other one changes. The driver's
-- g_sector is filled before each use, so it is a local value. Loops over clusters have the rounds that
-- the code's own guards leave, and scans of the root directory as many as the guard allows slots.
--
-- The module's bytes are taken to lie apart from the guest's memory. The assembly's
-- ports, clock, speaker and drawing calls are records of operations (Ports, Display), and g_hosts is
-- a table that fits the loader's parameter. Not modelled are the serial messages, the generated
-- tables, and what is not C: the boot code, the JIT and the system calls in assembly, the
-- Java system, the Rust guest.
pub mod Base
pub mod Wasm
pub mod Fat
pub mod Fs
pub mod Edit
pub mod Host
pub mod Sound
pub mod Runtime
