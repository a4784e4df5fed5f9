-- ===== src/Fs/Run.antt =====
-- `fs_run` of fs/fat32_disk.c: a program of the volume, handed to the sandbox.
--
-- `wasm_prog_buffer` and `wasm_prog_capacity` of wasm/host.c give the buffer `prog` of the bridge
-- and its size. The disk is only read, so the state of the volume is an argument.
pub mod Loader
use jvmos_jit.Base.{ℕ, ◌-◌, ◌^◌, Bool, true, false, ◌||◌, Option, none, some, ◌==◌, if◌then◌else◌}
use jvmos_jit.Base.Word.{int_neg}
use jvmos_jit.Wasm.Module.{HostEntry}
use jvmos_jit.Fat.Bytes.{Buffer}
use jvmos_jit.Fat.Disk.{Disk}
use jvmos_jit.Fat.Directory.{DirEntry, fat32_list}
use jvmos_jit.Fat.Files.{fat32_read_file}
use jvmos_jit.Edit.Name.{fs_name_max, unpack_into}
use jvmos_jit.Host.Programs.{Bridge, Answer, answer, wasm_prog_max, wasm_prog_use}
use jvmos_jit.Fs.{FsState, is_ready, listed}

-- -1 and -2 as `int`s.
abbrev pub refused : ℕ
refused = 2 ^ 32 - 1

abbrev pub unreadable : ℕ
unreadable = 2 ^ 32 - 2

module _ {U : Type 0} (hosts : ℕ → HostEntry U) (nhosts : ℕ) (drop_keys : U → U) where
  -- What goes on from the answer of `fat32_read_file`, which left `buffer`.
  abbrev pub with_file : Bridge U → ℕ × Buffer → Answer U
  with_file b (n, buffer) =
      let b' = record b { prog = buffer } in
      if n == 0 || int_neg n
      then answer unreadable b'
      else wasm_prog_use hosts nhosts drop_keys n b'

  module _ {D : Type 0} (disk : Disk D) where
    -- The name of the file, as it is read into the buffer of the bridge.
    abbrev pub read_program : FsState D → Bridge U → DirEntry → ℕ × Buffer
    read_program s b e =
        fat32_read_file disk fs_name_max s.fs (unpack_into e.name (λ i. 0)).1 b.prog wasm_prog_max
          s.disk

    abbrev pub with_entry : FsState D → Bridge U → Option DirEntry → Answer U
    with_entry s b none = answer refused b
    with_entry s b (some e) =
        if e.is_dir then answer refused b else with_file b (read_program s b e)

    unfoldable pub fs_run : (index : ℕ) → FsState D → Bridge U → Answer U
    unfolding fat32_list fat32_read_file unpack_into wasm_prog_use
    fs_run index s b =
        if is_ready s.status then with_entry s b (listed disk s index) else answer refused b
