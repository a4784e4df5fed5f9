-- ===== src/Fs/Run/Loader.antt =====
-- What starting a program of the volume can come to.
use jvmos_jit.Base.{
  ℕ, ◌≤◌, ◌<◌, ◌≡◌, ◌≢◌, ◌^◌, refl, sym, ◌⊎◌, true, false, ◌||◌, if-cases, Option, none, some,
  arith, ltb, ◌==◌,
}
use mathlib.Core.Path.{subst}
use jvmos_jit.Base.Word.{int_neg}
use jvmos_jit.Wasm.Module.{HostEntry}
use jvmos_jit.Fat.Bytes.{Buffer}
use jvmos_jit.Fat.Disk.{Disk}
use jvmos_jit.Fat.Directory.{DirEntry}
use jvmos_jit.Fat.Files.Bounds.{fat32_read_file-StaysWithin}
use jvmos_jit.Edit.Name.{fs_name_max, unpack_into}
use jvmos_jit.Host.Programs.{Bridge, Answer, answer, wasm_prog_max, use_module, wasm_prog_use}
use jvmos_jit.Fat.Files.{fat32_read_file}
use jvmos_jit.Fs.{FsState, fs_mounted, fs_formatted, is_ready, listed}
use jvmos_jit.Fs.Run.{refused, unreadable, with_file, read_program, with_entry, fs_run}

-- A buffer that is as the bridge's from its end on.
abbrev Spares : {U : Type 0} → Bridge U → Buffer → Type 0
Spares b buffer = (i : ℕ) → wasm_prog_max ≤ i → buffer i ≡ b.prog i

module _ {U D : Type 0} (hosts : ℕ → HostEntry U) (nhosts : ℕ) (drop_keys : U → U)
    (disk : Disk D) where
  -- Entry `index` of the listing is a file, and reading it under its name into the program buffer
  -- gives this result and leaves this buffer.
  pub record Read (index : ℕ) (s : FsState D) (b : Bridge U) (n : ℕ) (buffer : Buffer)
      : Type 0 where
    pub mounted : (s.status ≡ fs_mounted) ⊎ (s.status ≡ fs_formatted)
    pub entry : DirEntry
    pub listed_there : listed disk s index ≡ some entry
    pub is_file : entry.is_dir ≡ false
    pub reads :
        fat32_read_file disk fs_name_max s.fs
          (unpack_into entry.name (λ i. 0)).1
          b.prog
          wasm_prog_max
          s.disk
        ≡ (n, buffer)
    pub spares : Spares b buffer

  -- The outcomes: there is no volume, no entry or no file and nothing happened; the file could not
  -- be read or is empty, and what is running is left as it was but for the bytes of the buffer; or
  -- as many bytes as were read are the module that is loaded.
  pub data Outcome (index : ℕ) (s : FsState D) (b : Bridge U) : Answer U → Type 0 where
    not_mounted :
        s.status ≢ fs_mounted → s.status ≢ fs_formatted → Outcome index s b (answer refused b)
    no_entry : listed disk s index ≡ none → Outcome index s b (answer refused b)
    directory :
        (e : DirEntry)
        → listed disk s index ≡ some e
        → e.is_dir ≡ true
        → Outcome index s b (answer refused b)
    unread :
        (n : ℕ) (buffer : Buffer)
        → Read index s b n buffer
        → (n ≡ 0) ⊎ (2 ^ 31 ≤ n)
        → Outcome index s b (answer unreadable (record b { prog = buffer }))
    tried :
        (n : ℕ) (buffer : Buffer)
        → Read index s b n buffer
        → 0 < n
        → n ≤ wasm_prog_max
        → Outcome index s b
            (use_module hosts nhosts drop_keys buffer n true (record b { prog = buffer }))

  accepted :
      (n : ℕ) (b : Bridge U)
      → (n == 0 || int_neg n) ≡ false
      → n ≤ wasm_prog_max
      → wasm_prog_use hosts nhosts drop_keys n b ≡ use_module hosts nhosts drop_keys b.prog n true b
  unfolding wasm_prog_use
  accepted n b h k =
      if-cases (λ a. a ≡ use_module hosts nhosts drop_keys b.prog n true b)
        ((n == 0 || int_neg n) || ltb wasm_prog_max n) _
        (use_module hosts nhosts drop_keys b.prog n true b)
        (λ long. absurd (contradiction n long h k)) (λ _. refl)
    where
      contradiction :
          (n : ℕ)
          → ((n == 0 || int_neg n) || ltb wasm_prog_max n) ≡ true
          → (n == 0 || int_neg n) ≡ false
          → n ≤ wasm_prog_max
          → ⊥
      contradiction n long h k = ground (arith, long, h, k)

  with_file-Outcome :
      (index : ℕ) (s : FsState D) (b : Bridge U) (r : ℕ × Buffer)
      → Read index s b r.0 r.1
      → (int_neg r.0 ≡ true) ⊎ (r.0 ≤ wasm_prog_max)
      → Outcome index s b (with_file hosts nhosts drop_keys b r)
  with_file-Outcome index s b (n, buffer) read fits =
      if-cases (Outcome index s b) (n == 0 || int_neg n) _ _
        (λ no. unread n buffer read (ground (arith, no)))
        (λ more.
          subst (Outcome index s b)
            (sym (accepted n (record b { prog = buffer }) more (in_room n more fits)))
            (tried n buffer read (ground (arith, more)) (in_room n more fits)))
    where
      in_room :
          (n : ℕ)
          → (n == 0 || int_neg n) ≡ false
          → (int_neg n ≡ true) ⊎ (n ≤ wasm_prog_max)
          → n ≤ wasm_prog_max
      in_room n more fits = ground (arith, more, fits)

  with_entry-Outcome :
      (index : ℕ) (s : FsState D) (b : Bridge U) (o : Option DirEntry)
      → (s.status ≡ fs_mounted) ⊎ (s.status ≡ fs_formatted)
      → listed disk s index ≡ o
      → Outcome index s b (with_entry hosts nhosts drop_keys disk s b o)
  with_entry-Outcome index s b none ready there = no_entry there
  with_entry-Outcome index s b (some e) ready there =
      let (fits, spares) =
        fat32_read_file-StaysWithin disk fs_name_max s.fs (unpack_into e.name (λ i. 0)).1 b.prog
          wasm_prog_max s.disk in
      if-cases (Outcome index s b) e.is_dir _ _ (directory e there) (λ file.
        with_file-Outcome index s b (read_program hosts nhosts drop_keys disk s b e)
          (record {
            mounted = ready;
            entry = e;
            listed_there = there;
            is_file = file;
            reads = refl;
            spares = spares;
          })
          fits)

  -- Whatever is on the disk, starting a program of the volume comes to one of these: without a
  -- volume, and on an entry that is missing or a directory, it gives -1 and changes nothing; on a
  -- file whose read under the entry's name gives 0 or an error it gives -2, and only the bytes of
  -- the program buffer are those that the read has left; on any other file it is the start of the
  -- module of exactly as many bytes as the read has given, at least one and no more than the
  -- buffer, out of the buffer that the read has left. No byte behind the buffer changes before the
  -- module is loaded.
  pub fs_run-Outcome :
      (index : ℕ) (s : FsState D) (b : Bridge U)
      → Outcome index s b (fs_run hosts nhosts drop_keys disk index s b)
  unfolding fs_run
  fs_run-Outcome index s b =
      if-cases (Outcome index s b) (is_ready s.status) _ _
        (λ ready. with_entry-Outcome index s b (listed disk s index) (ground (arith, ready)) refl)
        (λ not_ready. not_mounted (ground (arith, not_ready)) (ground (arith, not_ready)))
