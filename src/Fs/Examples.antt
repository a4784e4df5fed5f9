-- ===== src/Fs/Examples.antt =====
-- A disk whose first sector carries a partition of another system.
use jvmos_jit.Base.{ℕ, false, [], ◌∷◌, refl, true, some, arith, ◌==◌, if◌then◌else◌}
use jvmos_jit.Wasm.Module.{update}
use jvmos_jit.Fat.Bytes.{Buffer}
use jvmos_jit.Fat.Disk.{Disk}
use jvmos_jit.Wasm.Module.{HostEntry}
use jvmos_jit.Wasm.Load.{cleared}
use jvmos_jit.Host.Programs.{Bridge}
use jvmos_jit.Fs.{literal, FsState, fs_init}
use jvmos_jit.Fs.Run.{fs_run}
use jvmos_jit.Fs.Run.Loader.{Outcome, fs_run-Outcome}
use jvmos_jit.Fs.Boot.{LeftAlone, fs_init-LeftAlone}

abbrev sectors : Disk (ℕ → Buffer)
sectors = record { read = λ l d. some (d l); write = λ l s d. (true, update d l s) }

-- One entry of type 0x83, that begins at sector 0.
abbrev other_system : ℕ → Buffer
other_system l i =
    if i == 510 then 0x55 else if i == 511 then 0xAA else if i == 450 then 0x83 else 0

fs_init-LeftAlone_example :
    LeftAlone sectors (λ i. 0) 0 other_system (fs_init sectors (λ i. 0) 0 other_system)
fs_init-LeftAlone_example =
    fs_init-LeftAlone sectors (λ i. 0) 0 other_system (other_system 0) 0 refl refl refl
      (omega arith) (omega arith) (omega arith) (omega arith)

abbrev no_hosts : ℕ → HostEntry (Unit {0})
no_hosts i = record { module_name = λ k. 0; name = λ k. 0; fn = λ a n u. (0, u) }

-- The header of a module without sections, on a disk that was blank.
abbrev new_disk : FsState (ℕ → Buffer)
new_disk = fs_init sectors (literal (0 ∷ 0x61 ∷ 0x73 ∷ 0x6D ∷ 1 ∷ [])) 8 (λ l i. 0)

abbrev bridge : Bridge (Unit {0})
bridge = record {
  module_state = cleared true (λ i. 0) 65536 no_hosts 0 tt;
  loaded = false;
  failed = 0;
  from_disk = false;
  prog = λ i. 0;
}

fs_run-Outcome_example :
    Outcome no_hosts 0
      (λ u. u)
      sectors
      1
      new_disk
      bridge
      (fs_run no_hosts 0 (λ u. u) sectors 1 new_disk bridge)
fs_run-Outcome_example = fs_run-Outcome no_hosts 0 (λ u. u) sectors 1 new_disk bridge
