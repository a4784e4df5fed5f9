-- ===== src/Host/Desk/Guest.antt =====
-- What a frame of a guest can do to the bridge's state.
use jvmos_jit.Base.{ℕ, ◌≡◌, none, some, []}
use mathlib.Core.Path.{subst}
use jvmos_jit.Wasm.Reader.{Bytes}
use jvmos_jit.Wasm.Module.{WasmModule, HostEntry, ok, fail, wild}
use jvmos_jit.Wasm.Module.Post.{Sound, Keeps, Reached, unchanged, called as reached_by}
use jvmos_jit.Wasm.Exec.Call.{Run, wasm_call}
use jvmos_jit.Wasm.Exec.Safe.Runs.{RunKept, wasm_call_confined}
use jvmos_jit.Sound.Card.{Ports}
use jvmos_jit.Sound.Card.Dma.{Dma, HasDma}
use jvmos_jit.Host.Picture.{Image}
use jvmos_jit.Host.Programs.{Bridge, Answer, answer, astray, called, running, call_frame}
use jvmos_jit.Host.Desk.{Display, Desk, drop_keys, g_hosts}
use jvmos_jit.Host.Desk.Behaved.{IsSane, Behaves, still, Behaves-trans, g_hosts-Behaves}

module _ {V W : Type 0} (display : Display V) (io : Ports W) (images : ℕ → Image) (image_count : ℕ)
    (view : W → Dma) (dma : HasDma io view) where
  abbrev Table : ℕ → HostEntry (Desk V W)
  Table = g_hosts display io images image_count

  reached-Behaves :
      (d e : Desk V W)
      → IsSane d
      → Reached Table d e
      → Behaves display io images image_count view dma d e
  reached-Behaves d e h unchanged = still display io images image_count view dma d h
  reached-Behaves d _ h (reached_by i args n v r) =
      Behaves-trans display io images image_count view dma d v _ (reached-Behaves d v h r)
        (g_hosts-Behaves display io images image_count view dma i args n v)

  keeps-Behaves :
      (m n : WasmModule (Desk V W))
      → m.hosts ≡ Table
      → IsSane m.user
      → Keeps m n
      → Behaves display io images image_count view dma m.user n.user
  keeps-Behaves m n e h k =
      reached-Behaves m.user n.user h (subst (λ hosts. Reached hosts m.user n.user) e k.reached)

  -- What an answer may leave, unless the run has left one of the module's arrays or its fuel.
  abbrev pub AnswerBehaves : Desk V W → Answer (Desk V W) → Type 0
  AnswerBehaves d astray = Unit {0}
  AnswerBehaves d (answer r s) =
      Sound s.module_state × Behaves display io images image_count view dma d s.module_state.user

  module _ (builtin : Bytes) (builtin_len fuel : ℕ) (frame_name : ℕ → ℕ) where
    called-Behaves :
        (s : Bridge (Desk V W)) (run : Run (Desk V W))
        → s.module_state.hosts ≡ Table
        → IsSane s.module_state.user
        → RunKept s.module_state run
        → AnswerBehaves s.module_state.user
            (called Table 9 drop_keys builtin builtin_len fuel frame_name s run)
    called-Behaves s (some (ok v m)) e h k = (k.sound, keeps-Behaves s.module_state m e h k)
    called-Behaves s (some (fail x m)) e h k = (k.sound, keeps-Behaves s.module_state m e h k)
    called-Behaves s (some wild) e h k = tt
    called-Behaves s none e h k = tt

    -- Over the table of host functions, whatever program is loaded and whatever it does in a frame,
    -- and however the frame ends, as long as the run has not left one of the module's own arrays or
    -- its fuel: the module's state is sound again, the bridge's state is sane again, the window and
    -- the switch for the sound are what they were, and the DMA controller is left alone or set to a
    -- clip of the buffer.
    pub call_frame-Behaves :
        (s : Bridge (Desk V W))
        → Sound s.module_state
        → s.module_state.hosts ≡ g_hosts display io images image_count
        → IsSane s.module_state.user
        → AnswerBehaves s.module_state.user (
            call_frame
              (g_hosts display io images image_count)
              9
              drop_keys
              builtin
              builtin_len
              fuel
              frame_name
              s)
    unfolding call_frame
    call_frame-Behaves s sound e h =
        called-Behaves s
          (wasm_call fuel (running Table 9 drop_keys builtin builtin_len fuel frame_name s)
            frame_name [] s.module_state)
          e h
          (wasm_call_confined fuel (running Table 9 drop_keys builtin builtin_len fuel frame_name s)
            frame_name [] s.module_state sound)
