-- ===== src/Io/Audio/Calls.antt =====
-- The calls of hw/i386/shadps4-io.c that touch sound, in any order.
pub mod Bounds
use qemu_dll_shadps.Base.{ℕ, ◌≤◌, Bool, false, true, Option, List, [], replicate}
use qemu_dll_shadps.Io.Queues.{empty_queue, IsByteQueue, queued}
use qemu_dll_shadps.Io.Audio.{
  Backend, Io, audio_max_queue, format_s16, audio_out, reset_audio, set_audio_volume,
  configure_audio, emit_audio_format, drain_audio, audio_input, read_audio_input,
}

module _ {B : Type 0} (be : Backend B) where
  -- Calls of the guest and of the host, and the backend asking for more.
  pub data Step : Io B → Io B → Type 0 where
    plays : (available : ℕ) (io : Io B) → Step io (audio_out be available io)
    resets : (io : Io B) → Step io (reset_audio be io)
    volumes :
        (muted : Bool) (channels : ℕ) (volume : Option (List ℕ)) (io : Io B)
        → Step io (set_audio_volume be muted channels volume io).1
    configures :
        (rate channels format : ℕ) (io : Io B)
        → Step io (configure_audio be rate channels format io).1
    emits :
        (read : ℕ → ℕ → Option (List ℕ)) (guest_addr size rate channels format : ℕ)
        (local_playback : Bool) (io : Io B)
        → Step io
            (emit_audio_format be read guest_addr size rate channels format local_playback io).io
    drains : (io : Io B) → Step io (drain_audio be io).1
    inputs :
        (samples : List ℕ) (rate channels format : ℕ) (io : Io B)
        → Step io (audio_input samples rate channels format io).1
    reads : (size : ℕ) (io : Io B) → Step io (read_audio_input size io).1

  pub data Reached : Io B → Type 0 where
    initial : (io : Io B) → Reached (reset_audio be io)
    next : {io io' : Io B} → Reached io → Step io io' → Reached io'
