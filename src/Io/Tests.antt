-- ===== src/Io/Tests.antt =====
-- A backend that takes three bytes at a time and keeps what it has heard.
use qemu_dll_shadps.Base.{
  ℕ, ◌≡◌, true, false, Option, some, List, [], ◌∷◌, ◌++◌, length, take, min, replicate, arith,
}
use qemu_dll_shadps.Io.Audio.{
  Backend, Io, format_s16, format_u8, reset_audio, configure_audio, emit_audio_format, audio_input,
  read_audio_input,
}
use qemu_dll_shadps.Io.Audio.Input.{
  input_of, observe, put, get, read_audio_input-get, audio_input-put,
}
use qemu_dll_shadps.Io.Audio.Calls.{Step, Reached}
use qemu_dll_shadps.Io.Audio.Calls.Bounds.{IsIo, Reached-IsIo}

abbrev speaker : Backend (List ℕ)
speaker = record {
  write = λ b bs. (min 3 (length bs), b ++ take (min 3 (length bs)) bs);
  buffer_size = λ b. 4096;
  open_out = λ b rate channels format. (true, b);
  close_out = λ b. b;
  set_volume = λ b muted volume. b;
}

abbrev heard : List ℕ → List ℕ
heard b = b

-- Four bytes are queued; two more wait on the way in.
abbrev io : Io (List ℕ)
io = record {
  backend = 9 ∷ [];
  has_backend = true;
  voice = true;
  audio_queue = record { bytes = 0 ∷ 1 ∷ 2 ∷ 3 ∷ 4 ∷ []; offset = 1 };
  audio_input_queue = record { bytes = 5 ∷ 6 ∷ 7 ∷ []; offset = 1 };
  audio_rate = 48000;
  audio_channels = 2;
  audio_format = format_s16;
  audio_volume = replicate 8 255;
  audio_muted = false;
  audio_input_rate = 48000;
  audio_input_channels = 2;
  audio_input_format = format_s16;
}

abbrev guest : ℕ → ℕ → Option (List ℕ)
guest addr size = some (10 ∷ 11 ∷ 12 ∷ 13 ∷ [])

read_audio_input-get_example : observe (read_audio_input 1 io) ≡ get 1 (input_of io)
read_audio_input-get_example = read_audio_input-get 1 io

audio_input-put_example :
    observe (audio_input (8 ∷ 9 ∷ []) 44100 2 format_s16 io)
    ≡ put (8 ∷ 9 ∷ []) 44100 2 format_s16 (input_of io)
audio_input-put_example =
    audio_input-put (8 ∷ 9 ∷ []) 44100 2 format_s16 io (record { consumed = omega arith })
      (omega arith)

abbrev configured : Io (List ℕ)
configured = (configure_audio speaker 44100 1 format_u8 (reset_audio speaker io)).1

Reached-IsIo_example :
    IsIo (emit_audio_format speaker guest 0x1000 4 44100 1 format_u8 true configured).io
Reached-IsIo_example = Reached-IsIo speaker (
    Reached.next
      (Reached.next (Reached.initial io)
        (Step.configures 44100 1 format_u8 (reset_audio speaker io)))
      (Step.emits guest 0x1000 4 44100 1 format_u8 true configured))
