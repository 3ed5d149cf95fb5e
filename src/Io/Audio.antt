-- ===== src/Io/Audio.antt =====
-- The sound of hw/i386/shadps4-io.c: samples from the guest to the voice of an audio backend, and
-- samples from the host to the guest. `Backend` stands for QEMU's audio backends.
pub mod Loop
pub mod Delivery
pub mod Input
pub mod Calls
use qemu_dll_shadps.Base.{
  ℕ, zero, suc, ◌+◌, ◌-◌, ◌*◌, ◌%◌, ◌^◌, min, Bool, true, false, not, ◌&&◌, ◌||◌, Option, none,
  some, List, [], ◌++◌, ltb, leb, ◌==◌, if◌then◌else◌, length, take, drop, replicate,
}
use qemu_dll_shadps.Io.Queues.{
  ByteQueue, empty_queue, queued, compact, consume, append_bytes, restart, pending,
}

-- A backend: it takes a prefix of what it is given and says how long it was, and has room for so
-- many bytes. It opens a voice or fails.
pub record Backend (B : Type 0) : Type 0 where
  pub write : B → List ℕ → ℕ × B
  pub buffer_size : B → ℕ
  pub open_out : B → ℕ → ℕ → ℕ → Bool × B
  pub close_out : B → B
  pub set_volume : B → Bool → List ℕ → B

pub record Io (B : Type 0) : Type 0 where
  pub backend : B
  pub has_backend : Bool
  pub voice : Bool
  pub audio_queue : ByteQueue
  pub audio_input_queue : ByteQueue
  pub audio_rate : ℕ
  pub audio_channels : ℕ
  pub audio_format : ℕ
  pub audio_volume : List ℕ
  pub audio_muted : Bool
  pub audio_input_rate : ℕ
  pub audio_input_channels : ℕ
  pub audio_input_format : ℕ

abbrev pub audio_max_chunk : ℕ
audio_max_chunk = 256 * 2 ^ 10

abbrev pub audio_max_queue : ℕ
audio_max_queue = 2 ^ 20

-- QemuHostAudioFormat.
abbrev pub format_u8 : ℕ
format_u8 = 0

abbrev pub format_s16 : ℕ
format_s16 = 1

abbrev pub format_s32 : ℕ
format_s32 = 2

abbrev pub format_f32 : ℕ
format_f32 = 3

-- What qemu_host_emit_audio_frame is given.
pub record Emission : Type 0 where
  pub samples : List ℕ
  pub rate : ℕ
  pub channels : ℕ
  pub format : ℕ

pub record Played (B : Type 0) : Type 0 where
  pub accepted : Bool
  pub io : Io B
  pub emitted : Option Emission

-- `rate` and `channels` of a voice.
abbrev pub bad_settings : ℕ → ℕ → ℕ → Bool
bad_settings rate channels format =
    ltb rate 8000
    || (ltb 192000 rate || (ltb channels 1 || (ltb 8 channels || ltb format_f32 format)))

abbrev pub sample_size : ℕ → ℕ
sample_size format = if format == format_u8 then 1 else if format == format_s16 then 2 else 4

-- `SHADPS4_AUDIO_MAX_QUEUE - queued`, a size_t.
unfoldable pub room : ByteQueue → ℕ
room q = (audio_max_queue + 2 ^ 64 - queued q) % 2 ^ 64

module _ {B : Type 0} (be : Backend B) where
  -- The loop of shadps4_io_audio_out, with `n` rounds left.
  unfoldable pub audio_loop : ℕ → ℕ → ByteQueue → B → ByteQueue × B
  audio_loop zero available q b = (q, b)
  audio_loop (suc n) available q b =
      if available == 0 || leb (length q.bytes) q.offset
      then (q, b)
      else (let chunk = min (queued q) available in
          let (written, b') = be.write b (take chunk (pending q)) in
          if written == 0 || ltb chunk written
          then (q, b')
          else audio_loop n (available - written) (consume q written) b')

  -- Each round consumes a byte at least, so there are no more rounds than bytes.
  unfoldable pub audio_out : ℕ → Io B → Io B
  audio_out available io =
      let (q, b) = audio_loop (queued io.audio_queue) available io.audio_queue io.backend in
      record io { audio_queue = compact q; backend = b }

  unfoldable pub close_audio : Io B → Io B
  close_audio io =
      if io.voice then record io { backend = be.close_out io.backend; voice = false } else io

  -- The two byte arrays exist from realize on.
  unfoldable pub reset_audio : Io B → Io B
  reset_audio io = record (close_audio io) {
    audio_queue = empty_queue;
    audio_input_queue = empty_queue;
    audio_rate = 48000;
    audio_channels = 2;
    audio_format = format_s16;
    audio_volume = replicate 8 0xff;
    audio_muted = false;
    audio_input_rate = 48000;
    audio_input_channels = 2;
    audio_input_format = format_s16;
  }

  unfoldable pub set_audio_volume : Bool → ℕ → Option (List ℕ) → Io B → Bool × Io B
  set_audio_volume muted channels none io = (false, io)
  set_audio_volume muted channels (some volume) io =
      if ltb channels 1 || ltb 8 channels then (false, io) else (
        true,
        record io {
          audio_volume = take channels volume ++ drop channels io.audio_volume;
          audio_muted = muted;
          backend =
              if io.voice
              then be.set_volume io.backend muted (take channels volume)
              else io.backend;
        },
      )

  -- The voice of shadps4_io_configure_audio, once the settings are stored.
  unfoldable pub open_voice : ℕ → ℕ → ℕ → Io B → Bool × Io B
  open_voice rate channels format io =
      let (opened, b) = be.open_out io.backend rate channels format in
      if opened
      then (
        true,
        (set_audio_volume io.audio_muted channels (some io.audio_volume)
            (record io { backend = b; voice = true })).1,
      )
      else (false, record io { backend = b })

  unfoldable pub configure_audio : ℕ → ℕ → ℕ → Io B → Bool × Io B
  configure_audio rate channels format io =
      if bad_settings rate channels format
      then (false, io)
      else (let io' = record (close_audio io) {
        audio_rate = rate;
        audio_channels = channels;
        audio_format = format;
      } in
          if io'.has_backend then open_voice rate channels format io' else (true, io'))

  -- The end of shadps4_io_emit_audio_format: the samples for the voice.
  unfoldable pub play : List ℕ → Io B → Io B
  play samples io =
      audio_out (be.buffer_size io.backend)
        (record io { audio_queue = append_bytes (restart io.audio_queue) samples })

  unfoldable pub emit_samples : ℕ → ℕ → ℕ → Bool → List ℕ → Io B → Played B
  emit_samples rate channels format local_playback samples io =
      if local_playback && ltb (room io.audio_queue) (length samples)
      then record { accepted = false; io = io; emitted = none }
      else record {
        accepted = true;
        io = if local_playback && io.voice then play samples io else io;
        emitted =
            some (record { samples = samples; rate = rate; channels = channels; format = format });
      }

  -- `read` stands for cpu_memory_rw_debug.
  unfoldable pub emit_audio_format :
      (ℕ → ℕ → Option (List ℕ)) → ℕ → ℕ → ℕ → ℕ → ℕ → Bool → Io B → Played B
  emit_audio_format read guest_addr size rate channels format local_playback io =
      if bad_settings rate channels format
        || (size == 0
            || (ltb audio_max_chunk size || not (size % (sample_size format * channels) == 0)))
      then record { accepted = false; io = io; emitted = none }
      else elim (read guest_addr size) [
        | none ↦ record { accepted = false; io = io; emitted = none }
        | some samples ↦ emit_samples rate channels format local_playback samples io
      ]

  unfoldable pub emit_audio : (ℕ → ℕ → Option (List ℕ)) → ℕ → ℕ → Io B → Played B
  emit_audio read guest_addr size io =
      emit_audio_format read guest_addr size io.audio_rate io.audio_channels io.audio_format true io

  unfoldable pub drain_audio : Io B → Bool × Io B
  drain_audio io =
      let io' = if io.voice then audio_out (be.buffer_size io.backend) io else io in
      (queued io'.audio_queue == 0, io')

-- `-ENOSPC` is `false`. Samples of another format replace those that were not read.
unfoldable pub audio_input : {B : Type 0} → List ℕ → ℕ → ℕ → ℕ → Io B → Bool × Io B
audio_input samples rate channels format io =
    let n = queued io.audio_input_queue in
    let other =
      not (rate == io.audio_input_rate)
      || (not (channels == io.audio_input_channels) || not (format == io.audio_input_format)) in
    if ltb (room io.audio_input_queue) (length samples) then (false, io) else (
      true,
      record io {
        audio_input_rate = rate;
        audio_input_channels = channels;
        audio_input_format = format;
        audio_input_queue =
            append_bytes (if n == 0 || other then empty_queue else io.audio_input_queue) samples;
      },
    )

unfoldable pub read_audio_input : {B : Type 0} → ℕ → Io B → List ℕ × Io B
read_audio_input size io =
    let copied = min size (queued io.audio_input_queue) in
    (
      take copied (pending io.audio_input_queue),
      record io { audio_input_queue = compact (consume io.audio_input_queue copied) },
    )
