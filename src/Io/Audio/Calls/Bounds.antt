-- ===== src/Io/Audio/Calls/Bounds.antt =====
-- How much sound can be queued after any sequence of calls.
use qemu_dll_shadps.Base.{
  ℕ, ◌+◌, ◌-◌, ◌*◌, ◌%◌, ◌≤◌, ◌≡◌, inl, inr, Bool, true, false, ◌&&◌, ◌||◌, Option, none, some,
  List, ltb, ◌==◌, if◌then◌else◌, length, min, Bool-cases, Option-cases, not, arith, subst, sym,
}
use qemu_dll_shadps.Io.Queues.{
  ByteQueue, IsByteQueue, empty_queue, queued, consume, append_bytes, compact-IsByteQueue,
  consume-IsByteQueue, append_bytes-IsByteQueue, queued-compact, queued-consume,
  queued-append_bytes,
}
use qemu_dll_shadps.Io.Audio.{
  Backend, Io, audio_max_queue, audio_max_chunk, bad_settings, sample_size, room, close_audio,
  audio_out, reset_audio, set_audio_volume, open_voice, configure_audio, play, emit_samples,
  emit_audio_format, drain_audio, audio_input, read_audio_input,
}
use qemu_dll_shadps.Io.Audio.Loop.{IsRest, audio_out-IsRest, play-IsRest}
use qemu_dll_shadps.Io.Audio.Calls.{Step, Reached}

pub record IsBounded (q : ByteQueue) : Type 0 where
  pub valid : IsByteQueue q
  pub small : queued q ≤ audio_max_queue

pub record IsIo {B : Type 0} (io : Io B) : Type 0 where
  pub output : IsBounded io.audio_queue
  pub input : IsBounded io.audio_input_queue

empty-IsBounded : IsBounded empty_queue
empty-IsBounded = record { valid = record { consumed = omega arith }; small = omega arith }

IsIo-same :
    {B : Type 0} (before after : Io B)
    → after.audio_queue ≡ before.audio_queue
    → after.audio_input_queue ≡ before.audio_input_queue
    → IsIo before
    → IsIo after
IsIo-same before after p q h = record {
  output = subst IsBounded (sym p) h.output;
  input = subst IsBounded (sym q) h.input;
}

IsRest-IsBounded : (n : ℕ) (q : ByteQueue) → n ≤ audio_max_queue → IsRest n q → IsBounded q
IsRest-IsBounded n q h r = record { valid = r.valid; small = omega (arith, r.shorter) }

append_bytes-IsBounded :
    (q : ByteQueue) (fresh : Bool) (samples : List ℕ)
    → IsByteQueue q
    → queued q + length samples ≤ audio_max_queue
    → IsBounded (append_bytes (if fresh then empty_queue else q) samples)
append_bytes-IsBounded q true samples h small =
    let v = empty-IsBounded.valid in
    record {
      valid = append_bytes-IsByteQueue empty_queue samples v;
      small = omega (arith, queued-append_bytes empty_queue samples v);
    }
append_bytes-IsBounded q false samples h small = record {
  valid = append_bytes-IsByteQueue q samples h;
  small = omega (arith, queued-append_bytes q samples h);
}

room-le : (q : ByteQueue) → queued q ≤ audio_max_queue → room q ≡ audio_max_queue - queued q
unfolding room
room-le q h = omega arith

module _ {B : Type 0} (be : Backend B) where
  audio_out-IsIo : (available : ℕ) (io : Io B) → IsIo io → IsIo (audio_out be available io)
  unfolding audio_out
  audio_out-IsIo available io h = record {
    output =
        IsRest-IsBounded (queued io.audio_queue) (audio_out be available io).audio_queue
          h.output.small (audio_out-IsRest be available io h.output.valid);
    input = h.input;
  }

  play-IsIo :
      (samples : List ℕ) (io : Io B)
      → IsIo io
      → queued io.audio_queue + length samples ≤ audio_max_queue
      → IsIo (play be samples io)
  unfolding play audio_out
  play-IsIo samples io h small = record {
    output =
        IsRest-IsBounded (queued io.audio_queue + length samples) (play be samples io).audio_queue
          small (play-IsRest be samples io h.output.valid);
    input = h.input;
  }

  emit_samples-IsIo :
      (rate channels format : ℕ) (local_playback : Bool) (samples : List ℕ) (io : Io B)
      → IsIo io
      → IsIo (emit_samples be rate channels format local_playback samples io).io
  unfolding emit_samples
  emit_samples-IsIo rate channels format local_playback samples io h =
      let left = room-le io.audio_queue h.output.small in
      elim (Bool-cases (local_playback && ltb (room io.audio_queue) (length samples))) [
        | inl full ↦ rw full h
        | inr fits ↦ elim (Bool-cases (local_playback && io.voice)) [
          | inr silent ↦ rw (fits, silent) h
          | inl heard ↦ rw (fits, heard) (play-IsIo samples io h (ground (arith, h.output.small)))
        ]
      ]

  emit_audio_format-IsIo :
      (read : ℕ → ℕ → Option (List ℕ)) (guest_addr size rate channels format : ℕ)
      (local_playback : Bool) (io : Io B)
      → IsIo io
      → IsIo (emit_audio_format be read guest_addr size rate channels format local_playback io).io
  unfolding emit_audio_format
  emit_audio_format-IsIo read guest_addr size rate channels format local_playback io h =
      elim (Bool-cases (
        bad_settings rate channels format
        || (size == 0
            || (ltb audio_max_chunk size || not (size % (sample_size format * channels) == 0))))) [
              | inl bad ↦ rw bad h
              | inr good ↦ elim (Option-cases (read guest_addr size)) [
                | inl out ↦ rw (good, out) h
                | inr (samples, r) ↦
                    rw (good, r)
                      (emit_samples-IsIo rate channels format local_playback samples io h)
              ]
            ]

  set_audio_volume-IsIo :
      (muted : Bool) (channels : ℕ) (volume : Option (List ℕ)) (io : Io B)
      → IsIo io
      → IsIo (set_audio_volume be muted channels volume io).1
  unfolding set_audio_volume
  set_audio_volume-IsIo muted channels none io h = h
  set_audio_volume-IsIo muted channels (some volume) io h =
      IsIo-same io (set_audio_volume be muted channels (some volume) io).1 (ground arith)
        (ground arith) h

  configure_audio-IsIo :
      (rate channels format : ℕ) (io : Io B)
      → IsIo io
      → IsIo (configure_audio be rate channels format io).1
  unfolding configure_audio open_voice close_audio set_audio_volume
  configure_audio-IsIo rate channels format io h =
      IsIo-same io (configure_audio be rate channels format io).1 (ground arith) (ground arith) h

  audio_input-IsIo :
      (samples : List ℕ) (rate channels format : ℕ) (io : Io B)
      → IsIo io
      → IsIo (audio_input samples rate channels format io).1
  unfolding audio_input
  audio_input-IsIo samples rate channels format io h =
      let left = room-le io.audio_input_queue h.input.small in
      elim (Bool-cases (ltb (room io.audio_input_queue) (length samples))) [
        | inl full ↦ rw full h
        | inr fits ↦ rw fits (record {
          output = h.output;
          input =
              append_bytes-IsBounded io.audio_input_queue _ samples h.input.valid
                (ground (arith, h.input.small));
        })
      ]

  read_audio_input-IsIo : (size : ℕ) (io : Io B) → IsIo io → IsIo (read_audio_input size io).1
  unfolding read_audio_input
  read_audio_input-IsIo size io h =
      let q = io.audio_input_queue in
      let n = min size (queued q) in
      let valid = consume-IsByteQueue q n h.input.valid (omega arith) in
      record {
        output = h.output;
        input = record {
          valid = compact-IsByteQueue (consume q n) valid;
          small =
              omega (arith, queued-compact (consume q n) valid, queued-consume q n, h.input.small);
        };
      }

  drain_audio-IsIo : (io : Io B) → IsIo io → IsIo (drain_audio be io).1
  unfolding drain_audio
  drain_audio-IsIo io h = at io.voice
    where
      at : (v : Bool) → IsIo (if v then audio_out be (be.buffer_size io.backend) io else io)
      at true = audio_out-IsIo (be.buffer_size io.backend) io h
      at false = h

  reset_audio-IsIo : (io : Io B) → IsIo (reset_audio be io)
  unfolding reset_audio close_audio
  reset_audio-IsIo io = record { output = empty-IsBounded; input = empty-IsBounded }

  Step-IsIo : {io io' : Io B} → Step be io io' → IsIo io → IsIo io'
  Step-IsIo (Step.plays available io) h = audio_out-IsIo available io h
  Step-IsIo (Step.resets io) h = reset_audio-IsIo io
  Step-IsIo (Step.volumes muted channels volume io) h =
      set_audio_volume-IsIo muted channels volume io h
  Step-IsIo (Step.configures rate channels format io) h =
      configure_audio-IsIo rate channels format io h
  Step-IsIo (Step.emits read guest_addr size rate channels format local_playback io) h =
      emit_audio_format-IsIo read guest_addr size rate channels format local_playback io h
  Step-IsIo (Step.drains io) h = drain_audio-IsIo io h
  Step-IsIo (Step.inputs samples rate channels format io) h =
      audio_input-IsIo samples rate channels format io h
  Step-IsIo (Step.reads size io) h = read_audio_input-IsIo size io h

  -- After any sequence of calls, whatever the backend, the guest and the host do, no more than a
  -- mebibyte of sound is queued in either direction, and no offset lies outside its queue.
  pub Reached-IsIo : {io : Io B} → Reached be io → IsIo io
  Reached-IsIo (Reached.initial io) = reset_audio-IsIo io
  Reached-IsIo (Reached.next r s) = Step-IsIo s (Reached-IsIo r)
