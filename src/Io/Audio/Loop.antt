-- ===== src/Io/Audio/Loop.antt =====
-- What the loop of shadps4_io_audio_out leaves queued, whatever the backend answers.
use qemu_dll_shadps.Base.{
  ℕ, zero, suc, ◌+◌, ◌-◌, ◌≤◌, inl, inr, min, ◌||◌, List, ltb, leb, ◌==◌, length, take, Bool-cases,
  arith,
}
use qemu_dll_shadps.Io.Queues.{
  ByteQueue, IsByteQueue, queued, consume, append_bytes, restart, pending, compact-IsByteQueue,
  consume-IsByteQueue, append_bytes-IsByteQueue, restart-IsByteQueue, queued-compact,
  queued-consume, queued-append_bytes, queued-restart,
}
use qemu_dll_shadps.Io.Audio.{Backend, Io, audio_loop, audio_out, play}

-- A queue from which no more than what it held is left.
pub record IsRest (n : ℕ) (q : ByteQueue) : Type 0 where
  pub valid : IsByteQueue q
  pub shorter : queued q ≤ n

module _ {B : Type 0} (be : Backend B) where
  pub audio_loop-IsRest :
      (n available : ℕ) (q : ByteQueue) (b : B)
      → IsByteQueue q
      → IsRest (queued q) (audio_loop be n available q b).0
  unfolding audio_loop
  audio_loop-IsRest zero available q b h = record { valid = h; shorter = omega arith }
  audio_loop-IsRest (suc n) available q b h =
      let chunk = min (queued q) available in
      let out = be.write b (take chunk (pending q)) in
      let here : IsRest (queued q) q = record { valid = h; shorter = omega arith } in
      elim (Bool-cases (available == 0 || leb (length q.bytes) q.offset)) [
        | inl end ↦ rw end here
        | inr more ↦ elim (Bool-cases (out.0 == 0 || ltb chunk out.0)) [
          | inl stop ↦ rw (more, stop) here
          | inr go ↦
              let some' : out.0 ≤ chunk = ground arith in
              let c = queued-consume q out.0 in
              let rest =
                audio_loop-IsRest n (available - out.0) (consume q out.0) out.1
                  (consume-IsByteQueue q out.0 h (omega arith)) in
              rw (more, go) (record { valid = rest.valid; shorter = omega (arith, rest.shorter) })
        ]
      ]

  pub audio_out-IsRest :
      (available : ℕ) (io : Io B)
      → IsByteQueue io.audio_queue
      → IsRest (queued io.audio_queue) (audio_out be available io).audio_queue
  unfolding audio_out
  audio_out-IsRest available io h =
      let q = (audio_loop be (queued io.audio_queue) available io.audio_queue io.backend).0 in
      let rest = audio_loop-IsRest (queued io.audio_queue) available io.audio_queue io.backend h in
      record {
        valid = compact-IsByteQueue q rest.valid;
        shorter = omega (arith, queued-compact q rest.valid, rest.shorter);
      }

  pub play-IsRest :
      (samples : List ℕ) (io : Io B)
      → IsByteQueue io.audio_queue
      → IsRest (queued io.audio_queue + length samples) (play be samples io).audio_queue
  unfolding play
  play-IsRest samples io h =
      let q = restart io.audio_queue in
      let h' = restart-IsByteQueue io.audio_queue h in
      let rest =
        audio_out-IsRest (be.buffer_size io.backend)
          (record io { audio_queue = append_bytes q samples })
          (append_bytes-IsByteQueue q samples h') in
      record {
        valid = rest.valid;
        shorter =
            omega (
              arith,
              rest.shorter,
              queued-append_bytes q samples h',
              queued-restart io.audio_queue,
            );
      }
