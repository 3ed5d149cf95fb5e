-- ===== src/Io/Audio/Delivery.antt =====
-- Samples on their way to the voice: none is lost, repeated or put out of order.
use qemu_dll_shadps.Base.{
  ℕ, zero, suc, ◌-◌, ◌≤◌, ◌≡◌, refl, sym, ap, ap₂, ◌∙◌, inl, inr, min, true, ◌||◌, List, [], ◌∷◌,
  ◌++◌, append_assoc, append-nil, ltb, leb, ◌==◌, length, length-take, take, drop, Bool-cases,
  arith,
}
use qemu_dll_shadps.Io.Queues.{
  ByteQueue, IsByteQueue, queued, consume, append_bytes, pending, take-append-drop, pending-compact,
  pending-consume, pending-append_bytes, restart, pending-restart, restart-IsByteQueue,
}
use qemu_dll_shadps.Io.Audio.{Backend, Io, audio_loop, audio_out, play}

-- All that was ever played, in order: heard, or still queued.
abbrev pub stream : {B : Type 0} → (B → List ℕ) → B → ByteQueue → List ℕ
stream heard b q = heard b ++ pending q

-- What is documented of a backend: a write consumes a prefix of what it is given, which is then heard
-- after what was heard before.
pub record IsBackend {B : Type 0} (be : Backend B) (heard : B → List ℕ) : Type 0 where
  pub write_size : (b : B) (bs : List ℕ) → (be.write b bs).0 ≤ length bs
  pub write_heard :
      (b : B) (bs : List ℕ) → heard (be.write b bs).1 ≡ heard b ++ take (be.write b bs).0 bs

take-take : (n m : ℕ) (xs : List ℕ) → n ≤ m → take n (take m xs) ≡ take n xs
take-take zero m xs h = refl
take-take (suc n) zero xs h = absurd (omega arith)
take-take (suc n) (suc m) [] h = refl
take-take (suc n) (suc m) (x ∷ xs) h = ap (◌∷◌ x) (take-take n m xs (omega arith))

module _ {B : Type 0} (be : Backend B) (heard : B → List ℕ) (is_backend : IsBackend be heard) where
  -- One write: what it consumed moves from the queue to what was heard.
  write-stream :
      (b : B) (q : ByteQueue) (chunk : ℕ)
      → (be.write b (take chunk (pending q))).0 ≤ chunk
      → stream heard
          (be.write b (take chunk (pending q))).1
          (consume q (be.write b (take chunk (pending q))).0)
        ≡ stream heard b q
  write-stream b q chunk h =
      let written = (be.write b (take chunk (pending q))).0 in
      ap₂ ◌++◌
        (is_backend.write_heard b (take chunk (pending q))
          ∙ ap (heard b ++◌) (take-take written chunk (pending q) h))
        (pending-consume q written)
      ∙ append_assoc (heard b) (take written (pending q)) (drop written (pending q))
      ∙ ap (heard b ++◌) (take-append-drop written (pending q))

  -- A write that is not taken for progress consumed nothing.
  write-none :
      (b : B) (q : ByteQueue) (chunk : ℕ)
      → ((be.write b (take chunk (pending q))).0 == 0
          || ltb chunk (be.write b (take chunk (pending q))).0)
        ≡ true
      → stream heard (be.write b (take chunk (pending q))).1 q ≡ stream heard b q
  write-none b q chunk h =
      let bs = take chunk (pending q) in
      let l = length-take chunk (pending q) in
      let s = is_backend.write_size b bs in
      let none_taken : (be.write b bs).0 ≡ 0 = ground arith in
      ap (◌++ pending q) (
        is_backend.write_heard b bs
        ∙ ap (λ n. heard b ++ take n bs) none_taken
        ∙ append-nil (heard b))

  audio_loop-stream :
      (n available : ℕ) (q : ByteQueue) (b : B)
      → stream heard (audio_loop be n available q b).1 (audio_loop be n available q b).0
        ≡ stream heard b q
  unfolding audio_loop
  audio_loop-stream zero available q b = refl
  audio_loop-stream (suc n) available q b =
      let chunk = min (queued q) available in
      let out = be.write b (take chunk (pending q)) in
      elim (Bool-cases (available == 0 || leb (length q.bytes) q.offset)) [
        | inl end ↦ rw end refl
        | inr more ↦ elim (Bool-cases (out.0 == 0 || ltb chunk out.0)) [
          | inl stop ↦ rw (more, stop) (write-none b q chunk stop)
          | inr go ↦
              rw (more, go)
                (audio_loop-stream n (available - out.0) (consume q out.0) out.1
                  ∙ write-stream b q chunk (ground arith))
        ]
      ]

  audio_out-stream :
      (available : ℕ) (io : Io B)
      → stream heard (audio_out be available io).backend (audio_out be available io).audio_queue
        ≡ stream heard io.backend io.audio_queue
  unfolding audio_out
  audio_out-stream available io =
      let out = audio_loop be (queued io.audio_queue) available io.audio_queue io.backend in
      ap (heard out.1 ++◌) (pending-compact out.0)
      ∙ audio_loop-stream (queued io.audio_queue) available io.audio_queue io.backend

  -- Samples that are played follow those that were played before.
  pub play-stream :
      (samples : List ℕ) (io : Io B)
      → IsByteQueue io.audio_queue
      → stream heard (play be samples io).backend (play be samples io).audio_queue
        ≡ stream heard io.backend io.audio_queue ++ samples
  unfolding play
  play-stream samples io h =
      let q = restart io.audio_queue in
      let h' = restart-IsByteQueue io.audio_queue h in
      audio_out-stream (be.buffer_size io.backend)
        (record io { audio_queue = append_bytes q samples })
      ∙ ap (heard io.backend ++◌)
          (pending-append_bytes q samples h' ∙ ap (◌++ samples) (pending-restart io.audio_queue))
      ∙ sym (append_assoc (heard io.backend) (pending io.audio_queue) samples)
