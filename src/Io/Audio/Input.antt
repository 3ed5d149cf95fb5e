-- ===== src/Io/Audio/Input.antt =====
-- Samples from the host: the array with its offset is a first-in, first-out queue.
use qemu_dll_shadps.Base.{
  ℕ, zero, suc, ◌+◌, ◌-◌, ◌%◌, ◌^◌, ◌≤◌, ◌≡◌, refl, sym, ap, ap₂, ◌∙◌, inl, inr, min, Bool, true,
  false, not, ◌||◌, List, [], ◌∷◌, ◌++◌, ltb, ◌==◌, if◌then◌else◌, length, take, drop, Bool-cases,
  arith,
}
use qemu_dll_shadps.Io.Queues.{
  ByteQueue, IsByteQueue, empty_queue, queued, compact, consume, append_bytes, pending,
  length-pending, no_bytes, pending-compact, pending-consume, pending-append_bytes,
}
use qemu_dll_shadps.Io.Audio.{Io, audio_max_queue, room, audio_input, read_audio_input}

-- What the guest can know of the samples: those it has not read, and their format.
pub record Input : Type 0 where
  pub waiting : List ℕ
  pub rate : ℕ
  pub channels : ℕ
  pub format : ℕ

abbrev pub input_of : {B : Type 0} → Io B → Input
input_of io = record {
  waiting = pending io.audio_input_queue;
  rate = io.audio_input_rate;
  channels = io.audio_input_channels;
  format = io.audio_input_format;
}

abbrev pub other_format : ℕ → ℕ → ℕ → Input → Bool
other_format rate channels format s =
    not (rate == s.rate) || (not (channels == s.channels) || not (format == s.format))

-- The promise of the two calls: at most a mebibyte waits, in order, all in one format.
unfoldable pub put : List ℕ → ℕ → ℕ → ℕ → Input → Bool × Input
put samples rate channels format s =
    if ltb (audio_max_queue - length s.waiting) (length samples) then (false, s) else (
      true,
      record {
        waiting = if other_format rate channels format s then samples else s.waiting ++ samples;
        rate = rate;
        channels = channels;
        format = format;
      },
    )

unfoldable pub get : ℕ → Input → List ℕ × Input
get size s = (take size s.waiting, record s { waiting = drop size s.waiting })

abbrev pub observe : {A B : Type 0} → A × Io B → A × Input
observe (a, io) = (a, input_of io)

take-min : (n : ℕ) (xs : List ℕ) → take (min n (length xs)) xs ≡ take n xs
take-min zero xs = let e : min 0 (length xs) ≡ 0 = omega arith in ap (λ k. take k xs) e
take-min (suc n) [] = let e : min (suc n) 0 ≡ 0 = omega arith in ap (λ k. take {A = ℕ} k []) e
take-min (suc n) (x ∷ xs) =
    let e : min (suc n) (suc (length xs)) ≡ suc (min n (length xs)) = omega arith in
    ap (λ k. take k (x ∷ xs)) e ∙ ap (◌∷◌ x) (take-min n xs)

drop-min : (n : ℕ) (xs : List ℕ) → drop (min n (length xs)) xs ≡ drop n xs
drop-min zero xs = let e : min 0 (length xs) ≡ 0 = omega arith in ap (λ k. drop k xs) e
drop-min (suc n) [] = let e : min (suc n) 0 ≡ 0 = omega arith in ap (λ k. drop {A = ℕ} k []) e
drop-min (suc n) (x ∷ xs) =
    let e : min (suc n) (suc (length xs)) ≡ suc (min n (length xs)) = omega arith in
    ap (λ k. drop k (x ∷ xs)) e ∙ drop-min n xs

-- Reading the samples of the host is taking the first ones that wait.
pub read_audio_input-get :
    {B : Type 0} (size : ℕ) (io : Io B)
    → observe (read_audio_input size io) ≡ get size (input_of io)
unfolding read_audio_input get
read_audio_input-get size io =
    let q = io.audio_input_queue in
    let n = min size (queued q) in
    let m : n ≡ min size (length (pending q)) = ap (min size) (sym (length-pending q)) in
    let first : take n (pending q) ≡ take size (pending q) =
      ap (λ k. take k (pending q)) m ∙ take-min size (pending q) in
    let rest : pending (compact (consume q n)) ≡ drop size (pending q) =
      pending-compact (consume q n)
      ∙ pending-consume q n
      ∙ ap (λ k. drop k (pending q)) m
      ∙ drop-min size (pending q) in
    ap₂ (λ a w. (a, record (input_of io) { waiting = w })) first rest

-- The samples that wait once others are added, where those of another format are dropped.
pending-input :
    (q : ByteQueue) (other : Bool) (samples : List ℕ)
    → IsByteQueue q
    → pending (append_bytes (if queued q == 0 || other then empty_queue else q) samples)
      ≡ (if other then samples else pending q ++ samples)
pending-input q true samples h = elim (Bool-cases (queued q == 0)) [
  | inl none_left ↦ rw none_left fresh
  | inr some' ↦ rw some' fresh
]
  where
    fresh : pending (append_bytes empty_queue samples) ≡ samples
    fresh = pending-append_bytes empty_queue samples (record { consumed = omega arith })
pending-input q false samples h = elim (Bool-cases (queued q == 0)) [
  | inl none_left ↦
      let e = no_bytes (pending q) (length-pending q ∙ ground arith) in
      rw none_left (
        pending-append_bytes empty_queue samples (record { consumed = omega arith })
        ∙ ap (◌++ samples) (sym e))
  | inr some' ↦ rw some' (pending-append_bytes q samples h)
]

-- Samples that the host delivers wait behind the others, or replace them where their format is another.
pub audio_input-put :
    {B : Type 0} (samples : List ℕ) (rate channels format : ℕ) (io : Io B)
    → IsByteQueue io.audio_input_queue
    → queued io.audio_input_queue ≤ audio_max_queue
    → observe (audio_input samples rate channels format io)
      ≡ put samples rate channels format (input_of io)
unfolding audio_input put room
audio_input-put samples rate channels format io h small =
    let q = io.audio_input_queue in
    let left : (audio_max_queue + 2 ^ 64 - queued q) % 2 ^ 64
        ≡ audio_max_queue - length (pending q) =
      omega (arith, length-pending q) in
    let e = pending-input q (other_format rate channels format (input_of io)) samples h in
    rw left (elim (Bool-cases (ltb (audio_max_queue - length (pending q)) (length samples))) [
      | inl full ↦ rw full refl
      | inr fits ↦ rw (fits, e) refl
    ])
