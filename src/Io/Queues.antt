-- ===== src/Io/Queues.antt =====
-- The byte arrays of hw/i386/shadps4-io.c, of which a prefix has been consumed.
use qemu_dll_shadps.Base.{
  ℕ, ◌+◌, ◌-◌, ◌≤◌, ◌≡◌, refl, sym, ap, ◌∙◌, inl, inr, List, [], ◌∷◌, ◌++◌, ◌==◌, if◌then◌else◌,
  length, length-append, length-drop, take, drop, drop-drop, Bool-cases, zero, suc, arith,
}

-- `audio_queue` and `audio_queue_offset`, or the two of the input.
pub record ByteQueue : Type 0 where
  pub bytes : List ℕ
  pub offset : ℕ

abbrev pub empty_queue : ByteQueue
empty_queue = record { bytes = []; offset = 0 }

-- shadps4_io_audio_queued.
abbrev pub queued : ByteQueue → ℕ
queued q = length q.bytes - q.offset

-- A queue that was consumed entirely starts again.
unfoldable pub compact : ByteQueue → ByteQueue
compact q = if q.offset == length q.bytes then empty_queue else q

unfoldable pub consume : ByteQueue → ℕ → ByteQueue
consume q n = record q { offset = q.offset + n }

unfoldable pub append_bytes : ByteQueue → List ℕ → ByteQueue
append_bytes q samples = record q { bytes = q.bytes ++ samples }

-- The abstract queue: what is still to be consumed, first things first.
abbrev pub pending : ByteQueue → List ℕ
pending q = drop q.offset q.bytes

pub record IsByteQueue (q : ByteQueue) : Type 0 where
  pub consumed : q.offset ≤ length q.bytes

pub length-pending : (q : ByteQueue) → length (pending q) ≡ queued q
length-pending q = length-drop q.offset q.bytes

drop_all : (xs : List ℕ) → drop (length xs) xs ≡ []
drop_all [] = refl
drop_all (x ∷ xs) = drop_all xs

drop-append : (n : ℕ) (xs ys : List ℕ) → n ≤ length xs → drop n (xs ++ ys) ≡ drop n xs ++ ys
drop-append zero xs ys h = refl
drop-append (suc n) [] ys h = absurd (omega arith)
drop-append (suc n) (x ∷ xs) ys h = drop-append n xs ys (omega arith)

pub take-append-drop : (n : ℕ) (xs : List ℕ) → take n xs ++ drop n xs ≡ xs
take-append-drop zero xs = refl
take-append-drop (suc n) [] = refl
take-append-drop (suc n) (x ∷ xs) = ap (◌∷◌ x) (take-append-drop n xs)

pub pending-compact : (q : ByteQueue) → pending (compact q) ≡ pending q
unfolding compact
pending-compact q = elim (Bool-cases (q.offset == length q.bytes)) [
  | inl all ↦
      let e : length q.bytes ≡ q.offset = ground arith in
      let none_left : drop q.offset q.bytes ≡ [] = rw (← e) (drop_all q.bytes) in
      rw all (sym none_left)
  | inr some' ↦ rw some' refl
]

pub compact-IsByteQueue : (q : ByteQueue) → IsByteQueue q → IsByteQueue (compact q)
unfolding compact
compact-IsByteQueue q h = elim (Bool-cases (q.offset == length q.bytes)) [
  | inl all ↦ rw all (record { consumed = omega arith })
  | inr some' ↦ rw some' h
]

pub pending-consume : (q : ByteQueue) (n : ℕ) → pending (consume q n) ≡ drop n (pending q)
unfolding consume
pending-consume q n = sym (drop-drop n q.offset q.bytes)

pub consume-IsByteQueue :
    (q : ByteQueue) (n : ℕ) → IsByteQueue q → n ≤ queued q → IsByteQueue (consume q n)
unfolding consume
consume-IsByteQueue q n h k = record { consumed = omega (arith, h.consumed) }

pub pending-append_bytes :
    (q : ByteQueue) (samples : List ℕ)
    → IsByteQueue q
    → pending (append_bytes q samples) ≡ pending q ++ samples
unfolding append_bytes
pending-append_bytes q samples h = drop-append q.offset q.bytes samples h.consumed

pub append_bytes-IsByteQueue :
    (q : ByteQueue) (samples : List ℕ) → IsByteQueue q → IsByteQueue (append_bytes q samples)
unfolding append_bytes
append_bytes-IsByteQueue q samples h = record {
  consumed = omega (arith, h.consumed, length-append q.bytes samples);
}

pub queued-consume : (q : ByteQueue) (n : ℕ) → queued (consume q n) ≡ queued q - n
unfolding consume
queued-consume q n = omega arith

pub queued-compact : (q : ByteQueue) → IsByteQueue q → queued (compact q) ≡ queued q
unfolding compact
queued-compact q h =
    sym (length-pending (compact q)) ∙ ap length (pending-compact q) ∙ length-pending q

pub queued-append_bytes :
    (q : ByteQueue) (samples : List ℕ)
    → IsByteQueue q
    → queued (append_bytes q samples) ≡ queued q + length samples
unfolding append_bytes
queued-append_bytes q samples h = omega (arith, h.consumed, length-append q.bytes samples)

-- A queue of which nothing is left may start again before it grows.
unfoldable pub restart : ByteQueue → ByteQueue
restart q = if queued q == 0 then empty_queue else q

pub no_bytes : (xs : List ℕ) → length xs ≡ 0 → xs ≡ []
no_bytes [] h = refl
no_bytes (x ∷ xs) h = absurd (omega arith)

pub pending-restart : (q : ByteQueue) → pending (restart q) ≡ pending q
unfolding restart
pending-restart q = elim (Bool-cases (queued q == 0)) [
  | inl none_left ↦
      let e = no_bytes (pending q) (length-pending q ∙ ground arith) in rw none_left (sym e)
  | inr some' ↦ rw some' refl
]

pub restart-IsByteQueue : (q : ByteQueue) → IsByteQueue q → IsByteQueue (restart q)
unfolding restart
restart-IsByteQueue q h = elim (Bool-cases (queued q == 0)) [
  | inl none_left ↦ rw none_left (record { consumed = omega arith })
  | inr some' ↦ rw some' h
]

pub queued-restart : (q : ByteQueue) → queued (restart q) ≡ queued q
queued-restart q =
    sym (length-pending (restart q)) ∙ ap length (pending-restart q) ∙ length-pending q
