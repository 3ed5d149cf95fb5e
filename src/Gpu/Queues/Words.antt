-- ===== src/Gpu/Queues/Words.antt =====
-- The words of a ring in guest memory, and those that a doorbell reads.
use qemu_dll_shadps.Base.{
  ℕ, ◌+◌, ◌-◌, ◌*◌, ◌%◌, ◌^◌, ◌<◌, ◌≡◌, refl, ap, ◌∙◌, inl, inr, min, ltb, List, some, get_elem?,
  get_elem?_bound, get_elem?-append_cases, ◌++◌, zero, suc, [], ◌∷◌, length, length-append,
  Bool-cases, Option-cases, arith,
}
use native.Mathlib.Nat.{mod-eq_of_lt, mod-eq-sub-mod}
use qemu_dll_shadps.Gpu.Flatten.{guest_read}
use qemu_dll_shadps.Gpu.Guest.{GuestMemory, IsGuest, read_words}
use qemu_dll_shadps.Gpu.Guest.Words.{word_at, read_words-word_at}
use qemu_dll_shadps.Gpu.State.{Queue}
use qemu_dll_shadps.Gpu.Queues.{read_ring}
use qemu_dll_shadps.Gpu.Queues.Rings.{IsRing}

-- The place in the ring of a word.
abbrev pub ring_place : Queue → ℕ → ℕ
ring_place q i = q.ring_addr + (q.read_offset + i) % q.ring_dwords * 4

-- The words of guest memory at the places of the ring from the `i`th after the read offset on.
pub ring_words : (ℕ → ℕ) → Queue → ℕ → ℕ → List ℕ
ring_words byte q zero i = []
ring_words byte q (suc n) i = word_at byte (ring_place q i) ∷ ring_words byte q n (i + 1)

pub ring_words_lem :
    (byte : ℕ → ℕ) (q : Queue) (n i : ℕ) (ws : List ℕ)
    → length ws ≡ n
    → ((j w : ℕ) → get_elem? ws j ≡ some w → w ≡ word_at byte (ring_place q (i + j)))
    → ws ≡ ring_words byte q n i
unfolding ring_words
ring_words_lem byte q zero i [] l h = refl
ring_words_lem byte q zero i (w ∷ ws) l h = absurd (omega arith)
ring_words_lem byte q (suc n) i [] l h = absurd (omega arith)
ring_words_lem byte q (suc n) i (w ∷ ws) l h =
    let here : w ≡ word_at byte (ring_place q i) =
      h 0 w refl ∙ ap (λ k. word_at byte (ring_place q k)) (omega arith) in
    let rest =
      ring_words_lem byte q n (i + 1) ws (omega arith)
        (λ j v p. h (suc j) v p ∙ ap (λ k. word_at byte (ring_place q k)) (omega arith)) in
    cc

module _ {M : Type 0} (guest : GuestMemory M) (peek : M → ℕ → ℕ)
    (is_guest : IsGuest guest peek) where
  pub read_ring_words :
      (m : M) (q : Queue) (n : ℕ) {ws : List ℕ}
      → IsRing q
      → n < q.ring_dwords
      → read_ring guest m q n ≡ some ws
      → (length ws ≡ n)
        × ((i w : ℕ) → get_elem? ws i ≡ some w → w ≡ word_at (peek m) (ring_place q i))
  unfolding read_ring
  read_ring_words m q n {ws} ring h e =
      let tail = min n (q.ring_dwords - q.read_offset) in
      let start : (q.ring_addr + q.read_offset * 4 % 2 ^ 32) % 2 ^ 64
          ≡ q.ring_addr + q.read_offset * 4 =
        omega (arith, ring.inside, ring.size, ring.ends) in
      let size : n ≡ tail + (n - tail) = omega arith in
      elim (Option-cases (
        guest_read (read_words guest m) ((q.ring_addr + q.read_offset * 4 % 2 ^ 32) % 2 ^ 64)
          (tail * 4))) [
            | inl out ↦ absurd (ground arith)
            | inr (first, f) ↦
                let (l, words) =
                  read_words-word_at guest peek is_guest m (q.ring_addr + q.read_offset * 4) tail
                    (rw start at f) in
                let placed : (i w : ℕ)
                    → get_elem? first i ≡ some w
                    → w ≡ word_at (peek m) (ring_place q i) =
                  λ i w p.
                    let b = get_elem?_bound first i p in
                    words i w p
                    ∙ ap (word_at (peek m)) (
                        let r =
                          mod-eq_of_lt {n = q.read_offset + i} {m = q.ring_dwords}
                            (omega (arith, ring.inside)) in
                        omega arith) in
                elim (Bool-cases (ltb tail n)) [
                  | inr whole ↦
                      let same : first ≡ ws = ground arith in
                      let full : tail ≡ n = ground arith in rw (← same) (l ∙ full, placed)
                  | inl around ↦
                      elim (Option-cases
                        (guest_read (read_words guest m) q.ring_addr ((n - tail) * 4))) [
                          | inl out ↦ absurd (ground arith)
                          | inr (second, g) ↦
                              let (l', words') =
                                read_words-word_at guest peek is_guest m q.ring_addr (n - tail) g in
                              let same : first ++ second ≡ ws = ground arith in
                              rw (← same) (
                                length-append first second ∙ omega arith,
                                λ i w p. elim (get_elem?-append_cases first second i p) [
                                  | inl a ↦ placed i w a
                                  | inr (past, b) ↦
                                      let c = get_elem?_bound second (i - length first) b in
                                      words' (i - length first) w b
                                      ∙ ap (word_at (peek m)) (
                                          let r =
                                            mod-eq-sub-mod {n = q.read_offset + i}
                                              {m = q.ring_dwords} (ground (arith, ring.inside)) in
                                          let r' =
                                            mod-eq_of_lt {n = q.read_offset + i - q.ring_dwords}
                                              {m = q.ring_dwords} (ground (arith, ring.inside)) in
                                          ground (arith, ring.inside))
                                ],
                              )
                        ]
                ]
          ]
