-- ===== src/Loader/Tests/Memories.antt =====
-- A guest memory for the tests: a function from addresses to bytes, on which no transfer fails.
use qemu_dll_shadps.Base.{
  ℕ, zero, suc, ◌+◌, ◌-◌, ◌≤◌, ◌<◌, ◌≡◌, refl, ◌⊎◌, inl, inr, true, false, none, some, List, [],
  ◌∷◌, leb, ltb, ◌&&◌, if◌then◌else◌, length, get_elem?, arith,
}
use qemu_dll_shadps.Loader.Memory.{AddressSpace, IsMemory}

abbrev pub Ram : Type 0
Ram = ℕ → ℕ

abbrev store : Ram → ℕ → List ℕ → Ram
store m a bs x = if leb a x then elim (get_elem? bs (x - a)) [ none ↦ m x | some b ↦ b ] else m x

abbrev store_fill : Ram → ℕ → ℕ → ℕ → Ram
store_fill m a v n x = if leb a x && ltb x (a + n) then v else m x

abbrev load : Ram → ℕ → ℕ → List ℕ
load m a zero = []
load m a (suc n) = m a ∷ load m (a + 1) n

abbrev pub ram : AddressSpace Ram
ram = record {
  write = λ m a bs. (true, store m a bs);
  fill = λ m a v n. (true, store_fill m a v n);
  read = λ m a n. some (load m a n);
}

abbrev pub peek : Ram → ℕ → ℕ
peek m x = m x

get_elem?_out : (bs : List ℕ) (i : ℕ) → length bs ≤ i → get_elem? bs i ≡ none
get_elem?_out [] i h = refl
get_elem?_out (b ∷ bs) zero h = absurd (omega arith)
get_elem?_out (b ∷ bs) (suc i) h = get_elem?_out bs i (omega arith)

store_frame :
    (m : Ram) (a : ℕ) (bs : List ℕ) (x : ℕ) → (x < a) ⊎ (a + length bs ≤ x) → store m a bs x ≡ m x
store_frame m a bs x (inl low) = let e : leb a x ≡ false = ground arith in rw e refl
store_frame m a bs x (inr high) =
    let e : leb a x ≡ true = ground arith in rw (e, get_elem?_out bs (x - a) (omega arith)) refl

store_stores :
    (m : Ram) (a : ℕ) (bs : List ℕ) (i b : ℕ) → get_elem? bs i ≡ some b → store m a bs (a + i) ≡ b
store_stores m a bs i b g =
    let e : leb a (a + i) ≡ true = ground arith in
    let at : a + i - a ≡ i = omega arith in rw (e, at, g) refl

pub ram-IsMemory : IsMemory ram peek
ram-IsMemory = record {
  write_frame = store_frame;
  write_stores = λ m a bs i b _ g. store_stores m a bs i b g;
  fill_frame = λ m a v n x h. ground arith;
  fill_stores = λ m a v n i _ h. ground arith;
}
