-- ===== src/Loader/Link/Counters.antt =====
-- Linking keeps the relocation counters of every image true, and never leaves an array.
use qemu_dll_shadps.Base.{
  ℕ, zero, suc, ◌+◌, ◌^◌, ◌≤◌, ◌<◌, ◌≡◌, refl, ap, ◌∙◌, true, false, some, List, [], ◌∷◌,
  if◌then◌else◌, length, length-set, get_elem?, All, set, arith,
}
use qemu_dll_shadps.Loader.Types.{ImageInfo, PendingRelocation}
use qemu_dll_shadps.Loader.Link.{mark_applied}

-- How many of the first `n` pending relocations are not applied.
abbrev pub unapplied : ℕ → List PendingRelocation → ℕ
unapplied zero relocations = 0
unapplied (suc n) [] = 0
unapplied (suc n) (r ∷ rs) = (if r.applied then 0 else 1) + unapplied n rs

-- Where no relocation is applied, all of them count.
pub unapplied_fresh :
    (n : ℕ) (rs : List PendingRelocation)
    → n ≤ length rs
    → All (λ (r : PendingRelocation). r.applied ≡ false) rs
    → unapplied n rs ≡ n
unapplied_fresh zero rs h a = refl
unapplied_fresh (suc n) [] h a = absurd (omega arith)
unapplied_fresh (suc n) (r ∷ rs) h a =
    rw a.0 (omega (arith, unapplied_fresh n rs (omega arith) a.1))

unapplied-set :
    (n : ℕ) (rs : List PendingRelocation) (i : ℕ) {r : PendingRelocation}
    → i < n
    → get_elem? rs i ≡ some r
    → r.applied ≡ false
    → unapplied n (set rs i (record r { applied = true })) + 1 ≡ unapplied n rs
unapplied-set zero rs i h g f = absurd (omega arith)
unapplied-set (suc n) [] i h g f = cc
unapplied-set (suc n) (x ∷ rs) zero {r} h g f =
    let e : x.applied ≡ false = ground arith in rw e (omega arith)
unapplied-set (suc n) (x ∷ rs) (suc i) h g f = omega (arith, unapplied-set n rs i (omega arith) g f)

-- An image that the linker may work on: its arrays are as long as their counts say, the unresolved
-- count is the number of listed relocations that are not applied, and no counter can wrap.
pub record Linkable (image : ImageInfo) : Type 0 where
  pub symbols : length image.symbols ≡ image.symbol_count
  pub pending : image.pending_relocation_count ≤ length image.pending_relocations
  pub balance :
      image.relocation_count ≡ image.applied_relocation_count + image.unresolved_relocation_count
  pub small : image.relocation_count < 2 ^ 32
  pub listed :
      image.unresolved_relocation_count
      ≡ unapplied image.pending_relocation_count image.pending_relocations

pub mark_applied-Linkable :
    (image : ImageInfo) (r : ℕ) (relocation : PendingRelocation)
    → Linkable image
    → r < image.pending_relocation_count
    → get_elem? image.pending_relocations r ≡ some relocation
    → relocation.applied ≡ false
    → Linkable (mark_applied image r relocation)
mark_applied-Linkable image r relocation k h g f =
    let fewer = unapplied-set image.pending_relocation_count image.pending_relocations r h g f in
    record {
      symbols = k.symbols;
      pending = omega (
        arith,
        length-set image.pending_relocations r (record relocation { applied = true }),
        k.pending,
      );
      balance = omega (arith, fewer, k.balance, k.small, k.listed);
      small = k.small;
      listed = omega (arith, fewer, k.balance, k.small, k.listed);
    }

-- What the linker leaves alone in an image.
pub record SameImage (a b : ImageInfo) : Type 0 where
  pub relocations : b.relocation_count ≡ a.relocation_count
  pub pending : b.pending_relocation_count ≡ a.pending_relocation_count
  pub symbols : b.symbols ≡ a.symbols
  pub base : b.virtual_base ≡ a.virtual_base

-- Image by image the same, and as many.
abbrev pub SameImages : List ImageInfo → List ImageInfo → Type 0
SameImages [] [] = Unit {0}
SameImages [] (b ∷ bs) = ⊥
SameImages (a ∷ as') [] = ⊥
SameImages (a ∷ as') (b ∷ bs) = SameImage a b × SameImages as' bs

pub SameImage-refl : (a : ImageInfo) → SameImage a a
SameImage-refl a = record { relocations = refl; pending = refl; symbols = refl; base = refl }

pub SameImages-refl : (as' : List ImageInfo) → SameImages as' as'
SameImages-refl [] = tt
SameImages-refl (a ∷ as') = (SameImage-refl a, SameImages-refl as')

pub SameImages-trans :
    (as' bs cs : List ImageInfo) → SameImages as' bs → SameImages bs cs → SameImages as' cs
SameImages-trans [] [] [] p q = tt
SameImages-trans [] [] (c ∷ cs) p q = q
SameImages-trans [] (b ∷ bs) cs p q = absurd p
SameImages-trans (a ∷ as') [] cs p q = absurd p
SameImages-trans (a ∷ as') (b ∷ bs) [] p q = absurd q
SameImages-trans (a ∷ as') (b ∷ bs) (c ∷ cs) p q = (
  record {
    relocations = q.0.relocations ∙ p.0.relocations;
    pending = q.0.pending ∙ p.0.pending;
    symbols = q.0.symbols ∙ p.0.symbols;
    base = q.0.base ∙ p.0.base;
  },
  SameImages-trans as' bs cs p.1 q.1,
)

pub SameImages-set :
    (as' : List ImageInfo) (i : ℕ) (a b : ImageInfo)
    → get_elem? as' i ≡ some a
    → SameImage a b
    → SameImages as' (set as' i b)
SameImages-set [] i a b g s = tt
SameImages-set (x ∷ as') zero a b g s = let e : a ≡ x = cc in (rw (← e) s, SameImages-refl as')
SameImages-set (x ∷ as') (suc i) a b g s = (SameImage-refl x, SameImages-set as' i a b g s)

pub length-SameImages : (as' bs : List ImageInfo) → SameImages as' bs → length bs ≡ length as'
length-SameImages [] [] p = refl
length-SameImages [] (b ∷ bs) p = absurd p
length-SameImages (a ∷ as') [] p = absurd p
length-SameImages (a ∷ as') (b ∷ bs) p = ap suc (length-SameImages as' bs p.1)

pub SameImages-pending :
    (as' bs : List ImageInfo) (i : ℕ) {a b : ImageInfo}
    → SameImages as' bs
    → get_elem? as' i ≡ some a
    → get_elem? bs i ≡ some b
    → b.pending_relocation_count ≡ a.pending_relocation_count
SameImages-pending [] bs i p g h = cc
SameImages-pending (x ∷ as') [] i p g h = cc
SameImages-pending (x ∷ as') (y ∷ bs) zero p g h = ground (arith, p.0.pending)
SameImages-pending (x ∷ as') (y ∷ bs) (suc i) p g h = SameImages-pending as' bs i p.1 g h
