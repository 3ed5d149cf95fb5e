-- ===== src/Loader/Link/Runs.antt =====
-- Every run of shadps4_link_modules, successful or not, keeps the images linkable.
use qemu_dll_shadps.Base.{
  ℕ, zero, suc, ◌+◌, ◌≤◌, ◌<◌, ◌≡◌, refl, ap, ◌≢◌, inl, inr, false, Option, none, some, List,
  length, get_elem?, get_elem?_in, get_elem?_bound, All, All-set, All-get_elem?, set, le_bytes, leb,
  Bool-cases, Result, ok, err, Outcome, done, fail, and_then, arith,
}
use qemu_dll_shadps.Loader.Types.{Error, ImageInfo, PendingRelocation}
use qemu_dll_shadps.Loader.Memory.{AddressSpace}
use qemu_dll_shadps.Loader.Link.{
  LinkState, resolve, with_addend, mark_applied, commit, link_relocation, link_at, relocation_loop,
  image_loop, link_modules,
}
use qemu_dll_shadps.Loader.Link.Safety.{resolve-ne-fault}
use qemu_dll_shadps.Loader.Link.Counters.{
  Linkable, mark_applied-Linkable, SameImages, SameImages-refl, SameImages-trans, SameImages-set,
  length-SameImages, SameImages-pending,
}

-- Both the images reached and their correspondence to those at the start.
abbrev pub Reached : List ImageInfo → List ImageInfo → Type 0
Reached before after = All Linkable after × SameImages before after

-- What linking may come to: no access outside an array, and in every case linkable images.
abbrev pub Links : {M : Type 0} → List ImageInfo → Outcome Error (LinkState M) (Unit {0}) → Type 0
Links before (done _ t) = Reached before t.images
Links before (fail e t) = (e ≢ Error.fault) × Reached before t.images

Links-then :
    {M : Type 0} (before : List ImageInfo) (step : Outcome Error (LinkState M) (Unit {0}))
    (rest : LinkState M → Outcome Error (LinkState M) (Unit {0}))
    → Links before step
    → ((t : LinkState M) → Reached before t.images → Links before (rest t))
    → Links before (and_then step (λ _ t. rest t))
Links-then before (fail e t) rest l k = l
Links-then before (done _ t) rest l k = k t l

module _ {M : Type 0} (as' : AddressSpace M) where
  commit-Links :
      (i r : ℕ) (before : List ImageInfo) (image : ImageInfo) (relocation : PendingRelocation)
      (value : ℕ) (s : LinkState M)
      → Reached before s.images
      → get_elem? s.images i ≡ some image
      → get_elem? image.pending_relocations r ≡ some relocation
      → r < image.pending_relocation_count
      → relocation.applied ≡ false
      → Links before (commit as' i r image relocation value s)
  unfolding commit
  commit-Links i r before image relocation value s k g h small f =
      elim (Bool-cases (as'.write s.memory relocation.physical_addr (le_bytes 8 value)).0) [
        | inr lost ↦ rw lost (λ e. cc, k)
        | inl stored ↦ rw stored (
          All-set Linkable s.images i (mark_applied image r relocation) k.0 (
              mark_applied-Linkable image r relocation (All-get_elem? Linkable s.images i k.0 g)
                small h f),
          SameImages-trans before s.images (set s.images i (mark_applied image r relocation)) k.1 (
              SameImages-set s.images i image (mark_applied image r relocation) g
                (record { relocations = refl; pending = refl; symbols = refl; base = refl })),
        )
      ]

  link_relocation-Links :
      (i r : ℕ) (before : List ImageInfo) (image : ImageInfo) (relocation : PendingRelocation)
      (s : LinkState M)
      → Reached before s.images
      → get_elem? s.images i ≡ some image
      → get_elem? image.pending_relocations r ≡ some relocation
      → r < image.pending_relocation_count
      → Links before (link_relocation as' i r image relocation s)
  unfolding link_relocation
  link_relocation-Links i r before image relocation s k g h small =
      elim (Bool-cases relocation.applied) [
        | inl old ↦ rw old k
        | inr new ↦ elim (Bool-cases (leb image.symbol_count relocation.symbol_index)) [
          | inl out ↦ rw (new, out) (λ e. cc, k)
          | inr in' ↦
              let linkable = All-get_elem? Linkable s.images i k.0 g in
              let (import, p) =
                get_elem?_in image.symbols relocation.symbol_index
                  (ground (arith, linkable.symbols)) in
              rw (new, in', p)
                (searched (resolve image import relocation.weak s.images) new
                  (resolve-ne-fault image import relocation.weak s.images k.0))
        ]
      ]
    where
      linked :
          (value : Option ℕ)
          → relocation.applied ≡ false
          → Links before (elim value [
            | none ↦ fail Error.linked_overflow s
            | some v ↦ commit as' i r image relocation v s
          ])
      linked none new = (λ e. cc, k)
      linked (some v) new = commit-Links i r before image relocation v s k g h small new

      resolved :
          (value : Option ℕ)
          → relocation.applied ≡ false
          → Links before (elim value [
            | none ↦ done tt s
            | some v ↦ elim (with_addend relocation v) [
              | none ↦ fail Error.linked_overflow s
              | some w ↦ commit as' i r image relocation w s
            ]
          ])
      resolved none new = k
      resolved (some v) new = linked (with_addend relocation v) new

      searched :
          (x : Result Error (Option ℕ))
          → relocation.applied ≡ false
          → x ≢ err Error.fault
          → Links before (elim x [
            | err e ↦ fail e s
            | ok found ↦ elim found [
              | none ↦ done tt s
              | some v ↦ elim (with_addend relocation v) [
                | none ↦ fail Error.linked_overflow s
                | some w ↦ commit as' i r image relocation w s
              ]
            ]
          ])
      searched (err e) new ne = ((λ y. ne (ap err y)), k)
      searched (ok found) new ne = resolved found new

  link_at-Links :
      (i r : ℕ) (before : List ImageInfo) {image : ImageInfo} (s : LinkState M)
      → Reached before s.images
      → get_elem? before i ≡ some image
      → r < image.pending_relocation_count
      → Links before (link_at as' i r s)
  unfolding link_at
  link_at-Links i r before {image} s k g small =
      let same = length-SameImages before s.images k.1 in
      let (now, p) = get_elem?_in s.images i (omega (arith, get_elem?_bound before i g)) in
      let count = SameImages-pending before s.images i k.1 g p in
      let linkable = All-get_elem? Linkable s.images i k.0 p in
      let (relocation, q) =
        get_elem?_in now.pending_relocations r (omega (arith, count, linkable.pending)) in
      rw (p, q, link_at)
        (link_relocation-Links i r before now relocation s k p q (omega (arith, count)))

  relocation_loop-Links :
      (n i r : ℕ) (before : List ImageInfo) {image : ImageInfo} (s : LinkState M)
      → Reached before s.images
      → get_elem? before i ≡ some image
      → r + n ≤ image.pending_relocation_count
      → Links before (relocation_loop as' n i r s)
  unfolding relocation_loop
  relocation_loop-Links zero i r before s k g h = k
  relocation_loop-Links (suc n) i r before s k g h =
      Links-then before (link_at as' i r s) (λ t. relocation_loop as' n i (r + 1) t)
        (link_at-Links i r before s k g (omega arith))
        (λ t l. relocation_loop-Links n i (r + 1) before t l g (omega arith))

  image_loop-Links :
      (n i : ℕ) (before : List ImageInfo) (s : LinkState M)
      → Reached before s.images
      → i + n ≤ length before
      → Links before (image_loop as' n i s)
  unfolding image_loop
  image_loop-Links zero i before s k h = k
  image_loop-Links (suc n) i before s k h =
      let (image, g) = get_elem?_in before i (omega arith) in
      let same = length-SameImages before s.images k.1 in
      let (now, p) = get_elem?_in s.images i (omega arith) in
      let count = SameImages-pending before s.images i k.1 g p in
      rw (p, image_loop)
        (Links-then before (relocation_loop as' now.pending_relocation_count i 0 s)
          (λ t. image_loop as' n (i + 1) t)
          (relocation_loop-Links now.pending_relocation_count i 0 before s k g (omega arith))
          (λ t l. image_loop-Links n (i + 1) before t l (omega arith)))

  -- Linking images whose counters are true never reads or writes outside an array, and whether it
  -- succeeds or fails half way it leaves images whose counters are true: in each, the relocations
  -- are those applied plus those unresolved, and the unresolved count is the number of listed
  -- relocations that are not applied, so it never falls below 0. Symbols, bases and the numbers of
  -- relocations are left alone.
  pub link_modules-Links :
      (s : LinkState M) → All Linkable s.images → Links s.images (link_modules as' s)
  unfolding link_modules
  link_modules-Links s k =
      image_loop-Links (length s.images) 0 s.images s (k, SameImages-refl s.images) (omega arith)
