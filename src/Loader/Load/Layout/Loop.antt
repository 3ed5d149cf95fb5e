-- ===== src/Loader/Load/Layout/Loop.antt =====
-- The layout of an image through the loop of shadps4_load_module over the program headers.
use qemu_dll_shadps.Base.{
  ℕ, ◌+◌, ◌^◌, ◌<◌, ◌≡◌, refl, ap, subst, Bool, true, false, ◌||◌, List, [], ◌∷◌, ◌==◌,
  if◌then◌else◌, All, Result, ok, err, Outcome, done, fail, and_then, lift,
}
use qemu_dll_shadps.Loader.Types.{Error, ProgramHeader}
use qemu_dll_shadps.Loader.Memory.{AddressSpace}
use qemu_dll_shadps.Loader.HostFile.{Host, HostFile}
use qemu_dll_shadps.Loader.Load.Segments.{
  Scan, Plan, pt_load, pt_sce_relro, segment_place, segment_source,
}
use qemu_dll_shadps.Loader.Load.Loop.{
  World, copy_segment, clear_bss, load_segment, load_header, header_loop,
}
use qemu_dll_shadps.Loader.Load.Layout.{LaidOut}
use qemu_dll_shadps.Loader.Load.Layout.Segment.{
  segment_place_lem, scan-SameLayout, LaidOut-SameLayout, add_segment-LaidOut,
}

-- What a step returns, if it does not fail, satisfies `P`.
abbrev Returns : {W A : Type 0} → (A → Type 0) → Outcome Error W A → Type 0
Returns {W} {A} P m = (a : A) (w : W) → m ≡ done a w → P a

Returns-then :
    {W A B : Type 0} (P : A → Type 0) (Q : B → Type 0) (m : Outcome Error W A)
    (f : A → W → Outcome Error W B)
    → Returns P m
    → ((a : A) (w : W) → P a → Returns Q (f a w))
    → Returns Q (and_then m f)
Returns-then P Q (done a w) f p k = k a w (p a w refl)
Returns-then P Q (fail e w) f p k = λ b w e. cc

Returns-lift :
    {W A : Type 0} (P : A → Type 0) (r : Result Error A) (w : W)
    → ((a : A) → r ≡ ok a → P a)
    → Returns P (lift r w)
Returns-lift P (ok a) w k = λ b w' e. let q : a ≡ b = cc in k b (ap ok q)
Returns-lift P (err e) w k = λ b w' e. cc

-- The same after a step of which nothing is known.
Returns-after :
    {W A B : Type 0} (Q : B → Type 0) (m : Outcome Error W A) (f : A → W → Outcome Error W B)
    → ((a : A) (w : W) → Returns Q (f a w))
    → Returns Q (and_then m f)
Returns-after Q (done a w) f k = k a w
Returns-after Q (fail e w) f k = λ b w e. cc

done-injective :
    {W A : Type 0} {a b : A} {v w : W} → ◌≡◌ {A = Outcome Error W A} (done a v) (done b w) → a ≡ b
done-injective e = cc

module _ {H M : Type 0} (host : Host H) (as' : AddressSpace M) (file : HostFile) where
  load_segment-LaidOut :
      (plan : Plan) (base i : ℕ) (phdr : ProgramHeader) (a : Scan) (w : World H M)
      → base < 2 ^ 64
      → plan.physical_base < 2 ^ 64
      → plan.physical_limit < 2 ^ 64
      → phdr.p_vaddr < 2 ^ 64
      → LaidOut plan base a
      → Returns (LaidOut plan base) (load_segment host as' file plan i phdr a w)
  unfolding load_segment
  load_segment-LaidOut plan base i phdr a w b64 p64 l64 v64 l =
      Returns-then (λ x. segment_place plan phdr a.image ≡ ok x) (LaidOut plan base) _ _
        (Returns-lift _ _ w (λ x e. e))
        λ addr w e.
          Returns-after (LaidOut plan base) (lift (segment_source plan i phdr) w) _ λ source w.
            Returns-after (LaidOut plan base)
              (copy_segment host as' file source phdr.p_filesz addr w) _
              λ _ w.
                Returns-after (LaidOut plan base) (clear_bss host as' file phdr addr w) _ λ _ w.
                  Returns-lift (LaidOut plan base) _ w λ b q.
                    add_segment-LaidOut plan base phdr addr a b64 l64
                      (segment_place_lem plan phdr a.image p64 v64 e) l q

  load_header-LaidOut :
      (plan : Plan) (base i : ℕ) (phdr : ProgramHeader) (a : Scan) (w : World H M)
      → base < 2 ^ 64
      → plan.physical_base < 2 ^ 64
      → plan.physical_limit < 2 ^ 64
      → phdr.p_vaddr < 2 ^ 64
      → LaidOut plan base a
      → Returns (LaidOut plan base) (load_header host as' file plan i phdr a w)
  unfolding load_header
  load_header-LaidOut plan base i phdr a w b64 p64 l64 v64 l =
      Returns-then (LaidOut plan base) (LaidOut plan base) _ _
        (Returns-lift _ _ w (λ b e. LaidOut-SameLayout (scan-SameLayout i phdr a e) l))
        λ b w lb. by_type b w lb (phdr.p_type == pt_load || phdr.p_type == pt_sce_relro)
    where
      by_type :
          (b : Scan) (w : World H M)
          → LaidOut plan base b
          → (t : Bool)
          → Returns
              (LaidOut plan base)
              (if t then load_segment host as' file plan i phdr b w else done b w)
      by_type b w lb true = load_segment-LaidOut plan base i phdr b w b64 p64 l64 v64 lb
      by_type b w lb false =
          λ c w' e. subst (λ (x : Scan). LaidOut plan base x) (done-injective e) lb

  pub loop_keeps :
      (plan : Plan) (base i : ℕ) (phdrs : List ProgramHeader) (a : Scan) (w : World H M)
      → base < 2 ^ 64
      → plan.physical_base < 2 ^ 64
      → plan.physical_limit < 2 ^ 64
      → All (λ (phdr : ProgramHeader). phdr.p_vaddr < 2 ^ 64) phdrs
      → LaidOut plan base a
      → Returns (LaidOut plan base) (header_loop host as' file plan i phdrs a w)
  unfolding header_loop
  loop_keeps plan base i [] a w b64 p64 l64 v64 l =
      λ b w' e. subst (λ (x : Scan). LaidOut plan base x) (done-injective e) l
  loop_keeps plan base i (phdr ∷ rest) a w b64 p64 l64 v64 l =
      Returns-then (LaidOut plan base) (LaidOut plan base) _ _
        (load_header-LaidOut plan base i phdr a w b64 p64 l64 v64.0 l)
        λ b w lb. loop_keeps plan base (i + 1) rest b w b64 p64 l64 v64.1 lb
