-- ===== src/Loader/Relocate/Values.antt =====
-- What a round of shadps4_apply_relocations writes, and what it leaves for the linker.
use qemu_dll_shadps.Base.{ℕ, ◌+◌, ◌%◌, ◌^◌, ◌≡◌, Bool, false, some, List, get_elem?, le_bytes}
use qemu_dll_shadps.Gpu.Guest.Words.{Holds}
use qemu_dll_shadps.Loader.Types.{DynamicInfo}
use qemu_dll_shadps.Loader.Memory.{AddressSpace, IsMemory}
use qemu_dll_shadps.Loader.Relocate.{Rela, r_type, r_sym, LoadState}
use qemu_dll_shadps.Loader.Relocate.Resolves.{IsValue, IsImported, Resolves}

module _ {M : Type 0} (as' : AddressSpace M) (peek : M → ℕ → ℕ) (memory : IsMemory as' peek) where
  -- What a round that succeeds has done with the relocation, its target being `physical`: the eight
  -- bytes of its value are there, and it is counted as applied; or no memory has changed, and the
  -- relocation is the last that is listed as pending.
  pub data Settled (bytes : List ℕ) (dynamic : DynamicInfo) (rela : Rela) (physical : ℕ)
      (s t : LoadState M) : Type 0 where
    stored :
        (v : ℕ)
        → IsValue bytes dynamic s.image rela v
        → Holds (peek t.memory) physical (le_bytes 8 v)
        → t.image.applied_relocation_count ≡ (s.image.applied_relocation_count + 1) % 2 ^ 32
        → t.image.pending_relocation_count ≡ s.image.pending_relocation_count
        → Settled bytes dynamic rela physical s t
    postponed :
        (weak : Bool)
        → IsImported bytes dynamic rela weak
        → t.memory ≡ s.memory
        → t.image.pending_relocation_count ≡ (s.image.pending_relocation_count + 1) % 2 ^ 32
        → t.image.unresolved_relocation_count ≡ (s.image.unresolved_relocation_count + 1) % 2 ^ 32
        → get_elem? t.image.pending_relocations s.image.pending_relocation_count
          ≡ some (record {
            physical_addr = physical;
            addend = rela.r_addend;
            symbol_index = r_sym rela;
            type = r_type rela;
            weak = weak;
            applied = false;
          })
        → Settled bytes dynamic rela physical s t
