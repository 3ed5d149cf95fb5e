-- ===== src/Loader/Process/Bounds.antt =====
-- shadps4_process_dynamic never leaves its buffers, whatever the dynamic data hold.
use qemu_dll_shadps.Base.{◌≡◌, ◌≢◌, Outcome, done, fail}
use qemu_dll_shadps.Loader.Types.{Error, ImageInfo}
use qemu_dll_shadps.Loader.Relocate.{LoadState}
use qemu_dll_shadps.Loader.Link.Counters.{Linkable}

-- An image that has no relocations yet.
pub record IsFresh (image : ImageInfo) : Type 0 where
  pub relocations : image.relocation_count ≡ 0
  pub applied : image.applied_relocation_count ≡ 0
  pub unresolved : image.unresolved_relocation_count ≡ 0
  pub pending : image.pending_relocation_count ≡ 0

-- What processing may come to: a failure that is no access outside a buffer, or an image that the
-- linker may work on, every unresolved relocation of which is listed as pending.
abbrev pub Processed : {M : Type 0} → Outcome Error (LoadState M) (Unit {0}) → Type 0
Processed (done _ t) =
    Linkable t.image × (t.image.unresolved_relocation_count ≡ t.image.pending_relocation_count)
Processed (fail e t) = e ≢ Error.fault
