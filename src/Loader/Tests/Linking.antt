-- ===== src/Loader/Tests/Linking.antt =====
-- Two modules, the last of which stands for the HLE's: the first imports a symbol of the second.
use qemu_dll_shadps.Base.{
  ℕ, ◌≡◌, ◌⊎◌, refl, true, false, some, List, [], ◌∷◌, pos, arith, codes, str_eq,
}
use qemu_dll_shadps.Loader.Types.{ImageInfo, DynamicSymbol, zero_image, zero_symbol, zero_pending}
use qemu_dll_shadps.Loader.Range.{add_valid}
use qemu_dll_shadps.Loader.Link.{
  symbols_match, symbol_scan, provider_loop, prefer_hle_heap_provider, resolve, link_modules,
}
use qemu_dll_shadps.Loader.Link.Counters.{Linkable}
use qemu_dll_shadps.Loader.Link.Runs.{Links, link_modules-Links}
use qemu_dll_shadps.Loader.Link.Providers.{
  first_provider, IsExport, provider_loop_hle_first, resolve_lem,
}
use qemu_dll_shadps.Loader.Tests.Memories.{ram}

abbrev import : DynamicSymbol
import = record zero_symbol {
  nid = some (codes "abc");
  library = some (codes "libKernel");
  module_name = some (codes "libKernel");
  type = 2;
  binding = 1;
}

abbrev export : DynamicSymbol
export = record import { value = 0x40; defined = true }

abbrev game : ImageInfo
game = record zero_image {
  virtual_base = 0x800000000;
  symbol_count = 1;
  symbols = import ∷ [];
  relocation_count = 1;
  unresolved_relocation_count = 1;
  pending_relocation_count = 1;
  pending_relocations =
      record zero_pending { physical_addr = 0x104000; addend = pos 8; type = 1 } ∷ [];
}

abbrev hle : ImageInfo
hle = record zero_image { virtual_base = 0x900000000; symbol_count = 1; symbols = export ∷ [] }

abbrev modules : List ImageInfo
modules = game ∷ hle ∷ []

game-Linkable : Linkable game
game-Linkable = record {
  symbols = refl;
  pending = omega arith;
  balance = refl;
  small = omega arith;
  listed = refl;
}

hle-Linkable : Linkable hle
hle-Linkable = record {
  symbols = refl;
  pending = omega arith;
  balance = refl;
  small = omega arith;
  listed = refl;
}

link_modules-Links_example :
    Links modules (link_modules ram (record { memory = λ x. 0; images = modules }))
link_modules-Links_example =
    link_modules-Links ram (record { memory = λ x. 0; images = modules })
      (game-Linkable, (hle-Linkable, tt))

provider_loop_hle_first_example :
    provider_loop 2 true import modules 0 ≡ first_provider import (hle ∷ game ∷ [])
provider_loop_hle_first_example = provider_loop_hle_first import (game ∷ []) hle

resolve_lem_example :
    IsExport import modules 0x900000040 ⊎ ((false ≡ true) × ◌≡◌ {A = ℕ} 0x900000040 0)
unfolding resolve provider_loop symbol_scan symbols_match prefer_hle_heap_provider str_eq add_valid
resolve_lem_example = resolve_lem game import false modules (omega arith, (omega arith, tt)) refl
