-- ===== src/Boot/Tests.antt =====
-- Instances of the theorems on the memory routines of the boot loader.
use pious_os.Base.{◌≡◌, refl, ◌⊎◌, true, false, [], ◌∷◌, arith, All}
use pious_os.Kernel.Memory.Map.{conventional_memory, memory_mapped_io}
use pious_os.Boot.Search.{
  MapCalls, success, buffer_too_small, efi_error, is_conventional, no_address,
  actually_free_address, find_piece, with_map, actually_free_address_by_page,
}
use pious_os.Boot.FirstFit.{answered, FirstRoom, actually_free_address_lem}
use pious_os.Boot.Room.{Page, Ends, actually_free_address_by_page_lem}

abbrev machine : MapCalls
machine = record {
  first_call = buffer_too_small;
  allocation = success;
  second_call = success;
  mem_map =
      record { type = conventional_memory; physical_start = 0x1000; number_of_pages = 4 }
      ∷ record { type = memory_mapped_io; physical_start = 0x8000; number_of_pages = 64 }
      ∷ record { type = conventional_memory; physical_start = 0x10_0000; number_of_pages = 256 }
      ∷ [];
}

-- The third piece is the first with room for 16 pages.
found : actually_free_address machine 16 0 ≡ 0x10_0000
unfolding actually_free_address find_piece with_map is_conventional efi_error
found = refl

machine-Ends : All Ends machine.mem_map
machine-Ends = omega arith

actually_free_address_lem_example :
    ((answered machine ≡ true)
      × FirstRoom 16 0 machine.mem_map (actually_free_address machine 16 0))
    ⊎ ((answered machine ≡ false) × (actually_free_address machine 16 0 ≡ no_address))
actually_free_address_lem_example = actually_free_address_lem 16 0 machine

actually_free_address_by_page_lem_example :
    ((answered machine ≡ true)
      × Page 16 0x10_0000
          (omega arith)
          (omega arith)
          machine.mem_map
          (actually_free_address_by_page machine 16 0x10_0000))
    ⊎ ((answered machine ≡ false)
        × (actually_free_address_by_page machine 16 0x10_0000 ≡ no_address))
actually_free_address_by_page_lem_example =
    actually_free_address_by_page_lem 16 0x10_0000 (omega arith) (omega arith) machine machine-Ends
