-- ===== src/Kernel/Memory/Map.antt =====
-- The memory map of src/kernel/memory.c and inc/kernel/memory.h. `none` is a walk over the map that does
-- not end, or a fault of `PrintString`.
use pious_os.Base.{
  ℕ, zero, suc, ◌+◌, ◌*◌, ◌%◌, ◌^◌, Bool, true, false, Option, none, some, List, [], ◌∷◌, ltb, ◌==◌,
  if◌then◌else◌, ◌>>=◌,
}
use pious_os.Kernel.Graphics.Screen.{Screen}
use pious_os.Kernel.Print.Format.{Floats, print_string}

-- The types of memory that the kernel and the boot loader tell apart.
pub data MemoryType : Type 0 where
  memory_mapped_io : MemoryType
  memory_mapped_io_port_space : MemoryType
  pal_code : MemoryType
  max_memory_type : MemoryType
  conventional_memory : MemoryType
  other_type : ℕ → MemoryType

-- `EFI_MEMORY_DESCRIPTOR`, as far as the kernel reads it.
pub record Descriptor : Type 0 where
  pub type : MemoryType
  pub physical_start : ℕ
  pub number_of_pages : ℕ

-- What the firmware and its headers give: `EFI_PAGE_SHIFT`, `EFI_SIZE_TO_PAGES`, and the descriptor that
-- stands at an address.
pub record Efi : Type 0 where
  pub page_shift : ℕ
  pub size_to_pages : ℕ → ℕ
  pub read : ℕ → Descriptor

-- `MemorySettings`
pub record MemorySettings : Type 0 where
  pub mem_map_size : ℕ
  pub mem_map_descriptor_size : ℕ
  pub mem_map : ℕ
  pub mem_map_descriptor_version : ℕ

unfoldable pub initialize_memory : ℕ → ℕ → ℕ → ℕ → MemorySettings
initialize_memory map_size descriptor_size map descriptor_version = record {
  mem_map_size = map_size;
  mem_map_descriptor_size = descriptor_size;
  mem_map = map;
  mem_map_descriptor_version = descriptor_version % 2 ^ 32;
}

-- `(uint8_t *)memMap + memMapSize`
abbrev pub map_end : MemorySettings → ℕ
map_end m = (m.mem_map + m.mem_map_size) % 2 ^ 64

-- `for(Piece = memMap; Piece < end; Piece = Piece + memMapDescriptorSize)` with a body on a state
unfoldable pub walk {ℓ} :
    {State : Type ℓ}
    → (ℕ → Descriptor)
    → ℕ
    → ℕ
    → (Descriptor → State → Option State)
    → ℕ
    → ℕ
    → State
    → Option State
walk read stride end body zero piece state = none
walk read stride end body (suc fuel) piece state =
    let rest =
      body (read piece) state >>= walk read stride end body fuel ((piece + stride) % 2 ^ 64) in
    if ltb piece end then rest else some state

-- A round takes at least a byte of the map.
abbrev pub walk_map {ℓ} :
    {State : Type ℓ}
    → Efi
    → MemorySettings
    → (Descriptor → State → Option State)
    → State
    → Option State
walk_map efi m body state =
    walk efi.read m.mem_map_descriptor_size (map_end m) body (m.mem_map_size + 1) m.mem_map state

-- The same loop with a `break` at the pieces of `breaks`, and no other effect: the piece it ends at.
unfoldable pub walk_until : (ℕ → Bool) → ℕ → ℕ → ℕ → ℕ → ℕ
walk_until breaks stride end zero piece = piece
walk_until breaks stride end (suc fuel) piece =
    let rest = walk_until breaks stride end fuel ((piece + stride) % 2 ^ 64) in
    if ltb piece end then (if breaks piece then piece else rest) else piece

-- The code of the `Abort` that `AdjustMemMapSize` calls, if it does. The body of its loop is `break`. It has no
-- `return`, and no code uses its value.
unfoldable pub adjust_mem_map_size : Efi → MemorySettings → ℕ → Option ℕ
adjust_mem_map_size efi m number_of_new_descriptors =
    let num_pages =
      efi.size_to_pages
        ((m.mem_map_size + number_of_new_descriptors * m.mem_map_descriptor_size) % 2 ^ 64) in
    let original_num_pages = efi.size_to_pages m.mem_map_size in
    let piece =
      walk_until (λ piece. true) m.mem_map_descriptor_size (map_end m) (m.mem_map_size + 1)
        m.mem_map in
    if ltb original_num_pages num_pages
    then (if piece == map_end m then some 0xffff_ffff_ffff_ffff else none)
    else none

-- `Piece->PhysicalStart + Piece->NumberOfPages << EFI_PAGE_SHIFT`: the sum is shifted.
abbrev pub current_address : Efi → Descriptor → ℕ
current_address efi d = (d.physical_start + d.number_of_pages) * 2 ^ efi.page_shift % 2 ^ 64

unfoldable pub get_max_mapped_physical_address : Efi → MemorySettings → Option ℕ
get_max_mapped_physical_address efi m =
    walk_map efi m
      (λ d max_address.
        some
          (if ltb max_address (current_address efi d) then current_address efi d else max_address))
      0

-- "Pages found: %d\n"
abbrev pub pages_found_text : List ℕ
pages_found_text =
    b'P' ∷ b'a' ∷ b'g' ∷ b'e' ∷ b's' ∷ b' ' ∷ b'f' ∷ b'o' ∷ b'u' ∷ b'n' ∷ b'd' ∷ b':' ∷ b' ' ∷ b'%'
    ∷ b'd' ∷ 10 ∷ []

-- the `PrintString` of the two loops
unfoldable pub print_pages_found : Floats → ℕ → Screen → Option Screen
print_pages_found F pages s =
    print_string F pages_found_text s.settings.font_color s.settings.background_color
      (record { words = pages ∷ []; reals = [] }) s

unfoldable pub is_usable : MemoryType → Bool
is_usable memory_mapped_io = false
is_usable memory_mapped_io_port_space = false
is_usable pal_code = false
is_usable max_memory_type = false
is_usable conventional_memory = true
is_usable (other_type n) = true

-- `PrintString("Pages found: %d\n", ...); total += Piece->NumberOfPages << EFI_PAGE_SHIFT;`
unfoldable pub add_pages : Floats → Efi → Descriptor → ℕ × Screen → Option (ℕ × Screen)
add_pages F efi d (total, s) = do
  s' ← print_pages_found F d.number_of_pages s
  some ((total + d.number_of_pages * 2 ^ efi.page_shift % 2 ^ 64) % 2 ^ 64, s')

unfoldable pub get_usable_system_ram : Floats → Efi → MemorySettings → Screen → Option (ℕ × Screen)
get_usable_system_ram F efi m s =
    walk_map efi m
      (λ d state.
        let added = add_pages F efi d state in if is_usable d.type then added else some state)
      (0, s)

unfoldable pub get_total_system_ram : Floats → Efi → MemorySettings → Screen → Option (ℕ × Screen)
get_total_system_ram F efi m s = walk_map efi m (add_pages F efi) (0, s)
