-- ===== src/Boot/Search.antt =====
-- The memory routines of src/bootloader/boot.c: `Compare`, `VerifyZeroMem`, and the two searches for free
-- pages in the firmware's memory map, which is a list of descriptors here. A page has 4096 bytes.
use pious_os.Base.{
  ℕ, zero, suc, ◌+◌, ◌-◌, ◌*◌, ◌%◌, ◌^◌, Bool, true, false, ◌&&◌, Option, none, some, List, [], ◌∷◌,
  ltb, leb, ◌==◌, if◌then◌else◌,
}
use pious_os.Kernel.Memory.Map.{Descriptor, MemoryType, conventional_memory}

-- The loop of `Compare` from the byte `i` on, with `rounds` bytes left.
unfoldable pub compare_from : (ℕ → ℕ) → ℕ → ℕ → ℕ → ℕ → ℕ
compare_from m one two zero i = 1
compare_from m one two (suc rounds) i =
    let rest = compare_from m one two rounds (i + 1) in
    if m ((one + i) % 2 ^ 64) == m ((two + i) % 2 ^ 64) then rest else 0

unfoldable pub compare : (ℕ → ℕ) → ℕ → ℕ → ℕ → ℕ
compare m firstitem seconditem comparelength = compare_from m firstitem seconditem comparelength 0

unfoldable pub verify_zero_from : (ℕ → ℕ) → ℕ → ℕ → ℕ → ℕ
verify_zero_from m base_addr zero i = 0
verify_zero_from m base_addr (suc rounds) i =
    let rest = verify_zero_from m base_addr rounds (i + 1) in
    if m ((base_addr + i) % 2 ^ 64) == 0 then rest else 1

unfoldable pub verify_zero_mem : (ℕ → ℕ) → ℕ → ℕ → ℕ
verify_zero_mem m num_bytes base_addr = verify_zero_from m base_addr num_bytes 0

-- The status of a call of the firmware.
pub data Status : Type 0 where
  success buffer_too_small not_found invalid_parameter not_ready unsupported already_started
        failure :
      Status

-- What the firmware answers to `GetMemoryMap`, `AllocatePool` and the second `GetMemoryMap`, and the map
-- that stands behind `MemMap` then.
pub record MapCalls : Type 0 where
  pub first_call : Status
  pub allocation : Status
  pub second_call : Status
  pub mem_map : List Descriptor

unfoldable pub efi_error : Status → Bool
efi_error success = false
efi_error status = true

unfoldable pub is_success : Status → Bool
is_success success = true
is_success status = false

-- ~0ULL
abbrev pub no_address : ℕ
no_address = 0xffff_ffff_ffff_ffff

-- The calls before the search, and the search `found` of it, where they succeed.
unfoldable pub with_map : MapCalls → (List Descriptor → ℕ) → ℕ
with_map calls found = elim calls.first_call [
  | success ↦ found calls.mem_map
  | buffer_too_small ↦
      if efi_error calls.allocation
      then no_address
      else (if efi_error calls.second_call then no_address else found calls.mem_map)
  | status ↦ no_address
]

unfoldable pub is_conventional : MemoryType → Bool
is_conventional conventional_memory = true
is_conventional type = false

-- the condition of `ActuallyFreeAddress`
abbrev pub has_room : ℕ → ℕ → Descriptor → Bool
has_room pages old_address piece =
    is_conventional piece.type
    && (leb pages piece.number_of_pages && ltb old_address piece.physical_start)

unfoldable pub find_piece : ℕ → ℕ → List Descriptor → ℕ
find_piece pages old_address [] = no_address
find_piece pages old_address (piece ∷ map) =
    if has_room pages old_address piece
    then piece.physical_start
    else find_piece pages old_address map

unfoldable pub actually_free_address : MapCalls → ℕ → ℕ → ℕ
actually_free_address calls pages old_address = with_map calls (find_piece pages old_address)

-- `PhysicalEnd`
abbrev pub physical_end : Descriptor → ℕ
physical_end piece =
    (piece.physical_start + piece.number_of_pages * 4096 % 2 ^ 64 + 2 ^ 64 - 0xfff) % 2 ^ 64

-- The body of the loop of `ActuallyFreeAddressByPage`: the discovered address, if there is one.
unfoldable pub discovered : ℕ → ℕ → Descriptor → Option ℕ
discovered pages old_address piece =
    if is_conventional piece.type && leb pages piece.number_of_pages
    then (if leb piece.physical_start old_address
          && ltb ((old_address + pages * 4096) % 2 ^ 64) (physical_end piece)
        then some ((old_address + 4096) % 2 ^ 64)
        else if ltb old_address piece.physical_start
        then some piece.physical_start
        else none)
    else none

-- the address of this round, or that of the later ones
abbrev pub or_else : Option ℕ → ℕ → ℕ
or_else none later = later
or_else (some address) later = address

unfoldable pub find_page : ℕ → ℕ → List Descriptor → ℕ
find_page pages old_address [] = no_address
find_page pages old_address (piece ∷ map) =
    or_else (discovered pages old_address piece) (find_page pages old_address map)

unfoldable pub actually_free_address_by_page : MapCalls → ℕ → ℕ → ℕ
actually_free_address_by_page calls pages old_address = with_map calls (find_page pages old_address)
