-- ===== src/Boot/Image/Segments.antt =====
-- The kernel's ELF file: `BootKernel` of src/bootloader/boot.c reads its headers and loads its segments. The
-- structs are those of inc/bootloader/elf.h, as they stand in memory.
use pious_os.Base.{
  none, some, ℕ, zero, suc, ◌+◌, ◌-◌, ◌*◌, ◌%◌, ◌^◌, ◌&&◌, ltb, ◌==◌, if◌then◌else◌, for_range,
}
use pious_os.Boot.Search.{invalid_parameter, no_address, compare}
use pious_os.Boot.Paging.Tables.{map_virtual_pages}
use pious_os.Boot.Image.Firmware.{
  Firmware, ok, out_of_fuel, Run, pure, return, gets, called, checked, ◌>>=◌,
}
use pious_os.Boot.Image.Pages.{image_pages}

-- `bytes` bytes from `address` on, the lowest first
unfoldable pub word : (ℕ → ℕ) → ℕ → ℕ → ℕ
word m zero address = 0
word m (suc bytes) address = m (address % 2 ^ 64) + 256 * word m bytes (address + 1)

-- The fields of `Elf64_Ehdr`, by the address of the struct.
module _ (m : ℕ → ℕ) (header : ℕ) where
  abbrev pub e_class : ℕ
  e_class = word m 1 (header + 4)

  abbrev pub e_machine : ℕ
  e_machine = word m 2 (header + 18)

  abbrev pub e_entry : ℕ
  e_entry = word m 8 (header + 24)

  abbrev pub e_phoff : ℕ
  e_phoff = word m 8 (header + 32)

  abbrev pub e_phentsize : ℕ
  e_phentsize = word m 2 (header + 54)

  abbrev pub e_phnum : ℕ
  e_phnum = word m 2 (header + 56)

-- The fields of `Elf64_Phdr`.
module _ (m : ℕ → ℕ) (header : ℕ) where
  abbrev pub p_type : ℕ
  p_type = word m 4 header

  abbrev pub p_offset : ℕ
  p_offset = word m 8 (header + 8)

  abbrev pub p_vaddr : ℕ
  p_vaddr = word m 8 (header + 16)

  abbrev pub p_filesz : ℕ
  p_filesz = word m 8 (header + 32)

  abbrev pub p_memsz : ℕ
  p_memsz = word m 8 (header + 40)

-- `&program_headers_table[i]`
abbrev pub header_at : ℕ → ℕ → ℕ
header_at table i = table + 56 * i

abbrev pub pt_load : ℕ
pt_load = 1

-- `virt_size` and `virt_min` after one program header
unfoldable pub bound : (ℕ → ℕ) → ℕ → ℕ → ℕ × ℕ → ℕ × ℕ
bound m table i (virt_size, virt_min) =
    let vaddr = p_vaddr m (header_at table i) in
    let end = (vaddr + p_memsz m (header_at table i)) % 2 ^ 64 in
    if p_type m (header_at table i) == pt_load
    then (
      if ltb end virt_size then virt_size else end,
      if ltb virt_min vaddr then virt_min else vaddr,
    )
    else (virt_size, virt_min)

-- `virt_size` and `virt_min`
unfoldable pub bounds : (ℕ → ℕ) → ℕ → ℕ → ℕ × ℕ
bounds m table count = for_range count 0 (bound m table) (0, no_address)

-- `SectionAddress`
abbrev pub section_address : (ℕ → ℕ) → ℕ → ℕ → ℕ → ℕ
section_address m table allocated i =
    (allocated + (p_vaddr m (header_at table i) + 2 ^ 64 - p_vaddr m (header_at table 0)) % 2 ^ 64)
    % 2 ^ 64

-- What the rest of `BootKernel` takes from the image: `KernelBaseAddress`, `startAddress`, `pages` and
-- `Header_memory`.
pub record Image : Type 0 where
  pub base : ℕ
  pub start : ℕ
  pub pages : ℕ
  pub entry_point : ℕ

-- What stands in the variables where the file is no ELF: no base and no pages, and the entry point of the
-- declaration of `Header_memory`.
abbrev pub no_image : Image
no_image = record { base = 0; start = 0; pages = 0; entry_point = 0x4000_0000 }

module _ {F : Type 0} (fw : Firmware F) where
  -- one round of the loop that loads the segments
  unfoldable pub load_segment : ℕ → ℕ → ℕ → Run F (Unit {0})
  load_segment table allocated i = do
    m ← gets fw.memory
    (if p_type m (header_at table i) == pt_load
        then (do
          status ← checked (fw.set_position (p_offset m (header_at table i)))
          (if p_filesz m (header_at table i) == 0 then pure tt else do
            status' ←
                checked
                  (fw.read (p_filesz m (header_at table i)) (section_address m table allocated i))
            pure tt))
        else pure tt)

  unfoldable pub load_segments : ℕ → ℕ → ℕ → ℕ → Run F (Unit {0})
  load_segments table allocated zero i = pure tt
  load_segments table allocated (suc rounds) i = do
    done ← load_segment table allocated i
    load_segments table allocated rounds (i + 1)

  -- `MapVirtualPages`. Its own calls map fewer pages each.
  unfoldable pub map_pages : ℕ → ℕ → ℕ → ℕ → Run F (Unit {0})
  map_pages physical virt pages flags s =
      elim (map_virtual_pages fw.zero_words (fw.cr3 s) (pages + 1) physical virt pages flags
        (fw.page_state s)) [ none ↦ (out_of_fuel, s) | some s' ↦ (ok tt, fw.with_page_state s' s) ]

  -- The branch for a 64-bit ELF of x86_64. The ELF header is at `header`.
  unfoldable pub load_image : ℕ → ℕ → Run F Image
  load_image fuel header = do
    m ← gets fw.memory
    pool ← called (fw.allocate_pool (e_phnum m header * e_phentsize m header))
    status ← checked (λ s. (pool.0, s))
    positioned ← checked (fw.set_position (e_phoff m header))
    found ← checked (fw.read (e_phnum m header * e_phentsize m header) pool.1)
    m' ← gets fw.memory
    let table = pool.1
    let (virt_size, virt_min) = bounds m' table (e_phnum m header)
    let pages = fw.size_to_pages ((virt_size + 2 ^ 64 - virt_min) % 2 ^ 64)
    allocated ← image_pages fw fuel pages
    loaded ← load_segments table allocated (e_phnum m header) 0
    start ← gets (λ s. p_vaddr (fw.memory s) (header_at table 0))
    freed ← called (fw.free_pool table)
    mapped ← map_pages allocated start pages 0x3
    pure (record { base = allocated; start = start; pages = pages; entry_point = e_entry m header })

  -- from the ELF header's `SetPosition` on
  unfoldable pub load_kernel : ℕ → ℕ → Run F Image
  load_kernel fuel header = do
    positioned ← checked (fw.set_position 0)
    found ← checked (fw.read 64 header)
    m ← gets fw.memory
    (if compare m header fw.elf_magic 4 == 0
        then pure no_image
        else if e_class m header == 2 && e_machine m header == 62
        then load_image fuel header
        else return invalid_parameter)
