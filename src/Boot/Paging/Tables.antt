-- ===== src/Boot/Paging/Tables.antt =====
-- `MapVirtualPages` of src/bootloader/boot.c on x86_64: it walks four levels of page tables, allocates
-- those that are missing, and writes the entries of the last level.
use pious_os.Base.{
  ℕ, zero, suc, ◌+◌, ◌-◌, ◌*◌, ◌/◌, ◌%◌, ◌^◌, Option, none, some, List, [], ◌∷◌, ltb, ◌==◌,
  if◌then◌else◌, ◌>>=◌,
}
use Prim.Native.Nat.{bit_or}

-- Memory as 64-bit words, by byte address. Page tables are only accessed in whole words.
abbrev pub Words : Type 0
Words = ℕ → ℕ

-- The memory, and the pages that `AllocatePages` will give, in order. A call behind the last of them fails, and
-- leaves the pointer as it was declared: null.
pub record PageState : Type 0 where
  pub words : Words
  pub allocations : List ℕ

unfoldable pub allocate : List ℕ → ℕ × List ℕ
allocate [] = (0, [])
allocate (page ∷ pages) = (page, pages)

unfoldable pub write : Words → ℕ → ℕ → Words
write m a v b = if b == a then v else m b

-- the entry `table[index]`
abbrev pub slot : ℕ → ℕ → ℕ
slot table index = (table + 8 * index) % 2 ^ 64

-- `x & ~0xFFF`
abbrev pub page_of : ℕ → ℕ
page_of x = x / 4096 * 4096

-- One level: the table behind `table[index]`, a new one where the entry is 0. `zero_mem` is the library's
-- `ZeroMem`.
unfoldable pub descend : (Words → ℕ → ℕ → Words) → ℕ → ℕ → PageState → PageState × ℕ
descend zero_mem table index s =
    let (page, rest) = allocate s.allocations in
    let cleared = zero_mem s.words page 0x1000 in
    if s.words (slot table index) == 0
    then (
      record {
        words = write cleared (slot table index) (bit_or (bit_or page 0x01) 0x02);
        allocations = rest;
      },
      page,
    )
    else (s, page_of (s.words (slot table index)))

-- `(virt >> shift) & 0x1FF`
abbrev pub index_at : ℕ → ℕ → ℕ
index_at virt shift = virt / 2 ^ shift % 512

-- The three levels above the last: the page table, and the state with the new tables.
unfoldable pub find_table : (Words → ℕ → ℕ → Words) → ℕ → ℕ → PageState → PageState × ℕ
find_table zero_mem pml4 virt s =
    let (s, pml3) = descend zero_mem pml4 (index_at virt 39) s in
    let (s, pml2) = descend zero_mem pml3 (index_at virt 30) s in
    descend zero_mem pml2 (index_at virt 21) s

-- `for(UINTN i = 0; i < pages; i++)`, from `i` on with `rounds` left; `remap i` is the call behind the end of the
-- page table.
unfoldable pub write_entries :
    ℕ → ℕ → ℕ → ℕ → (ℕ → PageState → Option PageState) → ℕ → ℕ → PageState → Option PageState
write_entries pml1 pml1i physical flags remap zero i s = some s
write_entries pml1 pml1i physical flags remap (suc rounds) i s =
    let s' = record s {
      words = write s.words (slot pml1 (pml1i + i)) (bit_or ((physical + i * 4096) % 2 ^ 64) flags);
    } in
    let behind = remap i s' >>= write_entries pml1 pml1i physical flags remap rounds (i + 1) in
    let inside = write_entries pml1 pml1i physical flags remap rounds (i + 1) s' in
    if ltb 511 (pml1i + i) then behind else inside

-- `pml4` is what stands in CR3. The fuel is the depth of the calls: each maps fewer pages than the one
-- before it.
unfoldable pub map_virtual_pages :
    (Words → ℕ → ℕ → Words) → ℕ → ℕ → ℕ → ℕ → ℕ → ℕ → PageState → Option PageState
map_virtual_pages zero_mem pml4 zero physical virt pages flags s = none
map_virtual_pages zero_mem pml4 (suc fuel) physical virt pages flags s =
    let (s', pml1) = find_table zero_mem pml4 virt s in
    write_entries pml1 (index_at virt 12) physical flags
      (λ i.
        map_virtual_pages zero_mem pml4 fuel ((physical + i * 4096) % 2 ^ 64)
          ((virt + i * 4096) % 2 ^ 64) (pages - i) flags)
      pages 0 s'
