-- ===== src/Boot/Paging/Ends.antt =====
-- `MapVirtualPages` (src/bootloader/boot.c) calls itself behind the end of a page table; these calls end.
use pious_os.Base.{
  ℕ, zero, suc, ◌+◌, ◌-◌, ◌*◌, ◌%◌, ◌^◌, ◌≤◌, ◌<◌, ◌≡◌, refl, inl, inr, Option, some, ltb, arith,
  Bool-cases, ltb→lt,
}
use Prim.Native.Nat.{bit_or}
use pious_os.Boot.Paging.Tables.{
  Words, PageState, write, slot, index_at, find_table, write_entries, map_virtual_pages,
}

abbrev Returns : Option PageState → Type 0
Returns result = (s' : PageState) × (result ≡ some s')

-- The loop returns where the calls behind the first round do.
write_entries-Returns :
    (pml1 pml1i physical flags pages : ℕ) (remap : ℕ → PageState → Option PageState)
    → pml1i < 512
    → ((i : ℕ) (s : PageState) → 1 ≤ i → i < pages → Returns (remap i s))
    → (rounds i : ℕ) (s : PageState) → i + rounds ≤ pages
    → Returns (write_entries pml1 pml1i physical flags remap rounds i s)
unfolding write_entries
write_entries-Returns pml1 pml1i physical flags pages remap h calls zero i s fits = (s, refl)
write_entries-Returns pml1 pml1i physical flags pages remap h calls (suc rounds) i s fits =
    let now = record s {
      words = write s.words (slot pml1 (pml1i + i)) (bit_or ((physical + i * 4096) % 2 ^ 64) flags);
    } in
    elim (Bool-cases (ltb 511 (pml1i + i))) [
      | inl e ↦
          let past = ltb→lt 511 (pml1i + i) e in
          let (mid, call) = calls i now (omega (arith, h, past)) (omega (arith, fits)) in
          let (s', rest) =
            write_entries-Returns pml1 pml1i physical flags pages remap h calls rounds (i + 1) mid
              (omega (arith, fits)) in
          (s', rw (e, call) rest)
      | inr e ↦
          let (s', rest) =
            write_entries-Returns pml1 pml1i physical flags pages remap h calls rounds (i + 1) now
              (omega (arith, fits)) in
          (s', rw e rest)
    ]

-- `MapVirtualPages` returns, for every request, also where it calls itself: fuel above the number of pages is
-- enough.
pub map_virtual_pages-write_entries :
    (zero_mem : Words → ℕ → ℕ → Words) (pml4 fuel physical virt pages flags : ℕ) (s : PageState)
    → pages < fuel
    → (s' : PageState) × (map_virtual_pages zero_mem pml4 fuel physical virt pages flags s
        ≡ some s')
unfolding map_virtual_pages
map_virtual_pages-write_entries zero_mem pml4 zero physical virt pages flags s h =
    absurd (omega (arith, h))
map_virtual_pages-write_entries zero_mem pml4 (suc fuel) physical virt pages flags s h =
    write_entries-Returns (find_table zero_mem pml4 virt s).1 (index_at virt 12) physical flags
      pages
      (λ i.
        map_virtual_pages zero_mem pml4 fuel ((physical + i * 4096) % 2 ^ 64)
          ((virt + i * 4096) % 2 ^ 64) (pages - i) flags)
      (omega arith)
      (λ i s lo hi.
        map_virtual_pages-write_entries zero_mem pml4 fuel ((physical + i * 4096) % 2 ^ 64)
          ((virt + i * 4096) % 2 ^ 64) (pages - i) flags s (omega (arith, h, lo, hi)))
      pages 0 (find_table zero_mem pml4 virt s).0 (omega arith)
