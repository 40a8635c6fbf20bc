-- ===== src/Boot/Paging/Mapped.antt =====
-- What `MapVirtualPages` (src/bootloader/boot.c) maps, for requests inside one page table.
use pious_os.Base.{
  ℕ, suc, ◌+◌, ◌-◌, ◌*◌, ◌/◌, ◌%◌, ◌^◌, ◌≤◌, ◌<◌, ◌≡◌, ◌≢◌, refl, sym, ap, ◌∙◌, some, arith,
}
use Prim.Native.Nat.{bit_or}
use mathlib.Core.Path.{subst}
use pious_os.Base.Bits.{bit_or_low}
use pious_os.Boot.Paging.Tables.{Words, PageState, slot, index_at, find_table, map_virtual_pages}
use pious_os.Boot.Paging.Words.{
  IsPage, Keeps, In, next_table, frame, address_in, translate, slot-In,
}
use pious_os.Boot.Paging.Entries.{entry_for, apart_slot_ne, write_entries_lem}
use pious_os.Boot.Paging.Found.{
  next_table_same, step4, step3, step2, IsReady, led4, led3, led2, found4, found3, find_table_keeps,
}

frame_entry :
    (m : Words) (table index physical flags k : ℕ)
    → m (slot table index) ≡ entry_for physical flags k
    → physical % 4096 ≡ 0
    → physical + k * 4096 < 2 ^ 52
    → flags < 4096
    → flags % 2 ≡ 1
    → frame m table index ≡ some (physical + k * 4096)
frame_entry m table index physical flags k e aligned below small odd =
    let base : (physical + k * 4096) % 2 ^ 64 ≡ 4096 * ((physical + k * 4096) / 4096) =
      omega (arith, aligned) in
    let sum = bit_or_low 12 ((physical + k * 4096) / 4096) flags small in
    let value : m (slot table index) ≡ physical + k * 4096 + flags =
      e ∙ (ap (λ t. bit_or t flags) base ∙ omega (arith, sum, base)) in
    let present : (physical + k * 4096 + flags) % 2 ≡ 1 = omega (arith, aligned, odd) in
    let address : address_in (physical + k * 4096 + flags) ≡ physical + k * 4096 =
      omega (arith, aligned, below, small) in
    rw (value, present, address) refl

-- the address `b` bytes into the page `k` pages behind that of `virt`
abbrev pub at_page : ℕ → ℕ → ℕ → ℕ
at_page virt k b = (virt / 4096 + k) * 4096 + b

indices :
    (virt k b : ℕ)
    → b < 4096
    → index_at virt 12 + k < 512
    → (index_at (at_page virt k b) 39 ≡ index_at virt 39)
      × (index_at (at_page virt k b) 30 ≡ index_at virt 30)
      × (index_at (at_page virt k b) 21 ≡ index_at virt 21)
      × (index_at (at_page virt k b) 12 ≡ index_at virt 12 + k)
      × (at_page virt k b % 4096 ≡ b)
indices virt k b h fits = (omega arith, omega arith, omega arith, omega arith, omega arith)

pub translate_by :
    (m : Words) (pml4 v : ℕ) {t3 t2 t1 page : ℕ}
    → next_table m pml4 (index_at v 39) ≡ some t3
    → next_table m t3 (index_at v 30) ≡ some t2
    → next_table m t2 (index_at v 21) ≡ some t1
    → frame m t1 (index_at v 12) ≡ some page
    → translate m pml4 v ≡ some (page + v % 4096)
unfolding translate
translate_by m pml4 v e3 e2 e1 e = rw (e3, e2, e1, e) refl

module _ (zero_mem : Words → ℕ → ℕ → Words) (keeps : Keeps zero_mem)
    (pml4 physical virt pages flags : ℕ) (s : PageState) (ready : IsReady zero_mem pml4 virt s)
    (fits : index_at virt 12 + pages ≤ 512) (aligned : physical % 4096 ≡ 0)
    (below : physical + pages * 4096 ≤ 2 ^ 52) (small : flags < 4096)
    (present : flags % 2 ≡ 1) where
  -- writing the page table leaves the three entries that lead to it
  lead_kept :
      (s' : PageState) (table index : ℕ)
      → ((a : ℕ)
          → ((k : ℕ)
              → 0 ≤ k
              → k < 0 + pages
              → a ≢ slot (step2 zero_mem pml4 virt s).1 (index_at virt 12 + k))
          → s'.words a ≡ (step2 zero_mem pml4 virt s).0.words a)
      → IsPage table
      → table ≢ (step2 zero_mem pml4 virt s).1
      → index < 512
      → next_table s'.words table index
        ≡ next_table (step2 zero_mem pml4 virt s).0.words table index
  lead_kept s' table index others p ne h =
      next_table_same s'.words (step2 zero_mem pml4 virt s).0.words table index (
        others (slot table index) (λ k lo hi.
          apart_slot_ne table (step2 zero_mem pml4 virt s).1 index (index_at virt 12 + k) p
            (led2 zero_mem pml4 virt s keeps ready).page ne h (omega (arith, fits))))

  -- what the processor reads once the page table is written
  mapped :
      (s' : PageState)
      → ((i : ℕ)
          → 0 ≤ i
          → i < 0 + pages
          → s'.words (slot (step2 zero_mem pml4 virt s).1 (index_at virt 12 + i))
            ≡ entry_for physical flags i)
      → ((a : ℕ)
          → ((k : ℕ)
              → 0 ≤ k
              → k < 0 + pages
              → a ≢ slot (step2 zero_mem pml4 virt s).1 (index_at virt 12 + k))
          → s'.words a ≡ (step2 zero_mem pml4 virt s).0.words a)
      → (k b : ℕ) → k < pages
      → b < 4096
      → translate s'.words pml4 (at_page virt k b) ≡ some (physical + k * 4096 + b)
  mapped s' entries others k b h hb =
      let r4 = led4 zero_mem pml4 virt s keeps ready in
      let r3 = led3 zero_mem pml4 virt s keeps ready in
      let r2 = led2 zero_mem pml4 virt s keeps ready in
      let (i39, i30, i21, i12, off) = indices virt k b hb (omega (arith, fits)) in
      let t3 = (step4 zero_mem pml4 virt s).1 in
      let t2 = (step3 zero_mem pml4 virt s).1 in
      let t1 = (step2 zero_mem pml4 virt s).1 in
      let page = physical + k * 4096 in
      let e3 : next_table s'.words pml4 (index_at (at_page virt k b) 39) ≡ some t3 =
        ap (next_table s'.words pml4) i39
        ∙ lead_kept s' pml4 (index_at virt 39) others ready.apart.first ready.apart.t41
            (omega arith)
        ∙ found4 zero_mem pml4 virt s keeps ready in
      let e2 : next_table s'.words t3 (index_at (at_page virt k b) 30) ≡ some t2 =
        ap (next_table s'.words t3) i30
        ∙ lead_kept s' t3 (index_at virt 30) others r4.page ready.apart.t31 (omega arith)
        ∙ found3 zero_mem pml4 virt s keeps ready in
      let e1 : next_table s'.words t2 (index_at (at_page virt k b) 21) ≡ some t1 =
        ap (next_table s'.words t2) i21
        ∙ lead_kept s' t2 (index_at virt 21) others r3.page ready.apart.t21 (omega arith)
        ∙ r2.found in
      let e : frame s'.words t1 (index_at (at_page virt k b) 12) ≡ some page =
        ap (frame s'.words t1) i12
        ∙ frame_entry s'.words t1 (index_at virt 12 + k) physical flags k
            (entries k (omega arith) (omega arith)) aligned (omega (arith, below)) small present in
      translate_by s'.words pml4 (at_page virt k b) e3 e2 e1 e ∙ ap (λ t. some (page + t)) off

  -- For a request inside one page table, `MapVirtualPages` returns, and the processor then translates every
  -- address of the virtual pages to the same place in the physical ones; outside the four tables of the walk
  -- no word changes. The physical pages are aligned and end by 2 ^ 52, the flags have bit 0 set and are below
  -- 4096, each level is ready and the four tables are different pages, and `ZeroMem` keeps what is outside its
  -- block.
  pub map_virtual_pages-translate :
      (fuel : ℕ)
      → (s' : PageState) × (map_virtual_pages zero_mem pml4 (suc fuel) physical virt pages flags s
          ≡ some s')
        × ((k b : ℕ)
            → k < pages
            → b < 4096
            → translate s'.words pml4 (at_page virt k b) ≡ some (physical + k * 4096 + b))
        × ((a : ℕ)
            → ¬ In pml4 a
            → ¬ In (step4 zero_mem pml4 virt s).1 a
            → ¬ In (step3 zero_mem pml4 virt s).1 a
            → ¬ In (step2 zero_mem pml4 virt s).1 a
            → s'.words a ≡ s.words a)
  unfolding map_virtual_pages find_table
  map_virtual_pages-translate fuel =
      let t1 = (step2 zero_mem pml4 virt s).1 in
      let page1 = (led2 zero_mem pml4 virt s keeps ready).page in
      let (s', run, entries, others) =
        write_entries_lem t1 (index_at virt 12) physical flags
          (λ i.
            map_virtual_pages zero_mem pml4 fuel ((physical + i * 4096) % 2 ^ 64)
              ((virt + i * 4096) % 2 ^ 64) (pages - i) flags)
          pages 0 (step2 zero_mem pml4 virt s).0 page1 (omega (arith, fits)) in
      (
        s',
        run,
        mapped s' entries others,
        λ a n4 n3 n2 n1.
            others a (λ k lo hi e. n1 (
              subst (In t1) (sym e)
                (slot-In t1 (index_at virt 12 + k) page1 (omega (arith, fits))).1))
            ∙ find_table_keeps zero_mem pml4 virt s keeps ready a n4 n3 n2 n1,
      )
