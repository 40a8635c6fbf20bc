-- ===== src/Boot/Paging/Kept.antt =====
-- The addresses that `MapVirtualPages` (src/bootloader/boot.c) leaves as they are mapped.
use pious_os.Base.{
  ℕ, suc, ◌+◌, ◌-◌, ◌*◌, ◌%◌, ◌^◌, ◌≤◌, ◌<◌, ◌≡◌, ◌≢◌, sym, ap, ◌∙◌, none, some, ◌==◌,
  if◌then◌else◌, arith,
}
use pious_os.Boot.Paging.Tables.{Words, PageState, slot, index_at, find_table, map_virtual_pages}
use pious_os.Boot.Paging.Words.{IsPage, Keeps, next_table, frame, address_in, translate}
use pious_os.Boot.Paging.Entries.{slot_ne, apart_slot, apart_slot_ne, write_entries_lem}
use pious_os.Boot.Paging.Found.{next_table_same, step4, step3, step2, IsReady, led4, led3, led2}
use pious_os.Boot.Paging.Mapped.{translate_by}

module _ (zero_mem : Words → ℕ → ℕ → Words) (keeps : Keeps zero_mem) (pml4 virt : ℕ) (s : PageState)
    (ready : IsReady zero_mem pml4 virt s) where
  -- a page that is none of the four tables of the walk
  pub record Other (p : ℕ) : Type 0 where
    pub page : IsPage p
    pub p4 : p ≢ pml4
    pub p3 : p ≢ (step4 zero_mem pml4 virt s).1
    pub p2 : p ≢ (step3 zero_mem pml4 virt s).1
    pub p1 : p ≢ (step2 zero_mem pml4 virt s).1

  module _ (physical pages flags : ℕ) (fits : index_at virt 12 + pages ≤ 512) (s' : PageState)
      (others : (a : ℕ)
        → ((k : ℕ)
            → 0 ≤ k
            → k < 0 + pages
            → a ≢ slot (step2 zero_mem pml4 virt s).1 (index_at virt 12 + k))
        → s'.words a ≡ (step2 zero_mem pml4 virt s).0.words a) where
    -- the entries of the top table but the one of the walk
    top_kept :
        (index : ℕ)
        → index < 512
        → index ≢ index_at virt 39
        → s'.words (slot pml4 index) ≡ s.words (slot pml4 index)
    top_kept index h ne =
        let r4 = led4 zero_mem pml4 virt s keeps ready in
        let r3 = led3 zero_mem pml4 virt s keeps ready in
        let r2 = led2 zero_mem pml4 virt s keeps ready in
        let t = ready.apart in
        others (slot pml4 index) (λ k lo hi.
          apart_slot_ne pml4 (step2 zero_mem pml4 virt s).1 index (index_at virt 12 + k) t.first
            r2.page t.t41 h (omega (arith, hi, fits)))
        ∙ r2.kept (slot pml4 index)
            (apart_slot_ne pml4 (step3 zero_mem pml4 virt s).1 index (index_at virt 21) t.first
              r3.page t.t42 h (omega arith))
            (apart_slot pml4 (step2 zero_mem pml4 virt s).1 index t.first r2.page t.t41 h)
        ∙ r3.kept (slot pml4 index)
            (apart_slot_ne pml4 (step4 zero_mem pml4 virt s).1 index (index_at virt 30) t.first
              r4.page t.t43 h (omega arith))
            (apart_slot pml4 (step3 zero_mem pml4 virt s).1 index t.first r3.page t.t42 h)
        ∙ r4.kept (slot pml4 index)
            (slot_ne pml4 index (index_at virt 39) t.first h (omega arith) ne)
            (apart_slot pml4 (step4 zero_mem pml4 virt s).1 index t.first r4.page t.t43 h)

    -- the entries of other tables
    entries_kept :
        (p index : ℕ) → Other p → index < 512 → s'.words (slot p index) ≡ s.words (slot p index)
    entries_kept p index o h =
        let r4 = led4 zero_mem pml4 virt s keeps ready in
        let r3 = led3 zero_mem pml4 virt s keeps ready in
        let r2 = led2 zero_mem pml4 virt s keeps ready in
        others (slot p index) (λ k lo hi.
          apart_slot_ne p (step2 zero_mem pml4 virt s).1 index (index_at virt 12 + k) o.page r2.page
            o.p1 h (omega (arith, hi, fits)))
        ∙ r2.kept (slot p index)
            (apart_slot_ne p (step3 zero_mem pml4 virt s).1 index (index_at virt 21) o.page r3.page
              o.p2 h (omega arith))
            (apart_slot p (step2 zero_mem pml4 virt s).1 index o.page r2.page o.p1 h)
        ∙ r3.kept (slot p index)
            (apart_slot_ne p (step4 zero_mem pml4 virt s).1 index (index_at virt 30) o.page r4.page
              o.p3 h (omega arith))
            (apart_slot p (step3 zero_mem pml4 virt s).1 index o.page r3.page o.p2 h)
        ∙ r4.kept (slot p index)
            (apart_slot_ne p pml4 index (index_at virt 39) o.page ready.apart.first o.p4 h
              (omega arith))
            (apart_slot p (step4 zero_mem pml4 virt s).1 index o.page r4.page o.p3 h)

  -- For a request inside one page table, `MapVirtualPages` keeps the translation of the addresses of every other
  -- entry of the top table, where the walk to them goes through three other pages. Each level is ready and
  -- the four tables are different pages, and `ZeroMem` keeps what is outside its block.
  pub map_virtual_pages-descend :
      (fuel physical pages flags v u3 u2 u1 page : ℕ)
      → index_at virt 12 + pages ≤ 512
      → index_at v 39 ≢ index_at virt 39
      → Other u3
      → Other u2
      → Other u1
      → next_table s.words pml4 (index_at v 39) ≡ some u3
      → next_table s.words u3 (index_at v 30) ≡ some u2
      → next_table s.words u2 (index_at v 21) ≡ some u1
      → frame s.words u1 (index_at v 12) ≡ some page
      → (s' : PageState) × (map_virtual_pages zero_mem pml4 (suc fuel) physical virt pages flags s
          ≡ some s')
        × (translate s'.words pml4 v ≡ translate s.words pml4 v)
  unfolding map_virtual_pages find_table
  map_virtual_pages-descend fuel physical pages flags v u3 u2 u1 page fits ne o3 o2 o1 e3 e2 e1 e =
      let t1 = (step2 zero_mem pml4 virt s).1 in
      let (s', run, entries, others) =
        write_entries_lem t1 (index_at virt 12) physical flags
          (λ i.
            map_virtual_pages zero_mem pml4 fuel ((physical + i * 4096) % 2 ^ 64)
              ((virt + i * 4096) % 2 ^ 64) (pages - i) flags)
          pages 0 (step2 zero_mem pml4 virt s).0 (led2 zero_mem pml4 virt s keeps ready).page
          (omega (arith, fits)) in
      let kept = λ (p index : ℕ) (o : Other p) (h : index < 512).
        entries_kept physical pages flags fits s' others p index o h in
      (
        s',
        run,
        translate_by s'.words pml4 v
              (next_table_same s'.words s.words pml4 (index_at v 39)
                  (top_kept physical pages flags fits s' others (index_at v 39) (omega arith) ne)
                ∙ e3)
              (next_table_same s'.words s.words u3 (index_at v 30)
                  (kept u3 (index_at v 30) o3 (omega arith))
                ∙ e2)
              (next_table_same s'.words s.words u2 (index_at v 21)
                  (kept u2 (index_at v 21) o2 (omega arith))
                ∙ e1)
              (ap (λ w. if w % 2 == 1 then some (address_in w) else none)
                  (kept u1 (index_at v 12) o1 (omega arith))
                ∙ e)
            ∙ sym (translate_by s.words pml4 v e3 e2 e1 e),
      )
