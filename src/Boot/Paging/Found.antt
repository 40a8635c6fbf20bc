-- ===== src/Boot/Paging/Found.antt =====
-- The walk of `MapVirtualPages` (src/bootloader/boot.c) to the page table, as the processor reads it.
use pious_os.Base.{ℕ, ◌/◌, ◌%◌, ◌≡◌, sym, ap, ◌∙◌, none, some, ◌==◌, if◌then◌else◌, arith, ◌&&◌}
use mathlib.Core.Path.{subst}
use pious_os.Boot.Paging.Tables.{Words, PageState, slot, descend, index_at}
use pious_os.Boot.Paging.Words.{Keeps, Ready, In, Led, next_table, address_in, slot-In, descend-Led}
use pious_os.Boot.Paging.Entries.{Apart, outside, apart_slot, apart_slot_ne}

pub next_table_same :
    (m m' : Words) (table index : ℕ)
    → m (slot table index) ≡ m' (slot table index)
    → next_table m table index ≡ next_table m' table index
next_table_same m m' table index e =
    ap (λ e. if e % 2 == 1 && e / 128 % 2 == 0 then some (address_in e) else none) e

module _ (zero_mem : Words → ℕ → ℕ → Words) (pml4 virt : ℕ) (s : PageState) where
  -- the steps of `find_table`
  abbrev pub step4 : PageState × ℕ
  step4 = descend zero_mem pml4 (index_at virt 39) s

  abbrev pub step3 : PageState × ℕ
  step3 = descend zero_mem step4.1 (index_at virt 30) step4.0

  abbrev pub step2 : PageState × ℕ
  step2 = descend zero_mem step3.1 (index_at virt 21) step3.0

  -- Each level is ready as the walk reaches it, and its tables are different pages.
  pub record IsReady : Type 0 where
    pub ready4 : Ready s pml4 (index_at virt 39)
    pub ready3 : Ready step4.0 step4.1 (index_at virt 30)
    pub ready2 : Ready step3.0 step3.1 (index_at virt 21)
    pub apart : Apart pml4 step4.1 step3.1 step2.1

  module _ (keeps : Keeps zero_mem) (r : IsReady) where
    pub led4 : Led s step4.0 pml4 (index_at virt 39) step4.1
    led4 = descend-Led zero_mem keeps s pml4 (index_at virt 39) r.ready4

    pub led3 : Led step4.0 step3.0 step4.1 (index_at virt 30) step3.1
    led3 = descend-Led zero_mem keeps step4.0 step4.1 (index_at virt 30) r.ready3

    pub led2 : Led step3.0 step2.0 step3.1 (index_at virt 21) step2.1
    led2 = descend-Led zero_mem keeps step3.0 step3.1 (index_at virt 21) r.ready2

    -- the entries that the walk to the page table reads
    pub found4 : next_table step2.0.words pml4 (index_at virt 39) ≡ some step4.1
    found4 =
        next_table_same step2.0.words step4.0.words pml4 (index_at virt 39) (
          led2.kept (slot pml4 (index_at virt 39))
            (apart_slot_ne pml4 step3.1 _ _ r.apart.first led3.page r.apart.t42 (omega arith)
              (omega arith))
            (apart_slot pml4 step2.1 _ r.apart.first led2.page r.apart.t41 (omega arith))
          ∙ led3.kept (slot pml4 (index_at virt 39))
              (apart_slot_ne pml4 step4.1 _ _ r.apart.first led4.page r.apart.t43 (omega arith)
                (omega arith))
              (apart_slot pml4 step3.1 _ r.apart.first led3.page r.apart.t42 (omega arith)))
        ∙ led4.found

    pub found3 : next_table step2.0.words step4.1 (index_at virt 30) ≡ some step3.1
    found3 =
        next_table_same step2.0.words step3.0.words step4.1 (index_at virt 30) (
          led2.kept (slot step4.1 (index_at virt 30))
            (apart_slot_ne step4.1 step3.1 _ _ led4.page led3.page r.apart.t32 (omega arith)
              (omega arith))
            (apart_slot step4.1 step2.1 _ led4.page led2.page r.apart.t31 (omega arith)))
        ∙ led3.found

    -- what is outside the four tables is kept
    pub find_table_keeps :
        (a : ℕ)
        → ¬ In pml4 a
        → ¬ In step4.1 a
        → ¬ In step3.1 a
        → ¬ In step2.1 a
        → step2.0.words a ≡ s.words a
    find_table_keeps a n4 n3 n2 n1 =
        led2.kept a
          (λ e. n2 (
            subst (In step3.1) (sym e)
              (slot-In step3.1 (index_at virt 21) led3.page (omega arith)).1))
          (outside step2.1 a n1)
        ∙ led3.kept a
            (λ e. n3 (
              subst (In step4.1) (sym e)
                (slot-In step4.1 (index_at virt 30) led4.page (omega arith)).1))
            (outside step3.1 a n2)
        ∙ led4.kept a
            (λ e. n4 (
              subst (In pml4) (sym e)
                (slot-In pml4 (index_at virt 39) r.apart.first (omega arith)).1))
            (outside step4.1 a n3)
