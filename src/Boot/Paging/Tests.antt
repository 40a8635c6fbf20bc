-- ===== src/Boot/Paging/Tests.antt =====
-- Instances of the theorems on `MapVirtualPages`.
use pious_os.Base.{
  ◌==◌, ℕ, ◌+◌, ◌*◌, ◌<◌, ◌≡◌, refl, inl, inr, ◌&&◌, Option, none, some, [], ◌∷◌, ltb, leb,
  if◌then◌else◌, arith,
}
use pious_os.Boot.Paging.Tables.{
  Words, PageState, allocate, write, descend, find_table, write_entries, map_virtual_pages,
}
use pious_os.Boot.Paging.Words.{IsPage, Keeps, In, translate}
use pious_os.Boot.Paging.Found.{step4, step3, step2, IsReady}
use pious_os.Boot.Paging.Mapped.{at_page, map_virtual_pages-translate}
use pious_os.Boot.Paging.Kept.{Other, map_virtual_pages-descend}
use pious_os.Boot.Paging.Ends.{map_virtual_pages-write_entries}

abbrev clear : Words → ℕ → ℕ → Words
clear m p n a = if leb p a && ltb a (p + n) then 0 else m a

clear-Keeps : Keeps clear
clear-Keeps m p n a (inl h) = ground arith
clear-Keeps m p n a (inr h) = ground arith

-- empty tables, at 0x1000, and three pages for new ones
abbrev empty_tables : PageState
empty_tables = record { words = λ a. 0; allocations = 0x2000 ∷ 0x3000 ∷ 0x4000 ∷ [] }

-- three pages, the second page of the second GiB on
abbrev virt : ℕ
virt = 0x4000_1000

empty_tables-IsReady : IsReady clear 0x1000 virt empty_tables
unfolding descend allocate write
empty_tables-IsReady = record {
  ready4 = inl (refl, record { aligned = refl; below = omega arith });
  ready3 = inl (refl, record { aligned = refl; below = omega arith });
  ready2 = inl (refl, record { aligned = refl; below = omega arith });
  apart = record {
    first = record { aligned = refl; below = omega arith };
    t43 = λ e. absurd (omega (arith, e));
    t42 = λ e. absurd (omega (arith, e));
    t41 = λ e. absurd (omega (arith, e));
    t32 = λ e. absurd (omega (arith, e));
    t31 = λ e. absurd (omega (arith, e));
    t21 = λ e. absurd (omega (arith, e));
  };
}

map_virtual_pages-translate_example :
    (s' : PageState) × (map_virtual_pages clear 0x1000 1 0x10_0000 virt 3 3 empty_tables ≡ some s')
    × ((k b : ℕ)
        → k < 3
        → b < 4096
        → translate s'.words 0x1000 (at_page virt k b) ≡ some (0x10_0000 + k * 4096 + b))
    × ((a : ℕ)
        → ¬ In 0x1000 a
        → ¬ In (step4 clear 0x1000 virt empty_tables).1 a
        → ¬ In (step3 clear 0x1000 virt empty_tables).1 a
        → ¬ In (step2 clear 0x1000 virt empty_tables).1 a
        → s'.words a ≡ empty_tables.words a)
map_virtual_pages-translate_example =
    map_virtual_pages-translate clear clear-Keeps 0x1000 0x10_0000 virt 3 3 empty_tables
      empty_tables-IsReady (omega arith) refl (omega arith) (omega arith) refl 0

map_virtual_pages-write_entries_example :
    (s' : PageState) × (map_virtual_pages clear 0x1000 3 0x10_0000 0x1f_f000 2 3 empty_tables
      ≡ some s')
map_virtual_pages-write_entries_example =
    map_virtual_pages-write_entries clear 0x1000 3 0x10_0000 0x1f_f000 2 3 empty_tables
      (omega arith)

abbrev six_pages : PageState
six_pages = record { words = λ a. 0; allocations = 0x2000 ∷ 0x3000 ∷ 0x4000 ∷ 0x6000 ∷ [] }

abbrev word_behind : Option PageState → ℕ
word_behind none = 0
word_behind (some s) = s.words 0x5000

-- Two pages from the last one of a page table on: the second entry is also written behind the table, at 0x5000,
-- which `AllocatePages` did not give.
behind_table :
    word_behind (map_virtual_pages clear 0x1000 3 0x10_0000 0x1f_f000 2 3 six_pages) ≡ 0x10_1003
unfolding map_virtual_pages find_table descend allocate write write_entries
behind_table = refl

-- The second entry of the top table leads through three tables to the page 0x20_0000.
abbrev used_tables : PageState
used_tables = record {
  words = λ a.
      if a == 0x1008
      then 0x8003
      else if a == 0x8000
      then 0x9003
      else if a == 0x9000
      then 0xa003
      else if a == 0xa000
      then 0x20_0003
      else 0;
  allocations = 0x2000 ∷ 0x3000 ∷ 0x4000 ∷ [];
}

used_tables-IsReady : IsReady clear 0x1000 virt used_tables
unfolding descend allocate write
used_tables-IsReady = record {
  ready4 = inl (refl, record { aligned = refl; below = omega arith });
  ready3 = inl (refl, record { aligned = refl; below = omega arith });
  ready2 = inl (refl, record { aligned = refl; below = omega arith });
  apart = record {
    first = record { aligned = refl; below = omega arith };
    t43 = λ e. absurd (omega (arith, e));
    t42 = λ e. absurd (omega (arith, e));
    t41 = λ e. absurd (omega (arith, e));
    t32 = λ e. absurd (omega (arith, e));
    t31 = λ e. absurd (omega (arith, e));
    t21 = λ e. absurd (omega (arith, e));
  };
}

high_page :
    (p : ℕ)
    → IsPage p
    → 0x5000 < p
    → Other clear clear-Keeps 0x1000 virt used_tables used_tables-IsReady p
unfolding descend allocate write
high_page p page h = record {
  page = page;
  p4 = λ e. absurd (omega (arith, h, e));
  p3 = λ e. absurd (omega (arith, h, e));
  p2 = λ e. absurd (omega (arith, h, e));
  p1 = λ e. absurd (omega (arith, h, e));
}

map_virtual_pages-descend_example :
    (s' : PageState) × (map_virtual_pages clear 0x1000 1 0x10_0000 virt 3 3 used_tables ≡ some s')
    × (translate s'.words 0x1000 0x80_0000_0123 ≡ translate used_tables.words 0x1000 0x80_0000_0123)
map_virtual_pages-descend_example =
    map_virtual_pages-descend clear clear-Keeps 0x1000 virt used_tables used_tables-IsReady 0
      0x10_0000 3 3 0x80_0000_0123 0x8000 0x9000 0xa000 0x20_0000 (omega arith) (omega arith)
      (high_page 0x8000 (record { aligned = refl; below = omega arith }) (omega arith))
      (high_page 0x9000 (record { aligned = refl; below = omega arith }) (omega arith))
      (high_page 0xa000 (record { aligned = refl; below = omega arith }) (omega arith)) refl refl
      refl refl
