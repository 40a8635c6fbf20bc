-- ===== src/Boot/Paging/Words.antt =====
-- The entries of the page tables of src/bootloader/boot.c, and what the processor reads from them.
use pious_os.Base.{
  ℕ, ◌+◌, ◌*◌, ◌/◌, ◌%◌, ◌^◌, ◌≤◌, ◌<◌, ◌≡◌, ◌≢◌, refl, ◌∙◌, ◌⊎◌, inl, inr, false, ◌&&◌, Option,
  none, some, ◌==◌, if◌then◌else◌, ◌>>=◌, arith,
}
use Prim.Native.Nat.{bit_or}
use mathlib.Core.Path.{subst}
use pious_os.Base.Bits.{bit_or_page}
use pious_os.Boot.Paging.Tables.{
  Words, PageState, allocate, write, slot, page_of, descend, index_at,
}

-- The processor's walk. Bits 12 to 51 of an entry are an address, bit 0 says that it is present, and bit 7 of
-- an entry above the last level that it is a large page, which the walk does not follow here.
abbrev pub address_in : ℕ → ℕ
address_in e = e / 4096 % 2 ^ 40 * 4096

abbrev pub next_table : Words → ℕ → ℕ → Option ℕ
next_table m table index =
    let e = m (slot table index) in
    if e % 2 == 1 && e / 128 % 2 == 0 then some (address_in e) else none

abbrev pub frame : Words → ℕ → ℕ → Option ℕ
frame m table index =
    let e = m (slot table index) in if e % 2 == 1 then some (address_in e) else none

-- the physical address of a virtual one
unfoldable pub translate : Words → ℕ → ℕ → Option ℕ
translate m pml4 virt = do
  pml3 ← next_table m pml4 (index_at virt 39)
  pml2 ← next_table m pml3 (index_at virt 30)
  pml1 ← next_table m pml2 (index_at virt 21)
  page ← frame m pml1 (index_at virt 12)
  some (page + virt % 4096)

-- a page below 2 ^ 52
pub record IsPage (p : ℕ) : Type 0 where
  pub aligned : p % 4096 ≡ 0
  pub below : p < 2 ^ 52

-- `ZeroMem` changes no byte outside the block.
abbrev pub Keeps : (Words → ℕ → ℕ → Words) → Type 0
Keeps zero_mem = (m : Words) (p n a : ℕ) → (a < p) ⊎ (p + n ≤ a) → zero_mem m p n a ≡ m a

-- The entry is empty and the next allocation gives a page, or it leads to a table.
abbrev pub Ready : PageState → ℕ → ℕ → Type 0
Ready s table index =
    ((s.words (slot table index) ≡ 0) × IsPage (allocate s.allocations).0)
    ⊎ ((s.words (slot table index) % 2 ≡ 1)
        × (s.words (slot table index) / 128 % 2 ≡ 0)
        × (s.words (slot table index) < 2 ^ 52))

-- The address stands in the page.
abbrev pub In : ℕ → ℕ → Type 0
In p a = (p ≤ a) × (a < p + 4096)

pub slot-In :
    (table index : ℕ)
    → IsPage table
    → index < 512
    → (slot table index ≡ table + 8 * index) × In table (slot table index)
slot-In table index p h = (omega (arith, p.below), (omega (arith, p.below), omega (arith, p.below)))

pub write_same : (m : Words) (a v : ℕ) → write m a v a ≡ v
unfolding write
write_same m a v = ground arith

pub write_other : (m : Words) (a v b : ℕ) → b ≢ a → write m a v b ≡ m b
unfolding write
write_other m a v b ne = ground arith

new_entry : (p : ℕ) → IsPage p → bit_or (bit_or p 1) 2 ≡ p + 3
new_entry p h =
    let back : 4096 * (p / 4096) ≡ p = omega (arith, h.aligned) in
    subst (λ t. bit_or (bit_or t 1) 2 ≡ t + 3) back (bit_or_page (p / 4096))

-- One level leads to a page, which the processor finds too, and only the entry and that page change.
pub record Led (s s' : PageState) (table index next : ℕ) : Type 0 where
  pub page : IsPage next
  pub found : next_table s'.words table index ≡ some next
  pub kept :
      (a : ℕ) → a ≢ slot table index → (a < next) ⊎ (next + 4096 ≤ a) → s'.words a ≡ s.words a

present :
    (m : Words) (table index p : ℕ)
    → IsPage p
    → m (slot table index) ≡ p + 3
    → next_table m table index ≡ some p
present m table index p h e =
    let odd : (p + 3) % 2 ≡ 1 = omega (arith, h.aligned) in
    let small : (p + 3) / 128 % 2 ≡ 0 = omega (arith, h.aligned) in
    let address : address_in (p + 3) ≡ p = omega (arith, h.aligned, h.below) in
    rw (e, odd, small, address) refl

module _ (zero_mem : Words → ℕ → ℕ → Words) (keeps : Keeps zero_mem) where
  pub descend-Led :
      (s : PageState) (table index : ℕ)
      → Ready s table index
      → Led s (descend zero_mem table index s).0 table index (descend zero_mem table index s).1
  unfolding descend
  descend-Led s table index (inl (empty, p)) =
      let page = (allocate s.allocations).0 in
      let cleared = zero_mem s.words page 0x1000 in
      let value = bit_or (bit_or page 0x01) 0x02 in
      rw empty (record {
        page = p;
        found =
            present (write cleared (slot table index) value) table index page p
              (write_same cleared (slot table index) value ∙ new_entry page p);
        kept = λ a ne outside.
            write_other cleared (slot table index) value a ne ∙ keeps s.words page 0x1000 a outside;
      })
  descend-Led s table index (inr (odd, small, below)) =
      let nonzero : (s.words (slot table index) == 0) ≡ false = ground arith in
      let address : address_in (s.words (slot table index)) ≡ page_of (s.words (slot table index)) =
        omega arith in
      rw nonzero (record {
        page = omega arith;
        found = rw (odd, small, address) refl;
        kept = λ a ne outside. refl;
      })
