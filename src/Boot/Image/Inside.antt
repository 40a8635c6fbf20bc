-- ===== src/Boot/Image/Inside.antt =====
-- The segments of the kernel's ELF file lie inside the pages that `BootKernel` (src/bootloader/boot.c) asks for.
use pious_os.Base.{
  ℕ, ◌+◌, ◌-◌, ◌*◌, ◌%◌, ◌^◌, ◌≤◌, ◌<◌, ◌≡◌, sym, inl, inr, true, false, ◌==◌, for_range_inv,
  Bool-cases, ==_iff, arith,
}
use mathlib.Core.Path.{subst}
use pious_os.Boot.Search.{no_address}
use pious_os.Boot.Image.Segments.{
  p_type, p_vaddr, p_memsz, header_at, pt_load, bound, bounds, section_address,
}

module _ (m : ℕ → ℕ) (table : ℕ) where
  -- The program header `i` is that of a loadable segment.
  abbrev pub Loadable : ℕ → Type 0
  Loadable i = p_type m (header_at table i) ≡ pt_load

  abbrev pub start_of : ℕ → ℕ
  start_of i = p_vaddr m (header_at table i)

  abbrev pub end_of : ℕ → ℕ
  end_of i = start_of i + p_memsz m (header_at table i)

  -- the bounds of the first `count` headers
  abbrev pub Bounds : ℕ → ℕ × ℕ → Type 0
  Bounds count limits =
      ((i : ℕ) → i < count → Loadable i → (end_of i ≤ limits.0) × (limits.1 ≤ start_of i))
      × (limits.0 < 2 ^ 64)

  skipped :
      (i at : ℕ)
      → (i == at) ≡ true
      → Loadable i
      → ¬ ((p_type m (header_at table at) == pt_load) ≡ false)
  skipped i at same l e =
      let here : Loadable at = subst Loadable ((==_iff i at).0 same) l in ground arith

  bound-Bounds :
      (at : ℕ) (limits : ℕ × ℕ)
      → (Loadable at → end_of at < 2 ^ 64)
      → Bounds at limits
      → Bounds (at + 1) (bound m table at limits)
  unfolding bound
  bound-Bounds at (virt_size, virt_min) ends (held, below) =
      elim (Bool-cases (p_type m (header_at table at) == pt_load)) [
        | inl e ↦
            let loadable = (==_iff (p_type m (header_at table at)) pt_load).0 e in
            let here : (end_of at ≤ (bound m table at (virt_size, virt_min)).0)
                × ((bound m table at (virt_size, virt_min)).1 ≤ start_of at)
                × (virt_size ≤ (bound m table at (virt_size, virt_min)).0)
                × ((bound m table at (virt_size, virt_min)).1 ≤ virt_min)
                × ((bound m table at (virt_size, virt_min)).0 < 2 ^ 64) =
              ground arith in
            (
              λ i h l. elim (Bool-cases (i == at)) [
                | inl same ↦
                    subst
                      (λ j.
                        (end_of j ≤ (bound m table at (virt_size, virt_min)).0)
                        × ((bound m table at (virt_size, virt_min)).1 ≤ start_of j))
                      (sym ((==_iff i at).0 same)) (here.0, here.1)
                | inr other ↦ omega (arith, here.2, here.3, held i (ground arith) l)
              ],
              here.4,
            )
        | inr e ↦ rw e (
          λ i h l. elim (Bool-cases (i == at)) [
            | inl same ↦ absurd (skipped i at same l e)
            | inr other ↦ held i (ground arith) l
          ],
          below,
        )
      ]

  pub bounds-Bounds :
      (count : ℕ)
      → ((i : ℕ) → i < count → Loadable i → end_of i < 2 ^ 64)
      → Bounds count (bounds m table count)
  unfolding bounds
  bounds-Bounds count ends =
      for_range_inv Bounds (bound m table) count count 0 (0, no_address) (omega arith)
        (λ at now lo hi held. bound-Bounds at now (ends at hi) held)
        ((λ i h l. absurd (omega (arith, h))), omega arith)

-- Where the first header is that of the loadable segment with the lowest address, and none of the segments
-- passes the end of the 64-bit addresses, each loadable segment lies inside the pages of the image, with what
-- it has in memory. `EFI_SIZE_TO_PAGES` rounds up, and the pages end inside the 64-bit addresses.
pub section_address-bounds :
    (m : ℕ → ℕ) (table count allocated i : ℕ) (size_to_pages : ℕ → ℕ)
    → ((n : ℕ) → n ≤ size_to_pages n * 4096)
    → 0 < count
    → Loadable m table 0
    → ((j : ℕ)
        → j < count
        → Loadable m table j
        → (start_of m table 0 ≤ start_of m table j) × (end_of m table j < 2 ^ 64))
    → allocated
        + size_to_pages (((bounds m table count).0 + 2 ^ 64 - (bounds m table count).1) % 2 ^ 64)
          * 4096
      < 2 ^ 64
    → i < count
    → Loadable m table i
    → (allocated ≤ section_address m table allocated i)
      × (section_address m table allocated i + p_memsz m (header_at table i)
          ≤ allocated
            + size_to_pages
                (((bounds m table count).0 + 2 ^ 64 - (bounds m table count).1) % 2 ^ 64)
              * 4096)
section_address-bounds m table count allocated i size_to_pages round some first segments fits h l =
    let (held, below) = bounds-Bounds m table count (λ j hj lj. (segments j hj lj).1) in
    let (end0, min0) = held 0 some first in
    let (endi, mini) = held i h l in
    let (low, last) = segments i h l in
    let room = round (((bounds m table count).0 + 2 ^ 64 - (bounds m table count).1) % 2 ^ 64) in
    let size : ((bounds m table count).0 + 2 ^ 64 - (bounds m table count).1) % 2 ^ 64
        ≡ (bounds m table count).0 - (bounds m table count).1 =
      omega (arith, below, end0, min0) in
    let distance : (start_of m table i + 2 ^ 64 - start_of m table 0) % 2 ^ 64
        ≡ start_of m table i - start_of m table 0 =
      omega (arith, low, last) in
    omega (arith, room, size, distance, endi, mini, low, last, fits, min0)
