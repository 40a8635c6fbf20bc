-- ===== src/Boot/Room.antt =====
-- `ActuallyFreeAddressByPage` of src/bootloader/boot.c moves on, and its pages are free.
use pious_os.Base.{
  ℕ, ◌+◌, ◌*◌, ◌^◌, ◌≤◌, ◌<◌, ◌≡◌, refl, sym, ap, ◌∙◌, ◌⊎◌, inl, inr, true, false, none, some, List,
  [], ◌∷◌, ◌++◌, All, arith, Bool-cases, Option-cases,
}
use mathlib.Core.Path.{subst}
use pious_os.Kernel.Memory.Map.{Descriptor}
use pious_os.Boot.Search.{
  MapCalls, no_address, is_conventional, discovered, find_page, actually_free_address_by_page,
}
use pious_os.Boot.FirstFit.{answered, with_map-answered}

-- The piece ends inside the 64-bit addresses.
abbrev pub Ends : Descriptor → Type 0
Ends d = d.physical_start + d.number_of_pages * 4096 < 2 ^ 64

-- `pages` pages from `v` on are conventional memory of the piece, behind the old address.
abbrev pub Inside : ℕ → ℕ → Descriptor → ℕ → Type 0
Inside pages old_address d v =
    (is_conventional d.type ≡ true)
    × (old_address < v)
    × (d.physical_start ≤ v)
    × (v + pages * 4096 ≤ d.physical_start + d.number_of_pages * 4096)

discovered-Inside :
    (pages old_address : ℕ) (d : Descriptor) (v : ℕ)
    → 0 < pages
    → old_address + pages * 4096 < 2 ^ 64
    → Ends d
    → discovered pages old_address d ≡ some v
    → Inside pages old_address d v
unfolding discovered
discovered-Inside pages old_address d v p q ends e = ground arith

module _ (pages old_address : ℕ) (some_pages : 0 < pages)
    (below : old_address + pages * 4096 < 2 ^ 64) where
  -- The address lies in a piece of the map, or no piece gives one.
  abbrev pub Page : List Descriptor → ℕ → Type 0
  Page map v =
      ((before : List Descriptor) × (piece : Descriptor) × (after : List Descriptor) × (map
          ≡ before ++ (piece ∷ after))
        × All (λ d. discovered pages old_address d ≡ none) before
        × Inside pages old_address piece v)
      ⊎ (All (λ d. discovered pages old_address d ≡ none) map × (v ≡ no_address))

  find_page_next :
      (piece : Descriptor) (map : List Descriptor)
      → discovered pages old_address piece ≡ none
      → find_page pages old_address (piece ∷ map) ≡ find_page pages old_address map
  unfolding find_page
  find_page_next piece map e = rw e refl

  find_page_here :
      (piece : Descriptor) (map : List Descriptor) {v : ℕ}
      → discovered pages old_address piece ≡ some v
      → find_page pages old_address (piece ∷ map) ≡ v
  unfolding find_page
  find_page_here piece map e = rw e refl

  find_page-Page :
      (map : List Descriptor) → All Ends map → Page map (find_page pages old_address map)
  unfolding find_page
  find_page-Page [] ends = inr (tt, refl)
  find_page-Page (piece ∷ map) (ends, rest) =
      elim (Option-cases (discovered pages old_address piece)) [
        | inl e ↦ elim (find_page-Page map rest) [
          | inl (before, d, after, split, passed, inside) ↦ inl (
            piece ∷ before,
            d,
            after,
            ap (λ t. piece ∷ t) split,
            (e, passed),
            subst (Inside pages old_address d) (sym (find_page_next piece map e)) inside,
          )
          | inr (passed, v) ↦ inr ((e, passed), find_page_next piece map e ∙ v)
        ]
        | inr (v, e) ↦ inl (
          [],
          piece,
          map,
          refl,
          tt,
          subst (Inside pages old_address piece) (sym (find_page_here piece map e))
              (discovered-Inside pages old_address piece v some_pages below ends e),
        )
      ]

  -- Where the firmware gives its map, `ActuallyFreeAddressByPage` returns an address behind the old one, from
  -- which the pages lie inside one piece of conventional memory, or 2 ^ 64 - 1 if no piece gives an address;
  -- the pieces before that one give none. Where a call fails it returns 2 ^ 64 - 1. The pages are not none,
  -- and neither they nor the pieces pass the end of the 64-bit addresses.
  pub actually_free_address_by_page_lem :
      (calls : MapCalls)
      → All Ends calls.mem_map
      → ((answered calls ≡ true)
          × Page calls.mem_map (actually_free_address_by_page calls pages old_address))
        ⊎ ((answered calls ≡ false)
            × (actually_free_address_by_page calls pages old_address ≡ no_address))
  unfolding actually_free_address_by_page
  actually_free_address_by_page_lem calls ends =
      let run = with_map-answered calls (find_page pages old_address) in
      elim (Bool-cases (answered calls)) [
        | inl e ↦ inl (e, rw (run, e) (find_page-Page calls.mem_map ends))
        | inr e ↦ inr (e, rw (run, e) refl)
      ]
