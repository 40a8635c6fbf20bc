-- ===== src/Boot/FirstFit.antt =====
-- `ActuallyFreeAddress` of src/bootloader/boot.c finds the first piece of memory with room.
use pious_os.Base.{
  ℕ, ◌≤◌, ◌<◌, ◌≡◌, refl, ap, ◌⊎◌, inl, inr, Bool, true, false, not, ◌&&◌, List, [], ◌∷◌, ◌++◌, All,
  if◌then◌else◌, arith, Bool-cases,
}
use pious_os.Kernel.Memory.Map.{Descriptor, MemoryType, conventional_memory}
use pious_os.Boot.Search.{
  MapCalls, success, buffer_too_small, efi_error, with_map, no_address, is_conventional, has_room,
  find_piece, actually_free_address,
}

-- The map is in memory: the first call gave it, or the room for it was too small and both later calls
-- succeeded.
abbrev pub answered : MapCalls → Bool
answered calls = elim calls.first_call [
  | success ↦ true
  | buffer_too_small ↦ not (efi_error calls.allocation) && not (efi_error calls.second_call)
  | status ↦ false
]

pub with_map-answered :
    (calls : MapCalls) (found : List Descriptor → ℕ)
    → with_map calls found ≡ (if answered calls then found calls.mem_map else no_address)
unfolding with_map
with_map-answered calls found = ground (arith)

is_conventional-eq : (type : MemoryType) → is_conventional type ≡ true → type ≡ conventional_memory
unfolding is_conventional
is_conventional-eq conventional_memory h = refl
is_conventional-eq type h = cc

conventional_is : (type : MemoryType) → type ≡ conventional_memory → is_conventional type ≡ true
unfolding is_conventional
conventional_is type e = rw e refl

module _ (pages old_address : ℕ) where
  -- Conventional memory with at least the pages, behind the old address.
  abbrev pub HasRoom : Descriptor → Type 0
  HasRoom d =
      (d.type ≡ conventional_memory)
      × (pages ≤ d.number_of_pages)
      × (old_address < d.physical_start)

  -- the first piece with room, or none with room and no address
  abbrev pub FirstRoom : List Descriptor → ℕ → Type 0
  FirstRoom map v =
      ((before : List Descriptor) × (piece : Descriptor) × (after : List Descriptor) × (map
          ≡ before ++ (piece ∷ after))
        × All (λ d. ¬ HasRoom d) before
        × HasRoom piece
        × (v ≡ piece.physical_start))
      ⊎ (All (λ d. ¬ HasRoom d) map × (v ≡ no_address))

  has_room-HasRoom : (d : Descriptor) → has_room pages old_address d ≡ true → HasRoom d
  has_room-HasRoom d e =
      let type : is_conventional d.type ≡ true = ground arith in
      (is_conventional-eq d.type type, ground arith, ground arith)

  has_room-none : (d : Descriptor) → has_room pages old_address d ≡ false → ¬ HasRoom d
  has_room-none d e (type, enough, behind) =
      let conventional = conventional_is d.type type in ground arith

  find_piece-FirstRoom : (map : List Descriptor) → FirstRoom map (find_piece pages old_address map)
  unfolding find_piece
  find_piece-FirstRoom [] = inr (tt, refl)
  find_piece-FirstRoom (piece ∷ map) = elim (Bool-cases (has_room pages old_address piece)) [
    | inl e ↦ inl ([], piece, map, refl, tt, has_room-HasRoom piece e, rw e refl)
    | inr e ↦ elim (find_piece-FirstRoom map) [
      | inl (before, d, after, split, none, room, v) ↦ inl (
        piece ∷ before,
        d,
        after,
        ap (λ t. piece ∷ t) split,
        (has_room-none piece e, none),
        room,
        rw e v,
      )
      | inr (none, v) ↦ inr ((has_room-none piece e, none), rw e v)
    ]
  ]

  -- Where the firmware gives its map, `ActuallyFreeAddress` returns the start of the first piece of
  -- conventional memory that has the pages and starts behind the old address, or 2 ^ 64 - 1 if there is none.
  -- Where a call fails it returns 2 ^ 64 - 1.
  pub actually_free_address_lem :
      (calls : MapCalls)
      → ((answered calls ≡ true)
          × FirstRoom calls.mem_map (actually_free_address calls pages old_address))
        ⊎ ((answered calls ≡ false) × (actually_free_address calls pages old_address ≡ no_address))
  unfolding actually_free_address
  actually_free_address_lem calls =
      let run = with_map-answered calls (find_piece pages old_address) in
      elim (Bool-cases (answered calls)) [
        | inl e ↦ inl (e, rw (run, e) (find_piece-FirstRoom calls.mem_map))
        | inr e ↦ inr (e, rw (run, e) refl)
      ]
