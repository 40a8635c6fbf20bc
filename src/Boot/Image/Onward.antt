-- ===== src/Boot/Image/Onward.antt =====
-- The search by piece of `BootKernel` (src/bootloader/boot.c) goes on to higher addresses.
use pious_os.Base.{
  ℕ, ◌^◌, ◌<◌, ◌≡◌, refl, ◌⊎◌, inl, inr, true, false, ◌==◌, Bool-cases, arith, All, List, [], ◌∷◌,
}
use pious_os.Kernel.Memory.Map.{Descriptor}
use pious_os.Boot.Search.{
  Status, success, not_found, efi_error, is_success, no_address, MapCalls, has_room, find_piece,
  actually_free_address,
}
use pious_os.Boot.FirstFit.{answered, with_map-answered}
use pious_os.Boot.Image.Firmware.{Firmware, pure}
use pious_os.Boot.Image.Post.{Post, Post-bind, Post-mono, Post-if}
use pious_os.Boot.Image.Pages.{free_address, next_address, round_address}

-- `b` is behind `a`, or the end of the search.
abbrev pub Behind : ℕ → ℕ → Type 0
Behind a b = (b ≡ no_address) ⊎ ((a < b) × (b < no_address))

-- The pieces of memory start at 64-bit addresses.
abbrev pub Starts : MapCalls → Type 0
Starts calls = All (λ d. d.physical_start < 2 ^ 64) calls.mem_map

room_above : (pages a : ℕ) (d : Descriptor) → has_room pages a d ≡ true → a < d.physical_start
room_above pages a d h = ground arith

find_piece-Behind :
    (pages a : ℕ) (map : List Descriptor)
    → All (λ d. d.physical_start < 2 ^ 64) map
    → Behind a (find_piece pages a map)
unfolding find_piece
find_piece-Behind pages a [] h = inl refl
find_piece-Behind pages a (piece ∷ map) (h, rest) = elim (Bool-cases (has_room pages a piece)) [
  | inl e ↦ rw e (omega (arith, h, room_above pages a piece e))
  | inr e ↦ rw e (find_piece-Behind pages a map rest)
]

actually_free_address-Behind :
    (calls : MapCalls) (pages a : ℕ) → Starts calls → Behind a (actually_free_address calls pages a)
unfolding actually_free_address
actually_free_address-Behind calls pages a h =
    let run = with_map-answered calls (find_piece pages a) in
    elim (Bool-cases (answered calls)) [
      | inl e ↦ rw (run, e) (find_piece-Behind pages a calls.mem_map h)
      | inr e ↦ rw (run, e) (inl refl)
    ]

module _ {F : Type 0} (fw : Firmware F) (starts : (s : F) → Starts (fw.map_calls s).0)
    (pages : ℕ) where
  free_address-Behind : (a : ℕ) (s : F) → Post ⊥ (λ b s'. Behind a b) (free_address fw pages a s)
  unfolding free_address
  free_address-Behind a s = actually_free_address-Behind (fw.map_calls s).0 pages a (starts s)

  next_address-Behind :
      (bad a : ℕ) (s : F)
      → Post ⊥ (λ b s'. Behind a b) (next_address fw (free_address fw pages) bad a s)
  unfolding next_address
  next_address-Behind bad a s =
      Post-bind ⊥ (λ b s'. Behind a b) (free_address fw pages a) _ s
        (Post-mono ⊥ _ _ (free_address fw pages a s)
          (λ next s' h.
            Post-if ⊥ _ (next == bad) (free_address fw pages next) (pure next) s'
              (λ e.
                Post-mono ⊥ _ _ (free_address fw pages next s') (λ b s'' h'. omega (arith, h, h'))
                  (free_address-Behind next s'))
              (λ e. h))
          (free_address-Behind a s))

  pub round_address-Behind :
      (bad : ℕ) (status : Status) (a : ℕ) (s : F)
      → is_success status ≡ false
      → Post ⊥ (λ b s'. Behind a b) (round_address fw (free_address fw pages) bad status a s)
  unfolding round_address is_success efi_error
  round_address-Behind bad not_found a s h = next_address-Behind bad a s
  round_address-Behind bad success a s h = cc
  round_address-Behind bad status a s h = tt
