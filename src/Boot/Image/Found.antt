-- ===== src/Boot/Image/Found.antt =====
-- `BootKernel` (src/bootloader/boot.c) finds pages for the kernel's image.
use pious_os.Base.{ℕ, ◌-◌, ◌^◌, ◌≤◌, ◌<◌, ◌≡◌, refl, ◌⊎◌, inl, inr, true, false, ◌||◌, ◌==◌, arith}
use pious_os.Boot.Search.{Status, success, efi_error, is_success, no_address}
use pious_os.Boot.Image.Firmware.{Firmware, out_of_fuel, pure, checked}
use pious_os.Boot.Image.Post.{
  Post, Post-bind, Post-mono, Post-if, Post-checked, Post-stuck, Post-more,
}
use pious_os.Boot.Image.Pages.{
  free_address, round_address, take_pages, byte_count, is_zero, is_image, clean_pages,
  search_by_page, discover_pages, first_choice, image_pages,
}
use pious_os.Boot.Image.Onward.{Starts, round_address-Behind}
use pious_os.Boot.Image.Taken.{Allocated, Asked, asked, take_pages-Allocated}
use pious_os.Boot.Image.Clean.{Usable, clean_pages-Usable, search_by_page-Usable}

no_error : (status : Status) → efi_error status ≡ false → is_success status ≡ true
unfolding efi_error is_success
no_error success h = refl
no_error status h = cc

module _ {F : Type 0} (fw : Firmware F) (fuel pages : ℕ) where
  -- The search by page runs on.
  abbrev pub RunsOn : Type 0
  RunsOn = (s : F) × ((search_by_page fw fuel pages first_choice s).0 ≡ out_of_fuel)

  -- The pages are all zero or hold an image, and `AllocatePages` gave them, at most before they were cleared.
  abbrev pub Given : ℕ → F → Type 0
  Given address s =
      ((is_zero fw pages address s || is_image fw address s) ≡ true)
      × ((s1 : F) × Allocated fw pages address s1
          × ((s ≡ s1) ⊎ (s ≡ fw.zero_mem address (byte_count pages) s1)))

module _ {F : Type 0} (fw : Firmware F) (starts : (s : F) → Starts (fw.map_calls s).0)
    (fuel pages : ℕ) (enough : 2 ^ 64 ≤ fuel) where
  abbrev Enough : ℕ → ℕ → Type 0
  Enough fuel address = (no_address - address < fuel) × (address < no_address)

  -- The first loop of the search ends, at pages that are allocated.
  first_loop :
      (status : Status) (s : F)
      → Asked fw pages status 0 s
      → Post ⊥
          (λ a s'. (a ≡ no_address) ⊎ ((a < no_address) × Allocated fw pages a s'))
          (take_pages fw
            (free_address fw pages)
            (λ next. next == no_address)
            pages
            first_choice
            fuel
            status
            0
            s)
  first_loop status s h =
      Post-mono ⊥ _ _
        (take_pages fw (free_address fw pages) (λ next. next == no_address) pages first_choice fuel
          status 0 s)
        (λ a s' (given, (left, (room, below))). inr (below, given))
        (take_pages-Allocated fw pages first_choice ⊥ Enough (free_address fw pages)
          (λ next. next == no_address) (λ address (room, below). omega (arith, room))
          (λ fuel status address s failed (room, below).
            Post-mono ⊥ _ _ (round_address fw (free_address fw pages) first_choice status address s)
              (λ b s' behind e. (ground arith, ground arith))
              (round_address-Behind fw starts pages first_choice status address s failed))
          fuel status 0 s (omega (arith, enough), omega arith) h)

  discover_pages-Usable :
      (s : F)
      → Post
          (RunsOn fw fuel pages)
          (Usable fw pages first_choice)
          (discover_pages fw fuel pages first_choice s)
  unfolding discover_pages
  discover_pages-Usable s =
      Post-bind (RunsOn fw fuel pages) _ (checked (fw.free_pages first_choice pages)) _ s (
        Post-checked (RunsOn fw fuel pages) _ (fw.free_pages first_choice pages) s (λ good.
          let s1 = (fw.free_pages first_choice pages s).1 in
          let s2 = (fw.allocate_pages pages 0 s1).1 in
          let status = (fw.allocate_pages pages 0 s1).0 in
          Post-bind (RunsOn fw fuel pages) _
            (take_pages fw (free_address fw pages) (λ next. next == no_address) pages first_choice
              fuel status 0)
            _ s2
            (Post-mono (RunsOn fw fuel pages) _ _
              (take_pages fw (free_address fw pages) (λ next. next == no_address) pages first_choice
                fuel status 0 s2)
              (λ taken s3 given.
                Post-bind (RunsOn fw fuel pages) _
                  (clean_pages fw fuel pages first_choice fuel taken) _ s3
                  (Post-mono (RunsOn fw fuel pages) _ _
                    (clean_pages fw fuel pages first_choice fuel taken s3)
                    (λ clean s4 usable.
                      Post-if (RunsOn fw fuel pages) _ (clean == no_address)
                        (search_by_page fw fuel pages first_choice) (pure clean) s4
                        (λ e.
                          Post-stuck (Usable fw pages first_choice)
                            (search_by_page fw fuel pages first_choice) s4
                            (search_by_page-Usable fw pages first_choice fuel s4))
                        (λ e. elim usable [ inl end ↦ absurd (ground arith) | inr good ↦ good ]))
                    (Post-more (RunsOn fw fuel pages) _
                      (clean_pages fw fuel pages first_choice fuel taken s3)
                      (clean_pages-Usable fw pages first_choice starts fuel fuel taken s3
                        (omega (arith, enough)) (omega (arith, enough)) given))))
              (Post-more (RunsOn fw fuel pages) _
                (take_pages fw (free_address fw pages) (λ next. next == no_address) pages
                  first_choice fuel status 0 s2)
                (first_loop status s2 (asked fw pages 0 s1))))))

  -- With fuel from 2 ^ 64 on, the search for the image's pages returns from `BootKernel`, or ends at pages that
  -- `AllocatePages` gave, and that `VerifyZeroMem` finds empty or that start with an ELF magic; only its search
  -- by page may run on. The firmware's pieces of memory start at 64-bit addresses.
  pub image_pages_lem :
      (s : F) → Post (RunsOn fw fuel pages) (Given fw fuel pages) (image_pages fw fuel pages s)
  unfolding image_pages
  image_pages_lem s =
      Post-bind (RunsOn fw fuel pages) (Given fw fuel pages)
        (checked (fw.allocate_pages pages first_choice)) _ s
        (Post-checked (RunsOn fw fuel pages) _ (fw.allocate_pages pages first_choice) s (λ good.
          let s1 = (fw.allocate_pages pages first_choice s).1 in
          let s2 = fw.zero_mem first_choice (byte_count pages) s1 in
          Post-if (RunsOn fw fuel pages) (Given fw fuel pages)
            (is_zero fw pages first_choice s2 || is_image fw first_choice s2) (pure first_choice)
            (discover_pages fw fuel pages first_choice) s2
            (λ e. (
              e,
              (
                s1,
                asked fw pages first_choice s
                    (no_error (fw.allocate_pages pages first_choice s).0 good),
                inr refl,
              ),
            ))
            (λ e.
              Post-mono (RunsOn fw fuel pages) _ _ (discover_pages fw fuel pages first_choice s2)
                (λ a s3 (given, free). (free, (s3, given, inl refl))) (discover_pages-Usable s2))))
