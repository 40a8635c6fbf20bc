-- ===== src/Boot/Image/Clean.antt =====
-- The pages that the search of `BootKernel` (src/bootloader/boot.c) ends at: they are allocated, and free.
use pious_os.Base.{ℕ, zero, suc, ◌-◌, ◌<◌, ◌≡◌, ◌≢◌, ◌⊎◌, inl, inr, Bool, true, ◌||◌, ◌==◌, arith}
use pious_os.Boot.Search.{not_found, is_success, no_address}
use pious_os.Boot.Image.Firmware.{Firmware, pure, checked}
use pious_os.Boot.Image.Post.{Post, Post-bind, Post-mono, Post-if, Post-checked, Post-always}
use pious_os.Boot.Image.Pages.{
  free_address, free_address_by_page, round_address, take_pages, take_easy_pages, is_zero, is_image,
  clean_pages, clean_pages_by_page, search_by_page,
}
use pious_os.Boot.Image.Onward.{Starts}
use pious_os.Boot.Image.Taken.{Allocated, take_pages-Allocated, take_easy_pages-Allocated}

module _ {F : Type 0} (fw : Firmware F) (pages bad : ℕ) where
  -- `AllocatePages` has just given the pages, and they are all zero or hold an image.
  abbrev pub Usable : ℕ → F → Type 0
  Usable address s =
      Allocated fw pages address s × ((is_zero fw pages address s || is_image fw address s) ≡ true)

  by_page-Allocated :
      (no_more : ℕ → Bool) (fuel address : ℕ) (s : F)
      → Post Unit
          (Allocated fw pages)
          (take_pages fw (free_address_by_page fw pages) no_more pages bad fuel not_found address s)
  unfolding is_success
  by_page-Allocated no_more fuel address s =
      let never : is_success not_found ≢ true = cc in
      Post-mono Unit _ _
        (take_pages fw (free_address_by_page fw pages) no_more pages bad fuel not_found address s)
        (λ a s' h. h.0)
        (take_pages-Allocated fw pages bad Unit (λ fuel address. Unit)
          (free_address_by_page fw pages) no_more (λ address h. h)
          (λ fuel status address s failed h.
            Post-always _ (round_address fw (free_address_by_page fw pages) bad status address s)
              (λ b s' e. tt))
          fuel not_found address s tt (λ e. absurd (never e)))

  clean_pages_by_page-Usable :
      (tries fuel address : ℕ) (s : F)
      → Allocated fw pages address s
      → Post Unit Usable (clean_pages_by_page fw tries pages bad fuel address s)
  unfolding clean_pages_by_page
  clean_pages_by_page-Usable tries zero address s h = tt
  clean_pages_by_page-Usable tries (suc fuel) address s h =
      Post-if Unit Usable (is_zero fw pages address s || is_image fw address s) (pure address) _ s
        (λ e. (h, e))
        (λ e. Post-bind Unit Usable (checked (fw.free_pages address pages)) _ s (
          Post-checked Unit _ (fw.free_pages address pages) s (λ good.
            let s1 = (fw.free_pages address pages s).1 in
            Post-bind Unit Usable
              (take_pages fw (free_address_by_page fw pages) (λ next. address == no_address) pages
                bad tries not_found address)
              _ s1
              (Post-mono Unit _ _
                (take_pages fw (free_address_by_page fw pages) (λ next. address == no_address) pages
                  bad tries not_found address s1)
                (λ next s2 given. clean_pages_by_page-Usable tries fuel next s2 given)
                (by_page-Allocated (λ next. address == no_address) tries address s1)))))

  module _ (starts : (s : F) → Starts (fw.map_calls s).0) where
    -- The loop of `clean_pages` ends at usable pages, or at the end of the memory.
    pub clean_pages-Usable :
        (tries fuel address : ℕ) (s : F)
        → no_address < tries
        → no_address - address < fuel
        → ((address ≡ no_address) ⊎ ((address < no_address) × Allocated fw pages address s))
        → Post ⊥
            (λ b s'. (b ≡ no_address) ⊎ Usable b s')
            (clean_pages fw tries pages bad fuel address s)
    unfolding clean_pages
    clean_pages-Usable tries zero address s many enough h = omega (arith, enough)
    clean_pages-Usable tries (suc fuel) address s many enough h =
        Post-if ⊥ _ (address == no_address || is_zero fw pages address s || is_image fw address s)
          (pure address) _ s (λ e. ground arith)
          (λ e. Post-bind ⊥ _ (checked (fw.free_pages address pages)) _ s (
            Post-checked ⊥ _ (fw.free_pages address pages) s (λ good.
              let s1 = (fw.free_pages address pages s).1 in
              Post-bind ⊥ _ (take_easy_pages fw pages bad tries not_found address) _ s1 (
                Post-mono ⊥ _ _ (take_easy_pages fw pages bad tries not_found address s1)
                  (λ next s2 given.
                    clean_pages-Usable tries fuel next s2 many (ground arith) (elim given [
                      | inl end ↦ inl end
                      | inr (more, less, fresh) ↦ inr (less, fresh)
                    ]))
                  (take_easy_pages-Allocated fw pages bad starts tries address s1
                    (omega (arith, many)) (ground arith))))))

  pub search_by_page-Usable :
      (fuel : ℕ) (s : F) → Post Unit Usable (search_by_page fw fuel pages bad s)
  unfolding search_by_page
  search_by_page-Usable fuel s = Post-bind Unit Usable (free_address fw pages 0) _ s (
      Post-always _ (free_address fw pages 0 s) (λ first s1.
        Post-bind Unit Usable
          (take_pages fw (free_address_by_page fw pages) (λ next. next == no_address) pages bad fuel
            not_found first)
          _ s1
          (Post-mono Unit _ _
            (take_pages fw (free_address_by_page fw pages) (λ next. next == no_address) pages bad
              fuel not_found first s1)
            (λ taken s2 given. clean_pages_by_page-Usable fuel fuel taken s2 given)
            (by_page-Allocated (λ next. next == no_address) fuel first s1))))
