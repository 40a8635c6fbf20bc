-- ===== src/Boot/Image/Taken.antt =====
-- The inner loops of the search for pages in `BootKernel` (src/bootloader/boot.c): what they end at, and that the
-- search by piece ends.
use pious_os.Base.{
  ℕ, zero, suc, ◌-◌, ◌≤◌, ◌<◌, ◌≡◌, ◌≢◌, refl, ap, ◌⊎◌, inl, inr, Bool, true, false, ◌||◌, ◌==◌,
  Bool-cases, arith,
}
use pious_os.Boot.Search.{Status, success, not_found, is_success, no_address}
use pious_os.Boot.Image.Firmware.{Firmware, Run, pure, return}
use pious_os.Boot.Image.Post.{Post, Post-bind, Post-mono, Post-if}
use pious_os.Boot.Image.Pages.{free_address, round_address, take_pages, take_easy_pages}
use pious_os.Boot.Image.Onward.{Behind, Starts, round_address-Behind}

pub is_success_iff : (status : Status) → is_success status ≡ true → status ≡ success
unfolding is_success
is_success_iff success h = refl
is_success_iff status h = cc

module _ {F : Type 0} (fw : Firmware F) (pages : ℕ) where
  -- `AllocatePages` has just given the pages at this address.
  abbrev pub Allocated : ℕ → F → Type 0
  Allocated address s = (before : F) × (fw.allocate_pages pages address before ≡ (success, s))

  -- The status is that of a call for this address.
  abbrev pub Asked : Status → ℕ → F → Type 0
  Asked status address s = is_success status ≡ true → Allocated address s

  pub asked :
      (address : ℕ) (s : F)
      → Asked (fw.allocate_pages pages address s).0 address (fw.allocate_pages pages address s).1
  asked address s h = (
    s,
    ap (λ t. (t, (fw.allocate_pages pages address s).1))
        (is_success_iff (fw.allocate_pages pages address s).0 h),
  )

module _ {F : Type 0} (fw : Firmware F) (pages bad : ℕ) where
  -- The pages are allocated, and the loop ends with fuel left.
  abbrev pub Left : (ℕ → ℕ → Type 0) → ℕ → F → Type 0
  Left Enough address s = Allocated fw pages address s × ((fuel : ℕ) × Enough fuel address)

  -- `Enough fuel address` is kept by a round, and excludes that the fuel is spent.
  pub take_pages-Allocated :
      (Stuck : Type 0) (Enough : ℕ → ℕ → Type 0) (find : ℕ → Run F ℕ) (no_more : ℕ → Bool)
      → ((address : ℕ) → Enough 0 address → Stuck)
      → ((fuel : ℕ) (status : Status) (address : ℕ) (s : F)
          → is_success status ≡ false
          → Enough (suc fuel) address
          → Post Stuck
              (λ b s'. no_more b ≡ false → Enough fuel b)
              (round_address fw find bad status address s))
      → (fuel : ℕ) (status : Status) (address : ℕ) (s : F) → Enough fuel address
      → Asked fw pages status address s
      → Post Stuck (Left Enough) (take_pages fw find no_more pages bad fuel status address s)
  unfolding take_pages
  take_pages-Allocated Stuck Enough find no_more none round zero status address s enough h =
      none address enough
  take_pages-Allocated Stuck Enough find no_more none round (suc fuel) status address s enough h =
      Post-if Stuck (Left Enough) (is_success status) (pure address) _ s
        (λ e. (h e, (suc fuel, enough)))
        (λ failed. Post-bind Stuck (Left Enough) (round_address fw find bad status address) _ s (
          Post-mono Stuck _ _ (round_address fw find bad status address s)
            (λ next s1 left.
              Post-if Stuck (Left Enough) (no_more next) (return status) _ s1 (λ e. tt)
                (λ e.
                  take_pages-Allocated Stuck Enough find no_more none round fuel
                    (fw.allocate_pages pages next s1).0 next (fw.allocate_pages pages next s1).1
                    (left e) (asked fw pages next s1)))
            (round fuel status address s failed enough)))

  module _ (starts : (s : F) → Starts (fw.map_calls s).0) where
    -- The loop of `take_easy_pages` ends above `low`, or at the end of the memory.
    take_easy_pages_from :
        (low fuel : ℕ) (status : Status) (address : ℕ) (s : F)
        → no_address - address < fuel
        → low ≤ address
        → address ≤ no_address
        → (is_success status ≡ true → Behind low address)
        → Asked fw pages status address s
        → Post ⊥
            (λ b s'. (b ≡ no_address) ⊎ ((low < b) × (b < no_address) × Allocated fw pages b s'))
            (take_easy_pages fw pages bad fuel status address s)
    unfolding take_easy_pages
    take_easy_pages_from low zero status address s enough above last strict h =
        omega (arith, enough)
    take_easy_pages_from low (suc fuel) status address s enough above last strict h =
        Post-if ⊥ _ (is_success status || address == no_address) (pure address) _ s
          (λ e. elim (Bool-cases (is_success status)) [
            | inl good ↦ elim (strict good) [
              | inl end ↦ inl end
              | inr (more, less) ↦ inr (more, less, h good)
            ]
            | inr failed ↦ inl (ground arith)
          ])
          (λ e. Post-bind ⊥ _ (round_address fw (free_address fw pages) bad status address) _ s (
            Post-mono ⊥ _ _ (round_address fw (free_address fw pages) bad status address s)
              (λ next s1 behind.
                let below : address < no_address = ground arith in
                let further : Behind low next = omega (arith, behind, above) in
                take_easy_pages_from low fuel (fw.allocate_pages pages next s1).0 next
                  (fw.allocate_pages pages next s1).1 (omega (arith, enough, behind, below))
                  (omega (arith, behind, above, last)) (omega (arith, behind)) (λ e'. further)
                  (asked fw pages next s1))
              (round_address-Behind fw starts pages bad status address s (ground arith))))

    pub take_easy_pages-Allocated :
        (fuel address : ℕ) (s : F)
        → no_address - address < fuel
        → address < no_address
        → Post ⊥
            (λ b s'.
              (b ≡ no_address) ⊎ ((address < b) × (b < no_address) × Allocated fw pages b s'))
            (take_easy_pages fw pages bad fuel not_found address s)
    unfolding is_success
    take_easy_pages-Allocated fuel address s enough below =
        let never : is_success not_found ≢ true = cc in
        take_easy_pages_from address fuel not_found address s enough (omega arith)
          (omega (arith, below)) (λ e. absurd (never e)) (λ e. absurd (never e))
