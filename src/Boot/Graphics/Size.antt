-- ===== src/Boot/Graphics/Size.antt =====
-- The search of `InitUEFI_GOP` (src/bootloader/boot.c) for the mode of 1024 by 768.
use pious_os.Base.{
  ℕ, zero, suc, ◌+◌, ◌≤◌, ◌<◌, ◌≡◌, refl, sym, ◌⊎◌, inl, inr, Bool, true, false, ◌&&◌, ◌==◌,
  if◌then◌else◌, Bool-cases, ==_iff, arith,
}
use mathlib.Core.Path.{subst}
use pious_os.Boot.Image.Firmware.{Firmware, pure, checked}
use pious_os.Boot.Image.Post.{Post, Post-bind, Post-mono, Post-if, Post-checked}
use pious_os.Boot.Graphics.Modes.{GraphicsCalls, ModeInformation, query, find_mode, mode_1024}

module _ {F : Type 0} (fw : Firmware F) (gop : GraphicsCalls F) (device : ℕ)
    (info : ℕ → ModeInformation)
    (answers : (mode : ℕ) (s : F) → (gop.query_mode device mode s).0.1 ≡ info mode) where
  abbrev pub is_1024 : ℕ → Bool
  is_1024 mode = (info mode).horizontal_resolution == 1024 && (info mode).vertical_resolution == 768

  query_answers : (mode : ℕ) (s : F) → Post ⊥ (λ a s'. a ≡ info mode) (query fw gop device mode s)
  unfolding query
  query_answers mode s =
      let answer = (gop.query_mode device mode s).0 in
      let s1 = (gop.query_mode device mode s).1 in
      Post-bind ⊥ _ (checked (λ s. (answer.0, s))) _ s1 (
        Post-checked ⊥ _ (λ s. (answer.0, s)) s1
          (λ good.
            Post-bind ⊥ _ (checked (fw.free_pool answer.2)) _ s1
              (Post-checked ⊥ _ (fw.free_pool answer.2) s1 (λ good'. answers mode s))))

  -- The search stops at the first mode of this size among `rounds` from `mode` on, or behind them.
  abbrev pub Stops : ℕ → ℕ → ℕ → Type 0
  Stops mode rounds found =
      (found ≤ mode + rounds)
      × ((k : ℕ) → mode ≤ k → k < found → is_1024 k ≡ false)
      × ((found ≡ mode + rounds) ⊎ ((found < mode + rounds) × (is_1024 found ≡ true)))

  find_mode-Stops :
      (rounds mode : ℕ) (s : F)
      → Post ⊥ (λ found s'. Stops mode rounds found) (find_mode fw gop device rounds mode s)
  unfolding find_mode
  find_mode-Stops zero mode s =
      (omega arith, λ k lo hi. absurd (omega (arith, lo, hi)), inl (omega arith))
  find_mode-Stops (suc rounds) mode s = Post-bind ⊥ _ (query fw gop device mode) _ s (
      Post-mono ⊥ _ _ (query fw gop device mode s)
        (λ a s1 same.
          Post-if ⊥ _ (a.horizontal_resolution == 1024 && a.vertical_resolution == 768) (pure mode)
            (find_mode fw gop device rounds (mode + 1)) s1
            (λ e. (
              omega arith,
              λ k lo hi. absurd (omega (arith, lo, hi)),
              inr (
                omega arith,
                subst
                    (λ i. (i.horizontal_resolution == 1024 && i.vertical_resolution == 768) ≡ true)
                    same e,
              ),
            ))
            (λ e.
              Post-mono ⊥ _ _ (find_mode fw gop device rounds (mode + 1) s1)
                (λ found s2 (within, others, end). (
                  omega (arith, within),
                  λ k lo hi. elim (Bool-cases (k == mode)) [
                    | inl here ↦
                        subst (λ k. is_1024 k ≡ false) (sym ((==_iff k mode).0 here))
                          (subst
                            (λ i.
                              (i.horizontal_resolution == 1024 && i.vertical_resolution == 768)
                              ≡ false)
                            same e)
                    | inr later ↦ others k (ground arith) hi
                  ],
                  elim end [
                    | inl last ↦ inl (omega (arith, last))
                    | inr (below, size) ↦ inr (omega (arith, below), size)
                  ],
                ))
                (find_mode-Stops rounds (mode + 1) s1)))
        (query_answers mode s))

  -- the first mode of this size of `count`, or the mode 0 if there is none
  abbrev pub First : ℕ → ℕ → Type 0
  First count mode =
      ((mode < count) × (is_1024 mode ≡ true) × ((k : ℕ) → k < mode → is_1024 k ≡ false))
      ⊎ ((mode ≡ 0) × ((k : ℕ) → k < count → is_1024 k ≡ false))

  First-is_1024 :
      (count found : ℕ) → Stops 0 count found → First count (if found == count then 0 else found)
  First-is_1024 count found (within, others, end) = elim (Bool-cases (found == count)) [
    | inl e ↦
        rw e
          (inr (refl, λ k h. others k (omega arith) (omega (arith, h, (==_iff found count).0 e))))
    | inr e ↦
        let size : is_1024 found ≡ true = elim end [
          | inl last ↦ absurd (ground arith)
          | inr (below, size) ↦ size
        ] in
        rw e (inl (ground arith, size, λ k h. others k (omega arith) h))
  ]

  -- Where `QueryMode` answers the same for a mode each time, the search returns from `InitUEFI_GOP`, or chooses
  -- the first mode of 1024 by 768; it chooses mode 0 if the device has none.
  pub mode_1024_lem :
      (s : F) → Post ⊥ (λ mode s'. First (gop.max_mode device) mode) (mode_1024 fw gop device s)
  unfolding mode_1024
  mode_1024_lem s =
      let count = gop.max_mode device in
      Post-bind ⊥ _ (find_mode fw gop device count 0) _ s (
        Post-mono ⊥ _ _ (find_mode fw gop device count 0 s)
          (λ found s1 h. First-is_1024 count found h) (find_mode-Stops count 0 s))
