-- ===== src/Boot/Graphics/Credited.antt =====
-- The controllers on whose paths `InitUEFI_GOP` (src/bootloader/boot.c) finds the names of a graphics device.
use pious_os.Base.{
  ℕ, ◌≡◌, refl, sym, ap, ◌∙◌, ◌⊎◌, inl, inr, Bool, true, false, List, [], ◌∷◌, ◌==◌, ◌&&◌, ==_iff,
}
use pious_os.Boot.Image.Firmware.{Firmware, checked}
use pious_os.Boot.Image.Post.{Post, Post-bind, Post-mono, Post-if, Post-checked}
use pious_os.Boot.Graphics.Names.{Names, NameCalls}
use pious_os.Boot.Graphics.Drivers.{
  excluded, is_excluded, controller_path, managed_names, path_names,
}
use pious_os.Boot.Graphics.Managed.{Some, OnPath, FromPath, is_excluded-Plain, managed_names_lem}

pub both_true : (a b : Bool) → (a && b) ≡ true → (a ≡ true) × (b ≡ true)
both_true true b h = (refl, h)
both_true false b h = cc

module _ {F : Type 0} (fw : Firmware F) (calls : NameCalls F) where
  -- Where it goes on, the controller's path is that of a call.
  pub controller_path_lem :
      (controller : ℕ) (s : F)
      → Post ⊥
          (λ path s'. (found : F) × (path ≡ (calls.open_device_path controller found).0.1))
          (controller_path fw calls controller s)
  unfolding controller_path
  controller_path_lem controller s =
      let answer = (calls.open_device_path controller s).0 in
      let s1 = (calls.open_device_path controller s).1 in
      Post-bind ⊥ _ (checked (λ s. (answer.0, s))) _ s1
        (Post-checked ⊥ _ (λ s. (answer.0, s)) s1 (λ e. (s, refl)))

  module _ (graphics path : ℕ) (drivers : List ℕ) where
    -- The names of a driver that manages a controller on the device's path, or the default ones.
    abbrev pub FromOne : ℕ → List ℕ → Names → Type 0
    FromOne size controllers names =
        (names ≡ calls.default_names)
        ⊎ Some (FromPath calls graphics path size drivers names) controllers

    on_path :
        (size controller candidate : ℕ) (s : F)
        → (found : F) × (candidate ≡ (calls.open_device_path controller found).0.1)
        → (calls.device_path_size s candidate == size && calls.match_paths s candidate path) ≡ true
        → OnPath calls path size controller
    on_path size controller candidate s (found, e) h =
        let (sized, matched) = both_true _ _ h in
        (
          s,
          found,
          ap (calls.device_path_size s) (sym e) ∙ (==_iff _ size).0 sized,
          ap (λ p. calls.match_paths s p path) (sym e) ∙ matched,
        )

    pub path_names-FromOne :
        (size : ℕ) (controllers : List ℕ) (s : F)
        → Post ⊥
            (λ names s'. FromOne size controllers names)
            (path_names fw calls graphics path size drivers controllers s)
    unfolding path_names
    path_names-FromOne size [] s = inl refl
    path_names-FromOne size (controller ∷ controllers) s =
        let later = λ (s : F).
          Post-mono ⊥ _ (λ names s'. FromOne size (controller ∷ controllers) names)
            (path_names fw calls graphics path size drivers controllers s)
            (λ names s' rest. elim rest [ inl d ↦ inl d | inr found ↦ inr (inr found) ])
            (path_names-FromOne size controllers s) in
        Post-bind ⊥ _ (is_excluded fw calls excluded controller) _ s (
          Post-mono ⊥ _ _ (is_excluded fw calls excluded controller s)
            (λ skipped s1 plain.
              Post-if ⊥ _ skipped (path_names fw calls graphics path size drivers controllers) _ s1
                (λ e. later s1)
                (λ e. Post-bind ⊥ _ (controller_path fw calls controller) _ s1 (
                  Post-mono ⊥ _ _ (controller_path fw calls controller s1)
                    (λ candidate s2 opened.
                      let matched =
                        calls.device_path_size s2 candidate == size
                        && calls.match_paths s2 candidate path in
                      Post-if ⊥ _ matched (managed_names fw calls graphics controller drivers)
                        (path_names fw calls graphics path size drivers controllers) s2
                        (λ e'.
                          Post-mono ⊥ _ _ (managed_names fw calls graphics controller drivers s2)
                            (λ names s3 found. elim found [
                              | inl d ↦ inl d
                              | inr those ↦ inr (
                                  inl (
                                    plain e,
                                    on_path size controller candidate s2 opened e',
                                    those,
                                  ))
                            ])
                            (managed_names_lem fw calls graphics controller drivers s2))
                        (λ e'. later s2))
                    (controller_path_lem controller s1))))
            (is_excluded-Plain fw calls excluded controller s))
