-- ===== src/Boot/Graphics/Screened.antt =====
-- The drivers' names that `InitUEFI_GOP` (src/bootloader/boot.c) gives to a graphics device.
use pious_os.Base.{
  ℕ, ◌≡◌, refl, ap, ◌⊎◌, inl, inr, Bool, true, false, Option, none, some, List, [], ◌∷◌, ◌==◌,
  if◌then◌else◌, ==_iff,
}
use pious_os.Boot.Search.{efi_error}
use pious_os.Boot.Image.Firmware.{Firmware, Run, pure, checked}
use pious_os.Boot.Image.Post.{Post, Post-bind, Post-mono, Post-if, Post-checked}
use pious_os.Boot.Graphics.Names.{Names, NameCalls, in_language, name_or, on_wall}
use pious_os.Boot.Graphics.Drivers.{
  excluded, is_excluded, controller_path, controller_names, path_names, go_on_with, unshamed_name,
  child_names, generic_names, controller_path_size, is_default, device_names,
}
use pious_os.Boot.Graphics.Answered.{name_or-Answered, in_language-Called}
use pious_os.Boot.Graphics.Credited.{both_true, controller_path_lem, path_names-FromOne}
use pious_os.Boot.Graphics.Managed.{Some, FromPath, is_excluded-Plain}

module _ {F : Type 0} (fw : Firmware F) (calls : NameCalls F) where
  -- The driver's name is the default one, or the test has not found it on the Wall of Shame.
  abbrev pub OffWall : ℕ → Type 0
  OffWall name =
      (name ≡ calls.default_names.driver)
      ⊎ ((s : F) × (on_wall calls.str_size (fw.memory s) calls.wall name ≡ false))

  module _ (graphics path : ℕ) (drivers : List ℕ) where
    abbrev OffWallIfSome : Option ℕ → Type 0
    OffWallIfSome none = Unit
    OffWallIfSome (some name) = OffWall name

    picked :
        (b : Bool) (name : ℕ)
        → (b ≡ false → OffWall name)
        → OffWallIfSome (if b then none else some name)
    picked true name h = tt
    picked false name h = h refl

    unshamed_name-OffWall :
        (driver : ℕ) (s : F)
        → Post ⊥ (λ name s'. OffWallIfSome name) (unshamed_name fw calls driver s)
    unfolding unshamed_name
    unshamed_name-OffWall driver s = Post-bind ⊥ _ (checked (calls.open_name2 driver)) _ s (
        Post-checked ⊥ _ (calls.open_name2 driver) s (λ e.
          let s1 = (calls.open_name2 driver s).1 in
          let get = calls.driver_name driver in
          Post-bind ⊥ _ (in_language get) _ s1 (
            Post-mono ⊥ _ _ (in_language get s1)
              (λ answer s2 h.
                Post-if ⊥ _ (efi_error answer.0) (pure (some calls.default_names.driver)) _ s2
                  (λ bad. inl refl)
                  (λ good.
                    picked (on_wall calls.str_size (fw.memory s2) calls.wall answer.1) answer.1
                      (λ off. inr (s2, off))))
              (in_language-Called get s1))))

    controller_names-OffWall :
        (controller driver name : ℕ) (s : F)
        → OffWall name
        → Post ⊥
            (λ names s'. OffWall names.driver)
            (controller_names fw calls graphics controller driver name s)
    unfolding controller_names
    controller_names-OffWall controller driver name s h =
        let parent = calls.controller_name driver controller none in
        let child = calls.controller_name driver controller (some graphics) in
        Post-bind ⊥ _ (name_or calls.default_names.controller parent) _ s (
          Post-mono ⊥ _ _ (name_or calls.default_names.controller parent s)
            (λ n1 s1 h1. Post-bind ⊥ _ (name_or calls.default_names.child child) _ s1 (
              Post-mono ⊥ _ _ (name_or calls.default_names.child child s1) (λ n2 s2 h2. h)
                (name_or-Answered child calls.default_names.child s1)))
            (name_or-Answered parent calls.default_names.controller s))

    go_on_with-OffWall :
        (name : Option ℕ) (shamed : Run F Names) (found : ℕ → Run F Names) (s : F)
        → OffWallIfSome name
        → Post ⊥ (λ names s'. OffWall names.driver) (shamed s)
        → ((name : ℕ) → OffWall name → Post ⊥ (λ names s'. OffWall names.driver) (found name s))
        → Post ⊥ (λ names s'. OffWall names.driver) (go_on_with name shamed found s)
    go_on_with-OffWall none shamed found s off h h' = h
    go_on_with-OffWall (some name) shamed found s off h h' = h' name off

    child_names-OffWall :
        (controller : ℕ) (drivers : List ℕ) (names : Names) (s : F)
        → OffWall names.driver
        → Post ⊥
            (λ names s'. OffWall names.driver)
            (child_names fw calls graphics controller drivers names s)
    unfolding child_names
    child_names-OffWall controller [] names s h = h
    child_names-OffWall controller (driver ∷ drivers) names s h =
        Post-bind ⊥ _ (unshamed_name fw calls driver) _ s (
          Post-mono ⊥ _ _ (unshamed_name fw calls driver s)
            (λ name s1 off.
              go_on_with-OffWall name _ _ s1 off
                (child_names-OffWall controller drivers
                  (record names { driver = calls.default_names.driver }) s1 (inl refl))
                (λ name h'.
                  Post-bind ⊥ _ (controller_names fw calls graphics controller driver name) _ s1 (
                    Post-mono ⊥ _ _ (controller_names fw calls graphics controller driver name s1)
                      (λ found s2 h2.
                        Post-if ⊥ _ (found.child == calls.default_names.child)
                          (child_names fw calls graphics controller drivers found) (pure found) s2
                          (λ e. child_names-OffWall controller drivers found s2 h2) (λ e. h2))
                      (controller_names-OffWall controller driver name s1 h'))))
            (unshamed_name-OffWall driver s))

    generic_names-OffWall :
        (controllers : List ℕ) (names : Names) (s : F)
        → OffWall names.driver
        → Post ⊥
            (λ names s'. OffWall names.driver)
            (generic_names fw calls graphics path drivers controllers names s)
    unfolding generic_names
    generic_names-OffWall [] names s h = h
    generic_names-OffWall (controller ∷ controllers) names s h =
        Post-bind ⊥ _ (is_excluded fw calls excluded controller) _ s (
          Post-mono ⊥ _ _ (is_excluded fw calls excluded controller s)
            (λ skipped s1 plain.
              Post-if ⊥ _ skipped (generic_names fw calls graphics path drivers controllers names) _
                s1 (λ e. generic_names-OffWall controllers names s1 h)
                (λ e. Post-bind ⊥ _ (controller_path fw calls controller) _ s1 (
                  Post-mono ⊥ _ _ (controller_path fw calls controller s1)
                    (λ candidate s2 opened.
                      Post-if ⊥ _ (calls.match_paths s2 candidate path) _
                        (generic_names fw calls graphics path drivers controllers names) s2
                        (λ e'.
                          Post-bind ⊥ _ (child_names fw calls graphics controller drivers names) _
                            s2
                            (Post-mono ⊥ _ _
                              (child_names fw calls graphics controller drivers names s2)
                              (λ found s3 h3.
                                Post-if ⊥ _ (found.child == calls.default_names.child)
                                  (generic_names fw calls graphics path drivers controllers found)
                                  (pure found) s3
                                  (λ e2. generic_names-OffWall controllers found s3 h3) (λ e2. h3))
                              (child_names-OffWall controller drivers names s2 h)))
                        (λ e'. generic_names-OffWall controllers names s2 h))
                    (controller_path_lem fw calls controller s1))))
            (is_excluded-Plain fw calls excluded controller s))

    is_default-driver :
        (names : Names)
        → is_default fw calls names ≡ true
        → names.driver ≡ calls.default_names.driver
    unfolding is_default
    is_default-driver names e = (==_iff _ _).0 (both_true _ _ (both_true _ _ e).1).0

    -- The names of a graphics device are those of a driver that manages a controller on its path, or they are
    -- the default ones, or the driver's name is the default one or not on the Wall of Shame.
    pub device_names_lem :
        (controllers : List ℕ) (s : F)
        → Post ⊥
            (λ names s'.
              Some
                (FromPath calls graphics path (controller_path_size fw calls path s) drivers names)
                controllers
              ⊎ OffWall names.driver)
            (device_names fw calls graphics path drivers controllers s)
    unfolding device_names
    device_names_lem controllers s =
        let size = controller_path_size fw calls path s in
        Post-bind ⊥ _ (path_names fw calls graphics path size drivers controllers) _ s (
          Post-mono ⊥ _ _ (path_names fw calls graphics path size drivers controllers s)
            (λ names s1 h.
              Post-if ⊥ _ (is_default fw calls names)
                (generic_names fw calls graphics path drivers controllers names) (pure names) s1
                (λ e.
                  Post-mono ⊥ _ _
                    (generic_names fw calls graphics path drivers controllers names s1)
                    (λ found s2 off. inr off)
                    (generic_names-OffWall controllers names s1 (inl (is_default-driver names e))))
                (λ e. elim h [
                  | inl d ↦ inr (inl (ap (λ (n : Names). n.driver) d))
                  | inr found ↦ inl found
                ]))
            (path_names-FromOne fw calls graphics path drivers size controllers s))
