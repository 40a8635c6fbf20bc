-- ===== src/Boot/Graphics/Managed.antt =====
-- The drivers that `InitUEFI_GOP` (src/bootloader/boot.c) asks for names, and what they answer.
use pious_os.Base.{ℕ, ◌≡◌, refl, ◌⊎◌, inl, inr, true, false, none, some, List, [], ◌∷◌}
use pious_os.Boot.Search.{Status, already_started, efi_error}
use pious_os.Boot.Image.Firmware.{Firmware, pure, checked}
use pious_os.Boot.Image.Post.{Post, Post-bind, Post-mono, Post-if, Post-checked}
use pious_os.Boot.Graphics.Names.{Names, NameCalls, Protocol, name_or, is_already_started}
use pious_os.Boot.Graphics.Answered.{Answered, name_or-Answered}
use pious_os.Boot.Graphics.Drivers.{excluded, is_excluded, manages, controller_names, managed_names}

-- one of the items satisfies `P`
abbrev pub Some : (ℕ → Type 0) → List ℕ → Type 0
Some P [] = ⊥
Some P (x ∷ xs) = P x ⊎ Some P xs

is_already_started_iff :
    (status : Status) → is_already_started status ≡ true → status ≡ already_started
unfolding is_already_started
is_already_started_iff already_started h = refl
is_already_started_iff status h = cc

module _ {F : Type 0} (calls : NameCalls F) where
  -- The tests have found none of the protocols on the controller.
  abbrev pub Plain : ℕ → List Protocol → Type 0
  Plain controller [] = Unit
  Plain controller (protocol ∷ protocols) =
      ((s : F) × (efi_error (calls.test_protocol protocol controller s).0 ≡ true))
      × Plain controller protocols

  -- The driver has already opened the controller.
  abbrev pub Manages : ℕ → ℕ → Type 0
  Manages controller driver =
      (s : F) × ((calls.open_pci_io controller driver s).0 ≡ already_started)

  -- The controller's path has the size, and matches the path.
  abbrev pub OnPath : ℕ → ℕ → ℕ → Type 0
  OnPath path size controller =
      (s : F) × (found : F) × (calls.device_path_size s
          (calls.open_device_path controller found).0.1
        ≡ size)
      × (calls.match_paths s (calls.open_device_path controller found).0.1 path ≡ true)

  -- The names are those of the driver, for the controller and the graphics handle.
  abbrev pub Named : ℕ → ℕ → ℕ → Names → Type 0
  Named graphics controller driver names =
      Answered (calls.driver_name driver) calls.default_names.driver names.driver
      × Answered (calls.controller_name driver controller none) calls.default_names.controller
          names.controller
      × Answered (calls.controller_name driver controller (some graphics)) calls.default_names.child
          names.child

  -- The names of a driver that manages a controller on the path.
  abbrev pub FromPath : ℕ → ℕ → ℕ → List ℕ → Names → ℕ → Type 0
  FromPath graphics path size drivers names controller =
      Plain controller excluded
      × OnPath path size controller
      × Some (λ driver. Manages controller driver × Named graphics controller driver names) drivers

module _ {F : Type 0} (fw : Firmware F) (calls : NameCalls F) where
  pub is_excluded-Plain :
      (protocols : List Protocol) (controller : ℕ) (s : F)
      → Post ⊥
          (λ skipped s'. skipped ≡ false → Plain calls controller protocols)
          (is_excluded fw calls protocols controller s)
  unfolding is_excluded
  is_excluded-Plain [] controller s = λ e. tt
  is_excluded-Plain (protocol ∷ protocols) controller s =
      let status = (calls.test_protocol protocol controller s).0 in
      let s1 = (calls.test_protocol protocol controller s).1 in
      Post-if ⊥ _ (efi_error status) (is_excluded fw calls protocols controller) (pure true) s1
        (λ e.
          Post-mono ⊥ _ _ (is_excluded fw calls protocols controller s1)
            (λ skipped s2 plain e'. ((s, e), plain e')) (is_excluded-Plain protocols controller s1))
        (λ e e'. cc)

  manages-Manages :
      (controller driver : ℕ) (s : F)
      → Post ⊥
          (λ managed s'. managed ≡ true → Manages calls controller driver)
          (manages fw calls controller driver s)
  unfolding manages
  manages-Manages controller driver s =
      let status = (calls.open_pci_io controller driver s).0 in
      let s1 = (calls.open_pci_io controller driver s).1 in
      Post-if ⊥ _ (efi_error status) (pure (is_already_started status)) _ s1
        (λ e e'. (s, is_already_started_iff status e'))
        (λ e.
          Post-bind ⊥ _ (checked (calls.close_pci_io controller driver)) _ s1
            (Post-checked ⊥ _ (calls.close_pci_io controller driver) s1 (λ e' e2. cc)))

  pub controller_names-Named :
      (graphics controller driver name : ℕ) (s : F)
      → Answered (calls.driver_name driver) calls.default_names.driver name
      → Post ⊥
          (λ names s'. Named calls graphics controller driver names)
          (controller_names fw calls graphics controller driver name s)
  unfolding controller_names
  controller_names-Named graphics controller driver name s h =
      let parent = calls.controller_name driver controller none in
      let child = calls.controller_name driver controller (some graphics) in
      Post-bind ⊥ _ (name_or calls.default_names.controller parent) _ s (
        Post-mono ⊥ _ _ (name_or calls.default_names.controller parent s)
          (λ n1 s1 h1. Post-bind ⊥ _ (name_or calls.default_names.child child) _ s1 (
            Post-mono ⊥ _ _ (name_or calls.default_names.child child s1) (λ n2 s2 h2. (h, h1, h2))
              (name_or-Answered child calls.default_names.child s1)))
          (name_or-Answered parent calls.default_names.controller s))

  -- The names are the default ones, or those of a driver that manages the controller.
  pub managed_names_lem :
      (graphics controller : ℕ) (drivers : List ℕ) (s : F)
      → Post ⊥
          (λ names s'.
            (names ≡ calls.default_names)
            ⊎ Some
                (λ driver.
                  Manages calls controller driver × Named calls graphics controller driver names)
                drivers)
          (managed_names fw calls graphics controller drivers s)
  unfolding managed_names
  managed_names_lem graphics controller [] s = inl refl
  managed_names_lem graphics controller (driver ∷ drivers) s =
      Post-bind ⊥ _ (manages fw calls controller driver) _ s (
        Post-mono ⊥ _ _ (manages fw calls controller driver s)
          (λ managed s1 h.
            Post-if ⊥ _ managed _ (managed_names fw calls graphics controller drivers) s1
              (λ e. Post-bind ⊥ _ (checked (calls.open_name2 driver)) _ s1 (
                Post-checked ⊥ _ (calls.open_name2 driver) s1 (λ e'.
                  let s2 = (calls.open_name2 driver s1).1 in
                  let get = calls.driver_name driver in
                  Post-bind ⊥ _ (name_or calls.default_names.driver get) _ s2 (
                    Post-mono ⊥ _ _ (name_or calls.default_names.driver get s2)
                      (λ name s3 answered.
                        Post-mono ⊥ _ _
                          (controller_names fw calls graphics controller driver name s3)
                          (λ names s4 named. inr (inl (h e, named)))
                          (controller_names-Named graphics controller driver name s3 answered))
                      (name_or-Answered get calls.default_names.driver s2)))))
              (λ e.
                Post-mono ⊥ _ _ (managed_names fw calls graphics controller drivers s1)
                  (λ names s2 rest. elim rest [ inl d ↦ inl d | inr found ↦ inr (inr found) ])
                  (managed_names_lem graphics controller drivers s1)))
          (manages-Manages controller driver s))
