-- ===== src/Boot/Graphics/Configured.antt =====
-- The devices that `InitUEFI_GOP` (src/bootloader/boot.c) has configured.
use pious_os.Base.{
  ℕ, zero, suc, ◌+◌, ◌<◌, ◌≡◌, ◌≢◌, refl, sym, ◌∙◌, ◌⊎◌, inl, inr, false, ◌&&◌, ◌||◌, ltb, ◌==◌,
  arith, List, [], ◌∷◌,
}
use mathlib.Core.Path.{subst}
use pious_os.Boot.Search.{unsupported, efi_error}
use pious_os.Boot.Image.Firmware.{Firmware, Run, pure, return, checked}
use pious_os.Boot.Image.Post.{
  Post, Post-bind, Post-mono, Post-if, Post-checked, Post-always, Post-then, Post-seq, Post-weaken,
}
use pious_os.Boot.Graphics.Modes.{GraphicsCalls, Mode, menu, menu_mode, mode_1024, single_mode}
use pious_os.Boot.Graphics.Devices.{
  configure_mode, configure_device, configure_devices, allocate_array, configure_all, configure_one,
  configure, free_pools, check_frame_buffer, init_gop,
}
use pious_os.Boot.Graphics.Chosen.{
  menu_below, HasModes, Chooses, menu_mode-Chooses, single_mode-Chooses, mode_1024-Chooses,
}

has_frame_buffer : (base size : ℕ) → (base == 0 || size == 0) ≡ false → ¬ ((base ≡ 0) ⊎ (size ≡ 0))
has_frame_buffer base size e h = ground arith

-- `SetMode` sets the mode where it succeeds, and a new pool leaves it.
pub record Sets {F : Type 0} (fw : Firmware F) (gop : GraphicsCalls F) : Type 0 where
  pub has_modes : (device : ℕ) → HasModes (gop.max_mode device)
  pub set :
      (device mode : ℕ) (s : F)
      → efi_error (gop.set_mode device mode s).0 ≡ false
      → (gop.current device (gop.set_mode device mode s).1).mode ≡ mode
  pub kept :
      (device n : ℕ) (s : F)
      → (gop.current device (fw.allocate_pool n s).1).mode ≡ (gop.current device s).mode

module _ {F : Type 0} (fw : Firmware F) (gop : GraphicsCalls F) where
  -- one entry for each of `rounds` devices from `device` on, in a mode that the device has
  abbrev pub Entries : ℕ → ℕ → List Mode → Type 0
  Entries zero device [] = Unit
  Entries zero device (mode ∷ modes) = ⊥
  Entries (suc rounds) device [] = ⊥
  Entries (suc rounds) device (mode ∷ modes) =
      (mode.mode < gop.max_mode device) × Entries rounds (device + 1) modes

  -- entries for all of the devices, or one for one of them
  abbrev pub Configured : ℕ → List Mode → Type 0
  Configured devices modes =
      Entries devices 0 modes ⊎ ((device : ℕ) × (device < devices) × Entries 1 device modes)

  abbrev pub HasFrameBuffer : List Mode → Type 0
  HasFrameBuffer modes =
      (mode : Mode) × (rest : List Mode) × (modes ≡ mode ∷ rest)
      × (mode.frame_buffer_base ≢ 0)
      × (mode.frame_buffer_size ≢ 0)

  pub has_frame_buffer_lem :
      (mode : Mode) (modes : List Mode)
      → (mode.frame_buffer_base == 0 || mode.frame_buffer_size == 0) ≡ false
      → HasFrameBuffer (mode ∷ modes)
  has_frame_buffer_lem mode modes e = (
    mode,
    modes,
    refl,
    (λ e'. has_frame_buffer mode.frame_buffer_base mode.frame_buffer_size e (inl e')),
    (λ e'. has_frame_buffer mode.frame_buffer_base mode.frame_buffer_size e (inr e')),
  )

  module _ (sets : Sets fw gop) where
    -- The entry is in the mode that was chosen.
    pub configure_mode_sets :
        (device mode : ℕ) (s : F)
        → Post ⊥ (λ entry s'. entry.mode ≡ mode) (configure_mode fw gop device mode s)
    unfolding configure_mode
    configure_mode_sets device mode s = Post-bind ⊥ _ (checked (gop.set_mode device mode)) _ s (
        Post-checked ⊥ _ (gop.set_mode device mode) s (λ good.
          let s1 = (gop.set_mode device mode s).1 in
          let size = (gop.current device s1).size_of_info in
          let pool = (fw.allocate_pool size s1).0 in
          let s2 = (fw.allocate_pool size s1).1 in
          Post-bind ⊥ _ (checked (λ s. (pool.0, s))) _ s2 (
            Post-checked ⊥ _ (λ s. (pool.0, s)) s2
              (λ good'. sets.kept device size s1 ∙ sets.set device mode s good))))

    configure_device_sets :
        (choose : ℕ → Run F ℕ) (device : ℕ) (s : F)
        → Chooses fw gop choose
        → Post Unit
            (λ entry s'. entry.mode < gop.max_mode device)
            (configure_device fw gop choose device s)
    unfolding configure_device
    configure_device_sets choose device s chooses =
        Post-bind Unit _ (checked (gop.open_protocol device)) _ s (
          Post-checked Unit _ (gop.open_protocol device) s (λ good.
            let s1 = (gop.open_protocol device s).1 in
            Post-bind Unit _ (choose device) _ s1 (
              Post-mono Unit _ _ (choose device s1)
                (λ mode s2 h.
                  Post-mono Unit _ _ (configure_mode fw gop device mode s2)
                    (λ entry s3 e. subst (λ n. n < gop.max_mode device) (sym e) h)
                    (Post-weaken ⊥ _ (configure_mode fw gop device mode s2)
                      (configure_mode_sets device mode s2)))
                (chooses device s1))))

    configure_devices-Entries :
        (choose : ℕ → Run F ℕ) (rounds device : ℕ) (s : F)
        → Chooses fw gop choose
        → Post Unit
            (λ modes s'. Entries rounds device modes)
            (configure_devices fw gop choose rounds device s)
    unfolding configure_devices
    configure_devices-Entries choose zero device s chooses = tt
    configure_devices-Entries choose (suc rounds) device s chooses =
        Post-bind Unit _ (configure_device fw gop choose device) _ s (
          Post-mono Unit _ _ (configure_device fw gop choose device s)
            (λ mode s1 h.
              Post-bind Unit _ (configure_devices fw gop choose rounds (device + 1)) _ s1 (
                Post-mono Unit _ _ (configure_devices fw gop choose rounds (device + 1) s1)
                  (λ modes s2 h'. (h, h'))
                  (configure_devices-Entries choose rounds (device + 1) s1 chooses)))
            (configure_device_sets choose device s chooses))

    configure_all-Configured :
        (choose : ℕ → Run F ℕ) (devices : ℕ) (s : F)
        → Chooses fw gop choose
        → Post Unit (λ modes s'. Configured devices modes) (configure_all fw gop choose devices s)
    unfolding configure_all
    configure_all-Configured choose devices s chooses =
        Post-bind Unit _ (allocate_array fw gop devices) _ s (
          Post-always _ (allocate_array fw gop devices s) (λ status s1.
            Post-mono Unit _ _ (configure_devices fw gop choose devices 0 s1) (λ modes s2 h. inl h)
              (configure_devices-Entries choose devices 0 s1 chooses)))

    configure_one-Configured :
        (choose : ℕ → Run F ℕ) (select : Run F ℕ) (devices : ℕ) (s : F)
        → Chooses fw gop choose
        → ((s : F) → Post Unit (λ device s'. device < devices) (select s))
        → Post Unit (λ modes s'. Configured devices modes) (configure_one fw gop choose select s)
    unfolding configure_one
    configure_one-Configured choose select devices s chooses selects =
        let P = λ (modes : List Mode) (s' : F). Configured devices modes in
        Post-then P (allocate_array fw gop 1) _ s (λ status s1.
          Post-seq Unit _ P select _ s1 (selects s1) (λ device s2 below.
            Post-seq Unit _ P (configure_device fw gop choose device) _ s2
              (configure_device_sets choose device s2 chooses)
              (λ mode s3 h. inr (device, below, (h, tt)))))

    configure-Configured :
        (fuel devices option : ℕ) (s : F)
        → HasModes devices
        → Post Unit (λ modes s'. Configured devices modes) (configure fw gop fuel devices option s)
    unfolding configure
    configure-Configured fuel devices option s some =
        let entries = λ (modes : List Mode) (s' : F). Configured devices modes in
        let by_menu = menu_mode-Chooses fw gop sets.has_modes fuel in
        Post-if Unit entries (ltb 1 devices && option == 0)
          (configure_all fw gop (menu_mode fw gop fuel) devices) _ s
          (λ e. configure_all-Configured _ devices s by_menu)
          (λ e0.
            Post-if Unit entries (ltb 1 devices && option == 1) _ _ s
              (λ e.
                configure_one-Configured _ (menu fw gop (pure tt) devices fuel fuel 0) devices s
                  by_menu (λ s1. menu_below fw gop (pure tt) devices fuel fuel 0 s1 some))
              (λ e1.
                Post-if Unit entries (ltb 1 devices && option == 2)
                  (configure_all fw gop (λ device. pure 0) devices) _ s
                  (λ e.
                    configure_all-Configured (λ device. pure 0) devices s
                      (λ device s. (sets.has_modes device).0))
                  (λ e2.
                    Post-if Unit entries (ltb 1 devices && option == 3)
                      (configure_all fw gop (mode_1024 fw gop) devices)
                      (configure_one fw gop (single_mode fw gop fuel) (pure 0)) s
                      (λ e.
                        configure_all-Configured _ devices s
                          (mode_1024-Chooses fw gop sets.has_modes))
                      (λ e.
                        configure_one-Configured _ (pure 0) devices s
                          (single_mode-Chooses fw gop sets.has_modes fuel) (λ s1. some.0)))))

    none-Configured : (devices : ℕ) → 0 < devices → ¬ Configured devices []
    none-Configured zero h e = omega (arith, h)
    none-Configured (suc devices) h (inl e) = e
    none-Configured (suc devices) h (inr (device, below, e)) = e

    check_frame_buffer-HasFrameBuffer :
        (devices : ℕ) (modes : List Mode) (s : F)
        → 0 < devices
        → Configured devices modes
        → Post Unit
            (λ modes s'. Configured devices modes × HasFrameBuffer modes)
            (check_frame_buffer fw gop modes s)
    unfolding check_frame_buffer
    check_frame_buffer-HasFrameBuffer devices [] s some h = absurd (none-Configured devices some h)
    check_frame_buffer-HasFrameBuffer devices (mode ∷ modes) s some h =
        Post-if Unit _ (mode.frame_buffer_base == 0 || mode.frame_buffer_size == 0)
          (return unsupported) (pure (mode ∷ modes)) s (λ e. tt)
          (λ e. (h, has_frame_buffer_lem mode modes e))

    -- `InitUEFI_GOP`, where it returns `EFI_SUCCESS`, has an entry for each device, or one for one of them; each
    -- of them is in a mode that its device has, and the first one has a framebuffer. There are
    -- devices, whose numbers are digits of 32 bits, a device has modes, and `SetMode` sets the mode.
    pub init_gop-Configured :
        (fuel devices option : ℕ) (pools : List ℕ) (s : F)
        → HasModes devices
        → Post Unit
            (λ modes s'. Configured devices modes × HasFrameBuffer modes)
            (init_gop fw gop fuel devices option pools s)
    unfolding init_gop
    init_gop-Configured fuel devices option pools s some =
        Post-bind Unit _ (configure fw gop fuel devices option) _ s (
          Post-mono Unit _ _ (configure fw gop fuel devices option s)
            (λ modes s1 h. Post-bind Unit _ (free_pools fw gop pools) _ s1 (
              Post-always _ (free_pools fw gop pools s1)
                (λ freed s2. check_frame_buffer-HasFrameBuffer devices modes s2 some.0 h)))
            (configure-Configured fuel devices option s some))
