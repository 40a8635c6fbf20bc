-- ===== src/Boot/Image/Exited.antt =====
-- How `BootKernel` (src/bootloader/boot.c) leaves the boot services.
use pious_os.Base.{ℕ, ◌≡◌, refl, false}
use pious_os.Boot.Search.{efi_error}
use pious_os.Boot.Image.Firmware.{Firmware, pure, checked}
use pious_os.Boot.Image.Post.{Post, Post-bind, Post-mono, Post-if, Post-checked}
use pious_os.Boot.Image.Segments.{Image}
use pious_os.Boot.Image.Handover.{
  is_too_small, MapInfo, BootCalls, LoaderBlock, Inputs, get_map, exited, exit_boot, handover,
}

module _ {F : Type 0} (fw : Firmware F) (boot : BootCalls F) where
  -- The values are what `GetMemoryMap` has just answered.
  abbrev pub Answered : MapInfo → F → Type 0
  Answered info s =
      (asked : MapInfo) × (mem_map : ℕ) × (before : F) × ((boot.get_memory_map asked mem_map
          before).0.1
        ≡ info)
      × ((boot.get_memory_map asked mem_map before).1 ≡ s)

  -- `ExitBootServices` has just succeeded, called with the key that `GetMemoryMap` answered right before it.
  abbrev pub Left : MapInfo → F → Type 0
  Left info s =
      (before : F) × Answered info before
      × (efi_error (boot.exit_boot_services info.key before).0 ≡ false)
      × ((boot.exit_boot_services info.key before).1 ≡ s)

  abbrev Known : MapInfo × ℕ → F → Type 0
  Known map s = Answered map.0 s

  abbrev pub Gone : MapInfo × ℕ → F → Type 0
  Gone map s = Left map.0 s

  get_map-Answered :
      (info : MapInfo) (mem_map : ℕ) (s : F) → Post ⊥ Known (get_map fw boot info mem_map s)
  unfolding get_map
  get_map-Answered info mem_map s =
      let asked = (boot.get_memory_map info mem_map s).0 in
      let s1 = (boot.get_memory_map info mem_map s).1 in
      let pool = (fw.allocate_pool asked.1.size s1).0 in
      let s2 = (fw.allocate_pool asked.1.size s1).1 in
      Post-if ⊥ Known (is_too_small asked.0) _ (pure (asked.1, mem_map)) s1
        (λ e.
          Post-bind ⊥ Known (checked (λ s. (pool.0, s))) _ s2
            (Post-checked ⊥ _ (λ s. (pool.0, s)) s2 (λ good. (asked.1, pool.1, s2, refl, refl))))
        (λ e. (info, mem_map, s, refl, refl))

  exited-Gone :
      (map : MapInfo × ℕ) (s : F)
      → Answered map.0 s
      → Post ⊥ Gone (
          exited fw boot
            (boot.exit_boot_services map.0.key s).0
            map
            (boot.exit_boot_services map.0.key s).1)
  unfolding exited
  exited-Gone map s known =
      let status = (boot.exit_boot_services map.0.key s).0 in
      Post-if ⊥ Gone (efi_error status) _ (pure map) (boot.exit_boot_services map.0.key s).1
        (λ e. tt) (λ e. (s, known, e, refl))

  exit_boot-Gone : (initial : MapInfo) (s : F) → Post ⊥ Gone (exit_boot fw boot initial s)
  unfolding exit_boot
  exit_boot-Gone initial s =
      let first = record initial { size = 0 } in
      Post-bind ⊥ Gone (get_map fw boot first 0) _ s (
        Post-mono ⊥ _ _ (get_map fw boot first 0 s)
          (λ map s1 known.
            let status = (boot.exit_boot_services map.0.key s1).0 in
            let s2 = (boot.exit_boot_services map.0.key s1).1 in
            let s3 = (fw.free_pool map.1 s2).1 in
            let again = record map.0 { size = 0 } in
            Post-if ⊥ Gone (efi_error status) _ (exited fw boot status map) s2
              (λ e. Post-bind ⊥ Gone (get_map fw boot again map.1) _ s3 (
                Post-mono ⊥ _ _ (get_map fw boot again map.1 s3)
                  (λ map' s4 known'. exited-Gone map' s4 known') (get_map-Answered again map.1 s3)))
              (λ e. exited-Gone map s1 known))
          (get_map-Answered first 0 s))

  -- The memory map's fields of the parameters are those of the map in `info`.
  abbrev pub Carries : LoaderBlock → MapInfo → Type 0
  Carries block info =
      (block.memory_map_size ≡ info.size)
      × (block.memory_map_descriptor_size ≡ info.descriptor_size)
      × (block.memory_map_descriptor_version ≡ info.descriptor_version)

  -- `BootKernel` only calls the kernel's entry point when the last call of the firmware was an
  -- `ExitBootServices` that succeeded, called with the key that `GetMemoryMap` wrote right before it; the
  -- kernel's parameters have the size and the descriptors of that call, and the image's base and pages.
  pub handover-exit_boot :
      (block_size : ℕ) (inputs : Inputs) (initial : MapInfo) (image : Image) (s : F)
      → Post ⊥
          (λ block s'.
            (info : MapInfo) × Left info s'
            × Carries block info
            × (block.kernel_base_address ≡ image.base)
            × (block.kernel_pages ≡ image.pages))
          (handover fw boot block_size inputs initial image s)
  unfolding handover
  handover-exit_boot block_size inputs initial image s =
      let pool = (fw.allocate_pool block_size s).0 in
      let s1 = (fw.allocate_pool block_size s).1 in
      Post-bind ⊥ _ (checked (λ s. (pool.0, s))) _ s1 (
        Post-checked ⊥ _ (λ s. (pool.0, s)) s1
          (λ good. Post-bind ⊥ _ (exit_boot fw boot initial) _ s1 (
            Post-mono ⊥ _ _ (exit_boot fw boot initial s1)
              (λ map s2 gone. (map.0, gone, (refl, refl, refl), refl, refl))
              (exit_boot-Gone initial s1))))
