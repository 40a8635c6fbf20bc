-- ===== src/Boot/Graphics/Reported.antt =====
-- The entries of `GPUArray` that `InitUEFI_GOP` (src/bootloader/boot.c) fills in are copies of what the devices
-- report.
use pious_os.Base.{
  ℕ, zero, suc, ◌+◌, ◌<◌, ◌≡◌, Bool, true, arith, ◌&&◌, ◌||◌, ltb, ◌==◌, List, [], ◌∷◌, ◌++◌,
  length,
}
use pious_os.Boot.Search.{unsupported}
use pious_os.Boot.Image.Firmware.{Firmware, Run, pure, return}
use pious_os.Boot.Image.Post.{Post, Post-if, Post-then, Post-seq, Post-call}
use pious_os.Boot.Graphics.Names.{NameCalls}
use pious_os.Boot.Graphics.Listed.{list_devices, select_option, init_uefi_gop}
use pious_os.Boot.Graphics.Modes.{GraphicsCalls, Mode, menu, menu_mode, mode_1024, single_mode}
use pious_os.Boot.Graphics.Devices.{
  configure_mode, configure_device, configure_devices, allocate_array, configure_all, configure_one,
  configure, free_pools, check_frame_buffer, init_gop,
}

several : (devices : ℕ) (b : Bool) → (ltb 1 devices && b) ≡ true → 1 < devices
several devices b e = ground arith

-- The first entry has the property.
abbrev pub First : (Mode → Type 0) → List Mode → Type 0
First P [] = ⊥
First P (mode ∷ modes) = P mode

-- `P` holds of every mode that a device reports.
module _ {F : Type 0} (fw : Firmware F) (gop : GraphicsCalls F) (P : Mode → Type 0)
    (every : (device : ℕ) (s : F) → P (gop.current device s)) where
  abbrev Entries : List Mode → F → Type 0
  Entries modes s = First P modes

  configure_device_reports :
      (choose : ℕ → Run F ℕ) (device : ℕ) (s : F)
      → Post Unit (λ entry s'. P entry) (configure_device fw gop choose device s)
  unfolding configure_device configure_mode
  configure_device_reports choose device s =
      let Q = λ (entry : Mode) (s' : F). P entry in
      Post-call Unit Q (gop.open_protocol device) _ s (λ e.
        Post-then Q (choose device) _ (gop.open_protocol device s).1 (λ mode s1.
          Post-call Unit Q (gop.set_mode device mode) _ s1 (λ e'.
            let s2 = (gop.set_mode device mode s1).1 in
            let size = (gop.current device s2).size_of_info in
            let pool = (fw.allocate_pool size s2).0 in
            let s3 = (fw.allocate_pool size s2).1 in
            Post-call Unit Q (λ s. (pool.0, s)) _ s3 (λ e2. every device s3))))

  configure_devices_report :
      (choose : ℕ → Run F ℕ) (rounds device : ℕ) (s : F)
      → Post Unit Entries (configure_devices fw gop choose (suc rounds) device s)
  unfolding configure_devices
  configure_devices_report choose rounds device s =
      Post-seq Unit _ Entries (configure_device fw gop choose device) _ s
        (configure_device_reports choose device s)
        (λ entry s1 h.
          Post-then Entries (configure_devices fw gop choose rounds (device + 1)) _ s1
            (λ modes s2. h))

  configure_all_reports :
      (choose : ℕ → Run F ℕ) (devices : ℕ) (s : F)
      → 1 < devices
      → Post Unit Entries (configure_all fw gop choose devices s)
  unfolding configure_all
  configure_all_reports choose zero s several = absurd (omega (arith, several))
  configure_all_reports choose (suc devices) s several =
      Post-then Entries (allocate_array fw gop (suc devices)) _ s
        (λ allocated s1. configure_devices_report choose devices 0 s1)

  configure_one_reports :
      (choose : ℕ → Run F ℕ) (select : Run F ℕ) (s : F)
      → Post Unit Entries (configure_one fw gop choose select s)
  unfolding configure_one
  configure_one_reports choose select s =
      Post-then Entries (allocate_array fw gop 1) _ s (λ allocated s1.
        Post-then Entries select _ s1 (λ device s2.
          Post-seq Unit _ Entries (configure_device fw gop choose device) _ s2
            (configure_device_reports choose device s2) (λ entry s3 h. h)))

  configure_reports :
      (fuel devices option : ℕ) (s : F) → Post Unit Entries (configure fw gop fuel devices option s)
  unfolding configure
  configure_reports fuel devices option s =
      Post-if Unit Entries (ltb 1 devices && option == 0) _ _ s
        (λ e.
          configure_all_reports (menu_mode fw gop fuel) devices s (several devices (option == 0) e))
        (λ e0.
          Post-if Unit Entries (ltb 1 devices && option == 1) _ _ s
            (λ e.
              configure_one_reports (menu_mode fw gop fuel)
                (menu fw gop (pure tt) devices fuel fuel 0) s)
            (λ e1.
              Post-if Unit Entries (ltb 1 devices && option == 2) _ _ s
                (λ e.
                  configure_all_reports (λ device. pure 0) devices s
                    (several devices (option == 2) e))
                (λ e2.
                  Post-if Unit Entries (ltb 1 devices && option == 3) _ _ s
                    (λ e.
                      configure_all_reports (mode_1024 fw gop) devices s
                        (several devices (option == 3) e))
                    (λ e. configure_one_reports (single_mode fw gop fuel) (pure 0) s))))

  check_frame_buffer_reports :
      (modes : List Mode) (s : F)
      → First P modes
      → Post Unit Entries (check_frame_buffer fw gop modes s)
  unfolding check_frame_buffer
  check_frame_buffer_reports [] s h = absurd h
  check_frame_buffer_reports (mode ∷ modes) s h =
      Post-if Unit Entries (mode.frame_buffer_base == 0 || mode.frame_buffer_size == 0)
        (return unsupported) (pure (mode ∷ modes)) s (λ e. tt) (λ e. h)

  -- Where `InitUEFI_GOP` returns `EFI_SUCCESS`, there is a first entry, and it is what its
  -- device reports.
  pub init_uefi_gop-First :
      (calls : NameCalls F) (fuel : ℕ) (debug : Bool) (s : F)
      → Post Unit (λ modes s'. First P modes) (init_uefi_gop fw calls gop fuel debug s)
  unfolding init_uefi_gop init_gop
  init_uefi_gop-First calls fuel debug s =
      Post-then Entries (list_devices fw calls) _ s (λ devices s1.
        Post-then Entries (select_option fw calls gop fuel debug (length devices.graphics.handles))
          _ s1
          (λ option s2.
            Post-seq Unit _ Entries (configure fw gop fuel (length devices.graphics.handles) option)
              _ s2 (configure_reports fuel (length devices.graphics.handles) option s2)
              (λ modes s3 h.
                Post-then Entries
                  (free_pools fw gop
                    (devices.names ++ devices.name_buffer ∷ devices.graphics.pool ∷ []))
                  _ s3 (λ freed s4. check_frame_buffer_reports modes s4 h))))
