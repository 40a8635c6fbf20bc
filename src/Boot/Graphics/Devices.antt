-- ===== src/Boot/Graphics/Devices.antt =====
-- How `InitUEFI_GOP` (src/bootloader/boot.c) configures the graphics devices, behind its list of their names.
use pious_os.Base.{
  ℕ, zero, suc, ◌+◌, ◌*◌, ◌%◌, ◌^◌, ◌&&◌, ◌||◌, ltb, ◌==◌, if◌then◌else◌, List, [], ◌∷◌,
}
use pious_os.Boot.Search.{Status, unsupported}
use pious_os.Boot.Image.Firmware.{Firmware, Run, pure, return, gets, called, checked, ◌>>=◌}
use pious_os.Boot.Graphics.Modes.{GraphicsCalls, Mode, menu, menu_mode, mode_1024, single_mode}

module _ {F : Type 0} (fw : Firmware F) (gop : GraphicsCalls F) where
  -- `SetMode`, the pool for the mode's information, and the entry of `GPUArray`
  unfoldable pub configure_mode : ℕ → ℕ → Run F Mode
  configure_mode device mode = do
    set ← checked (gop.set_mode device mode)
    size ← gets (λ s. (gop.current device s).size_of_info)
    pool ← called (fw.allocate_pool size)
    status ← checked (λ s. (pool.0, s))
    gets (gop.current device)

  -- one device: the protocol, the choice of its mode, and its entry
  unfoldable pub configure_device : (ℕ → Run F ℕ) → ℕ → Run F Mode
  configure_device choose device = do
    opened ← checked (gop.open_protocol device)
    mode ← choose device
    configure_mode device mode

  unfoldable pub configure_devices : (ℕ → Run F ℕ) → ℕ → ℕ → Run F (List Mode)
  configure_devices choose zero device = pure []
  configure_devices choose (suc rounds) device = do
    mode ← configure_device choose device
    modes ← configure_devices choose rounds (device + 1)
    pure (mode ∷ modes)

  -- the pool for `count` entries of `GPUArray`
  unfoldable pub allocate_array : ℕ → Run F Status
  allocate_array count = do
    pool ← called (fw.allocate_pool (count * gop.mode_size % 2 ^ 64))
    checked (λ s. (pool.0, s))

  unfoldable pub configure_all : (ℕ → Run F ℕ) → ℕ → Run F (List Mode)
  configure_all choose devices = do
    allocated ← allocate_array devices
    configure_devices choose devices 0

  unfoldable pub configure_one : (ℕ → Run F ℕ) → Run F ℕ → Run F (List Mode)
  configure_one choose select = do
    allocated ← allocate_array 1
    device ← select
    mode ← configure_device choose device
    pure (mode ∷ [])

  -- The five cases; `option` is the choice of the menu for several devices.
  unfoldable pub configure : ℕ → ℕ → ℕ → Run F (List Mode)
  configure fuel devices option =
      if ltb 1 devices && option == 0
      then configure_all (menu_mode fw gop fuel) devices
      else if ltb 1 devices && option == 1
      then configure_one (menu_mode fw gop fuel) (menu fw gop (pure tt) devices fuel fuel 0)
      else if ltb 1 devices && option == 2
      then configure_all (λ device. pure 0) devices
      else if ltb 1 devices && option == 3
      then configure_all (mode_1024 fw gop) devices
      else configure_one (single_mode fw gop fuel) (pure 0)

  -- `FreePool` for each of the pools
  unfoldable pub free_pools : List ℕ → Run F (Unit {0})
  free_pools [] = pure tt
  free_pools (pool ∷ pools) = do freed ← checked (fw.free_pool pool); free_pools pools

  -- The last test: the first entry has a framebuffer.
  unfoldable pub check_frame_buffer : List Mode → Run F (List Mode)
  check_frame_buffer [] = pure []
  check_frame_buffer (mode ∷ modes) =
      if mode.frame_buffer_base == 0 || mode.frame_buffer_size == 0
      then return unsupported
      else pure (mode ∷ modes)

  -- `GPUArray`, from the choice of the mode on. Without DEBUG_PIOUS the option is 2. `pools` are those of the
  -- names, of the list of them, and of the handles.
  unfoldable pub init_gop : ℕ → ℕ → ℕ → List ℕ → Run F (List Mode)
  init_gop fuel devices option pools = do
    modes ← configure fuel devices option
    freed ← free_pools pools
    check_frame_buffer modes
