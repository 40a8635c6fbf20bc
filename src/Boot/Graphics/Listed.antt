-- ===== src/Boot/Graphics/Listed.antt =====
-- The list of the graphics devices and the start of `InitUEFI_GOP` (src/bootloader/boot.c).
use pious_os.Base.{
  ℕ, zero, suc, ◌+◌, ◌-◌, ◌*◌, ◌%◌, ◌^◌, Bool, ◌&&◌, List, [], ◌∷◌, ◌++◌, length, ltb, ◌==◌,
  if◌then◌else◌,
}
use pious_os.Boot.Search.{is_success}
use pious_os.Boot.Image.Firmware.{Firmware, out_of_fuel, Run, pure, return, called, checked, ◌>>=◌}
use pious_os.Boot.Graphics.Names.{
  Located, graphics_output, component_name2, device_path, Handles, named_device, unknown_device,
  NameCalls, is_unsupported,
}
use pious_os.Boot.Graphics.Drivers.{device_names}
use pious_os.Boot.Graphics.Modes.{GraphicsCalls, Mode, is_other_key, menu_timeout, wait_key}
use pious_os.Boot.Graphics.Devices.{init_gop}

-- `GraphicsHandles`, the strings of `NameBuffer`, and its own pool
pub record Devices : Type 0 where
  pub graphics : Handles
  pub names : List ℕ
  pub name_buffer : ℕ

module _ {F : Type 0} (fw : Firmware F) (calls : NameCalls F) where
  unfoldable pub locate : Located → Run F Handles
  locate protocol = do
    found ← called (calls.locate_handles protocol)
    status ← checked (λ s. (found.0, s))
    pure found.1

  -- the string of the device `number`
  unfoldable pub device_label : List ℕ → List ℕ → ℕ → ℕ → Run F ℕ
  device_label drivers controllers number graphics = do
    path ← called (calls.open_device_path graphics)
    (if is_success path.0
        then (do
          names ← device_names fw calls graphics path.1 drivers controllers
          called (calls.cat_print (named_device ((number + 0x30) % 2 ^ 64) graphics names)))
        else if is_unsupported path.0
        then called (calls.cat_print (unknown_device ((number + 0x30) % 2 ^ 64) graphics))
        else return path.0)

  -- the loop over `GraphicsHandles`, from the device `number` on
  unfoldable pub device_labels : List ℕ → List ℕ → ℕ → List ℕ → Run F (List ℕ)
  device_labels drivers controllers number [] = pure []
  device_labels drivers controllers number (graphics ∷ devices) = do
    label ← device_label drivers controllers number graphics
    labels ← device_labels drivers controllers (number + 1) devices
    pure (label ∷ labels)

  -- `NameBuffer`, with pointers of 8 bytes
  unfoldable pub allocate_names : ℕ → Run F ℕ
  allocate_names count = do
    pool ← called (fw.allocate_pool (8 * count % 2 ^ 64))
    status ← checked (λ s. (pool.0, s))
    pure pool.1

  -- from `LocateHandleBuffer` to the release of the handles that only the names need
  unfoldable pub list_devices : Run F Devices
  list_devices = do
    graphics ← locate graphics_output
    buffer ← allocate_names (length graphics.handles)
    drivers ← locate component_name2
    controllers ← locate device_path
    labels ← device_labels drivers.handles controllers.handles 0 graphics.handles
    freed ← checked (fw.free_pool controllers.pool)
    freed' ← checked (fw.free_pool drivers.pool)
    pure (record { graphics = graphics; names = labels; name_buffer = buffer })

  module _ (gop : GraphicsCalls F) where
    -- the menu of four options, with a timeout
    unfoldable pub option_menu : ℕ → ℕ → ℕ → Run F ℕ
    option_menu zero seconds key s = (out_of_fuel, s)
    option_menu (suc fuel) seconds key s =
        (if is_other_key 4 key
            then (do
              waited ← wait_key fw gop seconds key
              (if waited.0 == 0 then pure 2 else option_menu fuel waited.0 waited.1))
            else pure (key - 0x30))
          s

    -- The option: 2 without the menu, which needs several devices and DEBUG_PIOUS.
    unfoldable pub select_option : ℕ → Bool → ℕ → Run F ℕ
    select_option fuel debug devices =
        if ltb 1 devices && debug
        then (do
          option ← option_menu fuel menu_timeout 0
          reset ← checked calls.reset_input
          pure option)
        else pure 2

    -- `GPUArray`, where `InitUEFI_GOP` returns `EFI_SUCCESS`
    unfoldable pub init_uefi_gop : ℕ → Bool → Run F (List Mode)
    init_uefi_gop fuel debug = do
      devices ← list_devices
      option ← select_option fuel debug (length devices.graphics.handles)
      init_gop fw gop fuel (length devices.graphics.handles) option
          (devices.names ++ devices.name_buffer ∷ devices.graphics.pool ∷ [])
