-- ===== src/Boot/Graphics/Drivers.antt =====
-- The two methods of `InitUEFI_GOP` (src/bootloader/boot.c) for the names of a graphics device: by the
-- controller on its device path, and the generic one for virtual machines.
use pious_os.Base.{
  ℕ, ◌+◌, ◌-◌, ◌%◌, ◌^◌, Bool, true, false, ◌&&◌, Option, none, some, List, [], ◌∷◌, ◌==◌,
  if◌then◌else◌,
}
use pious_os.Boot.Search.{efi_error}
use pious_os.Boot.Image.Firmware.{Firmware, Run, pure, gets, called, checked, ◌>>=◌}
use pious_os.Boot.Graphics.Names.{
  Protocol, driver_binding, loaded_image, simple_file_system, Names, NameCalls, is_already_started,
  in_language, name_or, on_wall,
}

-- What a controller does not have, in the order of the tests.
abbrev pub excluded : List Protocol
excluded = driver_binding ∷ loaded_image ∷ simple_file_system ∷ []

-- `continue` for a driver on the Wall of Shame
abbrev pub go_on_with : {F : Type 0} → Option ℕ → Run F Names → (ℕ → Run F Names) → Run F Names
go_on_with none shamed found = shamed
go_on_with (some name) shamed found = found name

module _ {F : Type 0} (fw : Firmware F) (calls : NameCalls F) where
  -- the tests for the protocols, each with `continue` where it succeeds
  unfoldable pub is_excluded : List Protocol → ℕ → Run F Bool
  is_excluded [] controller = pure false
  is_excluded (protocol ∷ protocols) controller = do
    status ← called (calls.test_protocol protocol controller)
    (if efi_error status then is_excluded protocols controller else pure true)

  -- `DevicePath_DevPath`
  unfoldable pub controller_path : ℕ → Run F ℕ
  controller_path controller = do
    found ← called (calls.open_device_path controller)
    opened ← checked (λ s. (found.0, s))
    pure found.1

  -- whether the driver manages the controller
  unfoldable pub manages : ℕ → ℕ → Run F Bool
  manages controller driver = do
    status ← called (calls.open_pci_io controller driver)
    (if efi_error status
        then pure (is_already_started status)
        else (do closed ← checked (calls.close_pci_io controller driver); pure false))

  -- the names of the controller and of the child, which is the graphics handle
  unfoldable pub controller_names : ℕ → ℕ → ℕ → ℕ → Run F Names
  controller_names graphics controller driver name = do
    parent ← name_or calls.default_names.controller (calls.controller_name driver controller none)
    child ←
        name_or calls.default_names.child (calls.controller_name driver controller (some graphics))
    pure (record { driver = name; controller = parent; child = child })

  -- The first method, for the drivers of a controller that matches.
  unfoldable pub managed_names : ℕ → ℕ → List ℕ → Run F Names
  managed_names graphics controller [] = pure calls.default_names
  managed_names graphics controller (driver ∷ drivers) = do
    managed ← manages controller driver
    (if managed
        then (do
          opened ← checked (calls.open_name2 driver)
          name ← name_or calls.default_names.driver (calls.driver_name driver)
          controller_names graphics controller driver name)
        else managed_names graphics controller drivers)

  -- The first method, for the controllers: the size of the device path is `size`.
  unfoldable pub path_names : ℕ → ℕ → ℕ → List ℕ → List ℕ → Run F Names
  path_names graphics path size drivers [] = pure calls.default_names
  path_names graphics path size drivers (controller ∷ controllers) = do
    skipped ← is_excluded excluded controller
    (if skipped then path_names graphics path size drivers controllers else (do
      candidate ← controller_path controller
      matched ←
          gets
            (λ s. calls.device_path_size s candidate == size && calls.match_paths s candidate path)
      (if matched
          then managed_names graphics controller drivers
          else path_names graphics path size drivers controllers)))

  -- a driver's name, or none for a driver on the Wall of Shame
  unfoldable pub unshamed_name : ℕ → Run F (Option ℕ)
  unshamed_name driver = do
    opened ← checked (calls.open_name2 driver)
    answer ← in_language (calls.driver_name driver)
    (if efi_error answer.0
        then pure (some calls.default_names.driver)
        else gets (λ s.
          if on_wall calls.str_size (fw.memory s) calls.wall answer.1 then none else some answer.1))

  -- The generic method, for the drivers: the names of the last driver are kept where none has a child.
  unfoldable pub child_names : ℕ → ℕ → List ℕ → Names → Run F Names
  child_names graphics controller [] names = pure names
  child_names graphics controller (driver ∷ drivers) names = do
    name ← unshamed_name driver
    go_on_with name
        (child_names graphics controller drivers
          (record names { driver = calls.default_names.driver }))
        (λ name. do
          found ← controller_names graphics controller driver name
          (if found.child == calls.default_names.child
              then child_names graphics controller drivers found
              else pure found))

  -- The generic method, for the controllers.
  unfoldable pub generic_names : ℕ → ℕ → List ℕ → List ℕ → Names → Run F Names
  generic_names graphics path drivers [] names = pure names
  generic_names graphics path drivers (controller ∷ controllers) names = do
    skipped ← is_excluded excluded controller
    (if skipped then generic_names graphics path drivers controllers names else (do
      candidate ← controller_path controller
      matched ← gets (λ s. calls.match_paths s candidate path)
      (if matched
          then (do
            found ← child_names graphics controller drivers names
            (if found.child == calls.default_names.child
                then generic_names graphics path drivers controllers found
                else pure found))
          else generic_names graphics path drivers controllers names)))

  -- `CntlrPathSize`
  unfoldable pub controller_path_size : ℕ → F → ℕ
  controller_path_size path s =
      (calls.device_path_size s path + 2 ^ 64 - calls.node_length s path + 4) % 2 ^ 64

  unfoldable pub is_default : Names → Bool
  is_default names =
      names.controller == calls.default_names.controller
      && (names.driver == calls.default_names.driver && names.child == calls.default_names.child)

  -- The names of a device: the generic method is for those that are still the default ones.
  unfoldable pub device_names : ℕ → ℕ → List ℕ → List ℕ → Run F Names
  device_names graphics path drivers controllers = do
    size ← gets (controller_path_size path)
    names ← path_names graphics path size drivers controllers
    (if is_default names then generic_names graphics path drivers controllers names else pure names)
