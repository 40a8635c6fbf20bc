-- ===== src/Boot/Graphics/Names.antt =====
-- What `InitUEFI_GOP` (src/bootloader/boot.c) asks the firmware for the names of the graphics devices, and its
-- Wall of Shame. A string is known by its address.
use pious_os.Base.{ℕ, Bool, true, false, not, Option, List, [], ◌∷◌, ltb, ◌==◌, ◌||◌, if◌then◌else◌}
use Prim.Native.Char.{code}
use Prim.Native.String.{String}
use pious_os.Boot.Search.{Status, unsupported, already_started, efi_error, compare}
use pious_os.Boot.Image.Firmware.{Run, pure, called, ◌>>=◌}

-- The protocols that `OpenProtocol` tests a handle for.
pub data Protocol : Type 0 where
  driver_binding loaded_image simple_file_system : Protocol

-- The protocols that `LocateHandleBuffer` is called with.
pub data Located : Type 0 where
  graphics_output component_name2 device_path : Located

-- `LanguageToUse`, `LanguageToUse2` and `LanguageToUse3`
pub data Language : Type 0 where
  en_us en eng : Language

-- the array that `LocateHandleBuffer` allocates, and its address
pub record Handles : Type 0 where
  pub pool : ℕ
  pub handles : List ℕ

-- `DriverDisplayName`, `ControllerDisplayName` and `ChildDisplayName`
pub record Names : Type 0 where
  pub driver : ℕ
  pub controller : ℕ
  pub child : ℕ

-- What `CatPrint` is called with for a device. The arguments are the character of its number, its handle, and
-- its names.
pub data Label : Type 0 where
  named_device : ℕ → ℕ → Names → Label
  unknown_device : ℕ → ℕ → Label

pub record NameCalls (F : Type 0) : Type 0 where
  pub locate_handles : Located → F → (Status × Handles) × F
  -- `OpenProtocol` of a handle for a test, for its device path, and for its `ComponentName2Protocol`
  pub test_protocol : Protocol → ℕ → F → Status × F
  pub open_device_path : ℕ → F → (Status × ℕ) × F
  pub open_name2 : ℕ → F → Status × F
  -- `OpenProtocol` and `CloseProtocol` of a controller for `PciIoProtocol`, by a driver
  pub open_pci_io : ℕ → ℕ → F → Status × F
  pub close_pci_io : ℕ → ℕ → F → Status × F
  -- `DevicePathSize`, `DevicePathNodeLength`, and `LibMatchDevicePaths` of a multiple and a single path
  pub device_path_size : F → ℕ → ℕ
  pub node_length : F → ℕ → ℕ
  pub match_paths : F → ℕ → ℕ → Bool
  -- `GetDriverName` of a driver, and `GetControllerName` of a driver, a controller and a child
  pub driver_name : ℕ → Language → F → (Status × ℕ) × F
  pub controller_name : ℕ → ℕ → Option ℕ → Language → F → (Status × ℕ) × F
  -- `StrSize` of a string in the memory
  pub str_size : (ℕ → ℕ) → ℕ → ℕ
  pub cat_print : Label → F → ℕ × F
  -- `Reset` of the console's input
  pub reset_input : F → Status × F
  -- `DefaultDriverDisplayName`, `DefaultControllerDisplayName` and `DefaultChildDisplayName`
  pub default_names : Names
  -- the strings of `Wall_of_Shame`
  pub wall : List ℕ

unfoldable pub is_unsupported : Status → Bool
is_unsupported unsupported = true
is_unsupported status = false

unfoldable pub is_already_started : Status → Bool
is_already_started already_started = true
is_already_started status = false

module _ {F : Type 0} where
  -- A name in the first language that is supported, of the three.
  unfoldable pub in_language : (Language → F → (Status × ℕ) × F) → Run F (Status × ℕ)
  in_language name = do
    first ← called (name en_us)
    (if is_unsupported first.0
        then (do
          second ← called (name en)
          (if is_unsupported second.0 then called (name eng) else pure second))
        else pure first)

  -- a name, or the default one after an error
  unfoldable pub name_or : ℕ → (Language → F → (Status × ℕ) × F) → Run F ℕ
  name_or default name = do
    answer ← in_language name
    pure (if efi_error answer.0 then default else answer.1)

-- The loop over `Wall_of_Shame`: whether it is left by `break`.
unfoldable pub on_wall : ((ℕ → ℕ) → ℕ → ℕ) → (ℕ → ℕ) → List ℕ → ℕ → Bool
on_wall str_size m [] name = false
on_wall str_size m (driver ∷ wall) name =
    let a = str_size m name in
    let b = str_size m driver in
    not (compare m name driver (if ltb a b then a else b) == 0) || on_wall str_size m wall name

-- the characters of a text
abbrev pub codes : String → List ℕ
codes String.[] = []
codes (String.◌∷◌ c s) = code c ∷ codes s

-- `AmiPS2Drv`, `AsixUSBEth10Drv`, `SocketLayerDrv` and `Asix10100EthDrv`
abbrev pub wall_of_shame : List (List ℕ)
wall_of_shame =
    codes "AMI PS/2 Driver"
    ∷ codes "ASIX AX88772B Ethernet Driver 1.0"
    ∷ codes "Socket Layer Driver"
    ∷ codes "AX88772 Ethernet Driver"
    ∷ []
