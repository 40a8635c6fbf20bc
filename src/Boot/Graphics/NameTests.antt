-- ===== src/Boot/Graphics/NameTests.antt =====
-- Instances of the theorems on the names of the graphics devices and on `InitUEFI_GOP`, and runs.
use pious_os.Base.{
  ℕ, zero, suc, ◌+◌, ◌*◌, ◌/◌, ◌%◌, ◌≡◌, refl, ◌↔◌, ◌⊎◌, true, false, ◌&&◌, ◌==◌, if◌then◌else◌,
  arith, List, [], ◌∷◌, get_or,
}
use pious_os.Boot.Search.{Status, success, unsupported, failure, efi_error, compare, compare_from}
use pious_os.Boot.Image.Firmware.{Firmware, ok}
use pious_os.Boot.Image.Post.{Post}
use pious_os.Boot.Graphics.Names.{
  Located, graphics_output, component_name2, device_path, Language, en, Label, named_device,
  unknown_device, NameCalls, codes, wall_of_shame, on_wall, is_unsupported, is_already_started,
  in_language, name_or,
}
use pious_os.Boot.Graphics.Drivers.{
  is_excluded, controller_path, manages, controller_names, managed_names, path_names, unshamed_name,
  child_names, generic_names, controller_path_size, is_default, device_names,
}
use pious_os.Boot.Graphics.Managed.{Some, FromPath}
use pious_os.Boot.Graphics.Screened.{OffWall, device_names_lem}
use pious_os.Boot.Graphics.Configured.{Configured}
use pious_os.Boot.Graphics.Tests.{Machine, machine, start}
use pious_os.Boot.Graphics.Wall.{Strings, OneOf, on_wall_lem}

-- a text for each 256 bytes
abbrev text_of : ℕ → List ℕ
text_of r =
    if r == 0x10
    then codes "AMI PS/2 Driver"
    else if r == 0x11
    then codes "ASIX AX88772B Ethernet Driver 1.0"
    else if r == 0x12
    then codes "Socket Layer Driver"
    else if r == 0x13
    then codes "AX88772 Ethernet Driver"
    else if r == 0x20
    then codes "Socket Layer Driver"
    else if r == 0x21
    then codes "Hyper-V Video"
    else []

abbrev memory : ℕ → ℕ
memory a =
    let c = get_or (text_of (a / 256)) (a % 256 / 2) 0 in if a % 2 == 0 then c % 256 else c / 256

chars : (ℕ → ℕ) → ℕ → ℕ → ℕ
chars m zero a = 0
chars m (suc rounds) a =
    let rest = chars m rounds (a + 2) in if m a == 0 && m (a + 1) == 0 then 0 else suc rest

str_size : (ℕ → ℕ) → ℕ → ℕ
str_size m a = 2 * chars m 128 a + 2

abbrev wall : List ℕ
wall = 0x1000 ∷ 0x1100 ∷ 0x1200 ∷ 0x1300 ∷ []

wall-Strings : Strings memory str_size wall wall_of_shame
unfolding str_size chars
wall-Strings = omega arith

-- "Socket Layer Driver"
on_wall_lem_example :
    (on_wall str_size memory wall 0x2000 ≡ true) ↔ OneOf (codes "Socket Layer Driver") wall_of_shame
unfolding str_size chars
on_wall_lem_example =
    on_wall_lem memory str_size wall wall_of_shame 0x2000 (codes "Socket Layer Driver") wall-Strings
      (omega arith)

shamed : on_wall str_size memory wall 0x2000 ≡ true
unfolding on_wall str_size chars compare compare_from
shamed = refl

not_shamed : on_wall str_size memory wall 0x2100 ≡ false
unfolding on_wall str_size chars compare compare_from
not_shamed = refl

-- A device of a virtual machine. The first driver is on the wall; only the generic method finds names.
abbrev calls : NameCalls Machine
calls = record {
  locate_handles =
      λ protocol s. ((success, record { pool = 0x380; handles = handles_of protocol }), s);
  test_protocol = λ protocol handle s. (unsupported, s);
  open_device_path = λ handle s. ((success, handle + 0x100), s);
  open_name2 = λ driver s. (success, s);
  open_pci_io = λ controller driver s. (failure, s);
  close_pci_io = λ controller driver s. (success, s);
  device_path_size = λ s path. 20;
  node_length = λ s path. 8;
  match_paths = λ s one two. one == 0x140;
  driver_name = λ driver language s. ((success, if driver == 0x30 then 0x2000 else 0x2100), s);
  controller_name = λ driver controller child language s. (controller_answer language, s);
  str_size = str_size;
  cat_print = λ label s. (label_address label, s);
  reset_input = λ s. (success, s);
  default_names = record { driver = 0x10; controller = 0x11; child = 0x12 };
  wall = wall;
}
  where
    handles_of : Located → List ℕ
    handles_of graphics_output = 0x20 ∷ 0x21 ∷ []
    handles_of component_name2 = 0x30 ∷ 0x31 ∷ []
    handles_of device_path = 0x40 ∷ []

    controller_answer : Language → Status × ℕ
    controller_answer en = (success, 0x2100)
    controller_answer language = (unsupported, 0)

    label_address : Label → ℕ
    label_address (named_device number graphics names) = graphics * 0x100 + names.driver
    label_address (unknown_device number graphics) = 0

abbrev firmware : Firmware Machine
firmware = record machine { memory = λ s. memory }

device_names_lem_example :
    Post ⊥
      (λ names s'.
        Some
          (FromPath calls 0x20 0x120
            (controller_path_size firmware calls 0x120 start)
            (0x30 ∷ 0x31 ∷ [])
            names)
          (0x40 ∷ [])
        ⊎ OffWall firmware calls names.driver)
      (device_names firmware calls 0x20 0x120 (0x30 ∷ 0x31 ∷ []) (0x40 ∷ []) start)
device_names_lem_example =
    device_names_lem firmware calls 0x20 0x120 (0x30 ∷ 0x31 ∷ []) (0x40 ∷ []) start

-- The names are those of the second driver, in the second language.
found :
    device_names firmware calls 0x20 0x120 (0x30 ∷ 0x31 ∷ []) (0x40 ∷ []) start
    ≡ (ok (record { driver = 0x2100; controller = 0x2100; child = 0x2100 }), start)
unfolding device_names path_names generic_names child_names unshamed_name controller_names
    managed_names manages is_excluded controller_path controller_path_size is_default in_language
    name_or on_wall str_size chars compare compare_from efi_error is_unsupported is_already_started
found = refl
