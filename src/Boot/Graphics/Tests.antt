-- ===== src/Boot/Graphics/Tests.antt =====
-- Instances of the theorems on the graphics devices.
use pious_os.Base.{ℕ, ◌≡◌, refl, true, ◌==◌, if◌then◌else◌, arith, ==_iff, List, [], ◌∷◌}
use pious_os.Boot.Search.{success, efi_error}
use pious_os.Boot.Image.Firmware.{Firmware, Result, ok}
use pious_os.Boot.Image.Post.{Post}
use pious_os.Boot.Graphics.Modes.{GraphicsCalls, Mode, ModeInformation, query, find_mode, mode_1024}
use pious_os.Boot.Graphics.Devices.{
  configure_mode, configure_device, configure_devices, allocate_array, configure_all, configure,
  free_pools, check_frame_buffer, init_gop,
}
use pious_os.Boot.Graphics.Configured.{Sets}
use pious_os.Boot.Graphics.Size.{First, mode_1024_lem}

-- the mode of each device
abbrev pub Machine : Type 0
Machine = ℕ → ℕ

abbrev pub machine : Firmware Machine
machine = record {
  memory = λ s a. 0;
  allocate_pages = λ pages address s. (success, s);
  free_pages = λ address pages s. (success, s);
  map_calls = λ s. (
    record { first_call = success; allocation = success; second_call = success; mem_map = [] },
    s,
  );
  zero_mem = λ address n s. s;
  allocate_pool = λ n s. ((success, 0x100), s);
  free_pool = λ address s. (success, s);
  set_position = λ p s. (success, s);
  read = λ n buffer s. (success, s);
  size_to_pages = λ n. n;
  page_state = λ s. record { words = λ a. 0; allocations = [] };
  with_page_state = λ p s. s;
  cr3 = λ s. 0x1000;
  zero_words = λ m p n. m;
  elf_magic = 0x800;
}

-- the third mode has 1024 by 768 pixels
abbrev pub sizes : ℕ → ModeInformation
sizes k =
    if k == 2
    then record {
      horizontal_resolution = 1024;
      vertical_resolution = 768;
      pixels_per_scan_line = 1024;
    }
    else record {
      horizontal_resolution = 640;
      vertical_resolution = 480;
      pixels_per_scan_line = 640;
    }

abbrev pub displays : GraphicsCalls Machine
displays = record {
  max_mode = λ device. 4;
  open_protocol = λ device s. (success, s);
  current = λ device s. record {
    mode = s device;
    info = sizes (s device);
    size_of_info = 36;
    frame_buffer_base = 0x8000_0000;
    frame_buffer_size = 0x30_0000;
  };
  query_mode = λ device mode s. ((success, sizes mode, 0x200), s);
  set_mode = λ device mode s. (success, λ d. if d == device then mode else s d);
  wait_for_key = λ s. (true, s);
  read_key_stroke = λ s. ((success, 0x31), s);
  mode_size = 40;
}

set_here : (device mode : ℕ) (s : Machine) → (if device == device then mode else s device) ≡ mode
set_here device mode s =
    let same : (device == device) ≡ true = (==_iff device device).1 refl in rw same refl

pub displays-Sets : Sets machine displays
displays-Sets = record {
  has_modes = λ device. (omega arith, omega arith);
  set = λ device mode s good. set_here device mode s;
  kept = λ device n s. refl;
}

abbrev pub start : Machine
start device = 1

mode_1024_lem_example :
    Post ⊥
      (λ mode s'. First machine displays 0 sizes (λ mode s. refl) 4 mode)
      (mode_1024 machine displays 0 start)
mode_1024_lem_example = mode_1024_lem machine displays 0 sizes (λ mode s. refl) start

chosen : mode_1024 machine displays 0 start ≡ (ok 2, start)
unfolding mode_1024 find_mode query efi_error
chosen = refl

abbrev mode_numbers : List Mode → List ℕ
mode_numbers [] = []
mode_numbers (mode ∷ modes) = mode.mode ∷ mode_numbers modes

abbrev numbers_of : Result (List Mode) → List ℕ
numbers_of (ok modes) = mode_numbers modes
numbers_of result = []

-- The choice of 1024 by 768 for two devices.
both : numbers_of (init_gop machine displays 9 2 3 (0x300 ∷ []) start).0 ≡ 2 ∷ 2 ∷ []
unfolding init_gop configure configure_all configure_devices configure_device configure_mode
    allocate_array mode_1024 find_mode query free_pools check_frame_buffer efi_error
both = refl
