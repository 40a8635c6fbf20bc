-- ===== src/Kernel/Memory/Tests.antt =====
-- Instances of the theorems on the memory map: three descriptors on a 32 by 32 screen.
use pious_os.Base.{
  ℕ, ◌*◌, ◌%◌, ◌^◌, ◌≤◌, ◌<◌, ◌≡◌, refl, ◌⊎◌, true, false, not, some, none, arith, leb, ltb,
  if◌then◌else◌,
}
use pious_os.Kernel.Graphics.Screen.{Screen, row_size, col_size}
use pious_os.Kernel.Graphics.Cursor.{IsValid, Moved}
use pious_os.Kernel.Print.Format.{Floats, Precision}
use pious_os.Kernel.Memory.Map.{
  Efi, MemorySettings, memory_mapped_io, other_type, is_usable, get_max_mapped_physical_address,
  get_usable_system_ram, get_total_system_ram, adjust_mem_map_size, walk_until,
}
use pious_os.Kernel.Memory.Walk.{HasDescriptors}
use pious_os.Kernel.Memory.Ram.{
  descriptor, pages, is_left_out, shifted_sum, get_max_mapped_physical_address_lem,
  get_total_system_ram_lem, get_usable_system_ram_lem,
}

-- at 0x2000, 0x2030 and 0x2060: device memory of 16 pages, and two of conventional memory
abbrev three : Efi
three = record {
  page_shift = 12;
  size_to_pages = λ n. if ltb 0 n then 1 else 0;
  read = λ a. record {
    type = if ltb a 0x2030 then memory_mapped_io else other_type 7;
    physical_start = a * 0x1000;
    number_of_pages = 16;
  };
}

abbrev three_settings : MemorySettings
three_settings = record {
  mem_map_size = 144;
  mem_map_descriptor_size = 48;
  mem_map = 0x2000;
  mem_map_descriptor_version = 1;
}

three-HasDescriptors : HasDescriptors three_settings 3
three-HasDescriptors = omega arith

abbrev empty_settings : MemorySettings
empty_settings = record three_settings { mem_map_size = 0 }

abbrev blank : Screen
blank = record {
  settings = record {
    default_gpu = record {
      info = record {
        horizontal_resolution = 32;
        vertical_resolution = 32;
        pixels_per_scan_line = 32;
      };
      frame_buffer_base = 0x1000;
    };
    font_color = 0x00ff_ffff;
    highlight_color = 0x0033_ff33;
    background_color = 0;
    scale = 1;
    index = 0;
  };
  memory = λ a. 0;
}

blank-IsValid : IsValid blank.settings
unfolding row_size col_size
blank-IsValid = omega arith

abbrev naturals : Precision ℕ
naturals = record {
  is_negative = λ d. false;
  at_least_one = λ d. leb 1 d;
  divide = λ d n. 0;
  multiply = λ d n. d * n;
  truncate = λ d. d;
}

abbrev floats : Floats
floats = record {
  Double = ℕ;
  negate = λ d. d;
  single_precision = naturals;
  double_precision = naturals;
}

get_max_mapped_physical_address_lem_example :
    (v : ℕ) × (get_max_mapped_physical_address three three_settings ≡ some v)
    × ((i : ℕ) → i < 3 → shifted_sum 12 (descriptor three three_settings i) ≤ v)
    × ((v ≡ 0) ⊎ ((i : ℕ) × (i < 3) × (v ≡ shifted_sum 12 (descriptor three three_settings i))))
get_max_mapped_physical_address_lem_example =
    get_max_mapped_physical_address_lem three three_settings 3 three-HasDescriptors

get_total_system_ram_lem_example :
    (s' : Screen) × (get_total_system_ram floats three three_settings blank
      ≡ some (pages three three_settings (λ type. true) 3 * 2 ^ 12 % 2 ^ 64, s'))
    × IsValid s'.settings
    × Moved blank.settings s'.settings
get_total_system_ram_lem_example =
    get_total_system_ram_lem three three_settings floats 3 blank three-HasDescriptors blank-IsValid

get_usable_system_ram_lem_example :
    (s' : Screen) × (get_usable_system_ram floats three three_settings blank
      ≡ some (pages three three_settings (λ type. not (is_left_out type)) 3 * 2 ^ 12 % 2 ^ 64, s'))
    × IsValid s'.settings
    × Moved blank.settings s'.settings
get_usable_system_ram_lem_example =
    get_usable_system_ram_lem three three_settings floats 3 blank three-HasDescriptors blank-IsValid

-- 32 of the 48 pages are usable
usable_pages : pages three three_settings is_usable 3 ≡ 32
unfolding is_usable
usable_pages = refl

-- The map of three descriptors is not empty, and nothing is done.
not_adjusted : adjust_mem_map_size three three_settings 100 ≡ none
unfolding adjust_mem_map_size walk_until
not_adjusted = refl
