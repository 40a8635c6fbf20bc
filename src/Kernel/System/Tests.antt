-- ===== src/Kernel/System/Tests.antt =====
-- Instances of the theorems on `InitializeSystem`, `Abort`, `CompareMemory` and `CopyMemory`.
use pious_os.Base.{
  ℕ, ◌+◌, ◌-◌, ◌*◌, ◌%◌, ◌^◌, ◌≡◌, ◌⊎◌, inl, ◌↔◌, true, false, some, List, refl, arith, ◌&&◌, leb,
  ltb, ◌==◌, if◌then◌else◌,
}
use pious_os.Kernel.Graphics.Screen.{Memory, Screen, initialize_display}
use pious_os.Kernel.Graphics.Pixels.{Fits}
use pious_os.Kernel.Graphics.Cursor.{IsValid, Moved}
use pious_os.Kernel.Graphics.Blank.{initialize_display-IsValid}
use pious_os.Kernel.Print.Format.{Floats, Precision}
use pious_os.Kernel.Memory.Map.{Efi, other_type, get_total_system_ram}
use pious_os.Kernel.Interrupts.Setup.{Linker, Processor, initial_gdt_tss}
use pious_os.Kernel.System.Arch.{
  LoaderParams, Bytes, initialize_system, abort, compare_memory, copy_memory,
}
use pious_os.Kernel.System.Bytes.{compare_memory_lem, copy_memory_lem}
use pious_os.Kernel.System.Entry.{kernel_main}
use pious_os.Kernel.System.Idle.{kernel_main_lem}
use pious_os.Kernel.System.Greeted.{greeting, kernel_main-type_actions}
use pious_os.Kernel.Print.Number.{long_hex_upper, long_unsigned}
use pious_os.Kernel.Terminal.Typed.{Shows}
use pious_os.Kernel.Terminal.Started.{blank_terminal, IsWhole, initialize_display-Shows}
use pious_os.Kernel.System.Aborted.{reported, abort-type_actions}
use pious_os.Kernel.System.Start.{initialize_system-get_total_system_ram}

abbrev numbers : Bytes
numbers = λ a. a % 256

compare_memory_lem_example :
    (compare_memory numbers 0x100 0x200 16 ≡ (if 16 == 0 then 0 else (0 + 2 ^ 16 - 0) % 2 ^ 16))
    × ((compare_memory numbers 0x100 0x200 16 ≡ 0)
        ↔ ((◌≡◌ {A = ℕ} 16 0) ⊎ (numbers 0x100 ≡ numbers 0x200)))
compare_memory_lem_example = compare_memory_lem numbers 0x100 0x200 16 (omega arith) (omega arith)

-- The blocks overlap, and are moved down.
copy_memory_lem_example : copy_memory numbers 0x100 0x108 16 0x102 ≡ (
    if leb 0x100 0x102 && ltb 0x102 (0x100 + 16)
    then numbers (0x108 + (0x102 - 0x100))
    else numbers 0x102)
copy_memory_lem_example =
    copy_memory_lem numbers 0x100 0x108 16 0x102 (omega arith) (omega arith) (inl (omega arith))

abbrev one_map : Efi
one_map = record {
  page_shift = 12;
  size_to_pages = λ n. if ltb 0 n then 1 else 0;
  read = λ a. record { type = other_type 7; physical_start = a; number_of_pages = 256 };
}

abbrev parameters : LoaderParams
parameters = record {
  memory_map = 0x9000;
  memory_map_size = 480;
  memory_map_descriptor_size = 48;
  memory_map_descriptor_version = 1;
  gpu_array0 = record {
    info = record {
      horizontal_resolution = 1280;
      vertical_resolution = 1024;
      pixels_per_scan_line = 1280;
    };
    frame_buffer_base = 0xc000_0000;
  };
}

abbrev whole : Precision ℕ
whole = record {
  is_negative = λ d. false;
  at_least_one = λ d. leb 1 d;
  divide = λ d n. 0;
  multiply = λ d n. d * n;
  truncate = λ d. d;
}

abbrev pub integers : Floats
integers = record {
  Double = ℕ;
  negate = λ d. d;
  single_precision = whole;
  double_precision = whole;
}

abbrev pub links : Linker
links = record {
  pusher = λ p. 0x5000;
  minimal_gdt = 0x1000;
  tss64 = 0x1100;
  idt_data = 0x2000;
  nmi_stack = 0x1_0000;
  df_stack = 0x2_0000;
  mc_stack = 0x3_0000;
  bp_stack = 0x4_0000;
}

abbrev pub zeros : Memory
zeros = λ a. 0

parameters-Fits : Fits parameters.gpu_array0
parameters-Fits = omega arith

parameters-IsValid : IsValid (initialize_display parameters.gpu_array0 zeros).settings
parameters-IsValid =
    (initialize_display-IsValid parameters.gpu_array0 zeros parameters-Fits (omega arith)
      (omega arith) (omega arith) (omega arith)).0

system-IsValid :
    (c : Processor) → IsValid (initialize_system links parameters zeros c).screen.settings
unfolding initialize_system
system-IsValid c = parameters-IsValid

abbrev pub processor : Processor
processor = record {
  cr0 = 0;
  cr4 = 0;
  gdtr = record { limit = 0; base_address = 0 };
  idtr = record { limit = 0; base_address = 0 };
  task_register = 0;
  gdt_tss = initial_gdt_tss;
  code_segment = 0x38;
  data_segments = 0x30;
  tss64 = record {
    rsp0 = 0;
    rsp1 = 0;
    rsp2 = 0;
    ist0 = 0;
    ist1 = 0;
    ist2 = 0;
    ist3 = 0;
    ist4 = 0;
    ist5 = 0;
    ist6 = 0;
    ist7 = 0;
  };
  idt = λ v. record {
    offset1 = 0;
    segment_selector = 0;
    ist_and_zero = 0;
    misc = 0;
    offset2 = 0;
    offset3 = 0;
    reserved = 0;
  };
}

initialize_system-get_total_system_ram_example :
    (s' : Screen) × (get_total_system_ram integers one_map
        (initialize_system links parameters zeros processor).main_memory_settings
        (initialize_system links parameters zeros processor).screen
      ≡ some (256 * 2 ^ 12 % 2 ^ 64, s'))
    × IsValid s'.settings
initialize_system-get_total_system_ram_example =
    initialize_system-get_total_system_ram integers one_map links parameters zeros processor
      (omega arith) (omega arith) (system-IsValid processor)

kernel_main_lem_example :
    (s : Screen) × (kernel_main integers true links parameters zeros processor 0x9_0000 0x7f00_0000
        11
      ≡ some (record (initialize_system links parameters zeros processor) { screen = s }))
    × IsValid s.settings
    × Moved (initialize_system links parameters zeros processor).screen.settings s.settings
kernel_main_lem_example =
    kernel_main_lem integers true links parameters zeros processor 0x9_0000 0x7f00_0000 11
      (system-IsValid processor)

parameters-IsWhole : IsWhole parameters.gpu_array0
parameters-IsWhole = record {
  fits = parameters-Fits;
  no_porch = refl;
  wide = omega arith;
  high = omega arith;
}

kernel_main-type_actions_example :
    (s : Screen) × (cs : List ℕ) × (ds : List ℕ) × (es : List ℕ) × (long_hex_upper 0x9_0000
      ≡ some cs)
    × (long_hex_upper 0x7f00_0000 ≡ some ds)
    × (long_unsigned 11 ≡ some es)
    × (kernel_main integers true links parameters zeros processor 0x9_0000 0x7f00_0000 11
        ≡ some (record (initialize_system links parameters zeros processor) { screen = s }))
    × Shows s
        (greeting (initialize_system links parameters zeros processor).screen.settings cs ds es)
kernel_main-type_actions_example =
    kernel_main-type_actions integers links parameters zeros processor 0x9_0000 0x7f00_0000 11
      parameters-IsWhole

abort-type_actions_example :
    (u : Screen) × (cs : List ℕ) × (long_hex_upper 14 ≡ some cs)
    × (abort integers true 14 (initialize_display parameters.gpu_array0 zeros) ≡ some u)
    × Shows u (reported (initialize_display parameters.gpu_array0 zeros).settings cs blank_terminal)
abort-type_actions_example =
    abort-type_actions integers 14 (initialize_display parameters.gpu_array0 zeros) blank_terminal
      (initialize_display-Shows parameters.gpu_array0 zeros parameters-IsWhole)
