-- ===== src/Boot/Main/Tests.antt =====
-- An instance of the theorem on `efi_main`, and a run.
use pious_os.Base.{
  ℕ, ◌+◌, ◌^◌, ◌≡◌, refl, true, false, ◌||◌, ◌==◌, if◌then◌else◌, arith, [], ◌∷◌, for_range,
}
use pious_os.Boot.Search.{
  success, failure, unsupported, is_success, efi_error, compare, compare_from, verify_zero_mem,
  verify_zero_from,
}
use pious_os.Boot.Paging.Tables.{
  map_virtual_pages, find_table, descend, allocate, write, write_entries,
}
use pious_os.Boot.Image.Firmware.{Firmware, Result, ok}
use pious_os.Boot.Image.Post.{Post}
use pious_os.Boot.Image.Pages.{image_pages}
use pious_os.Boot.Image.Segments.{
  word, bound, bounds, load_segment, load_segments, map_pages, load_image, load_kernel,
}
use pious_os.Boot.Image.Handover.{
  open_kernel, BootCalls, is_too_small, get_map, exited, exit_boot, handover, boot_kernel,
}
use pious_os.Boot.Graphics.Modes.{GraphicsCalls}
use pious_os.Boot.Graphics.Names.{NameCalls, is_unsupported}
use pious_os.Boot.Graphics.Listed.{
  locate, device_label, device_labels, allocate_names, list_devices, select_option, init_uefi_gop,
}
use pious_os.Boot.Graphics.Devices.{
  configure_mode, configure_device, configure_devices, allocate_array, configure_all, configure,
  free_pools, check_frame_buffer, init_gop,
}
use pious_os.Boot.Main.{Outcome, entered, outcome, Setting, efi_main}
use pious_os.Boot.Main.Entered.{Enters, efi_main-boot_kernel}

-- Memory holds the start of an ELF file at 0x40, which has no program headers, and the magic at 0x800. The
-- state counts the calls of `ExitBootServices`.
abbrev bytes : ℕ → ℕ
bytes a =
    if a == 0x40 || a == 0x800
    then 0x7f
    else if a == 0x44
    then 2
    else if a == 0x52
    then 62
    else if a == 0x59
    then 0x12
    else 0

abbrev pub machine : Firmware ℕ
machine = record {
  memory = λ s. bytes;
  allocate_pages = λ pages address s. (success, s);
  free_pages = λ address pages s. (success, s);
  map_calls = λ s. (
    record { first_call = success; allocation = success; second_call = success; mem_map = [] },
    s,
  );
  zero_mem = λ address n s. s;
  allocate_pool = λ n s. ((success, 0x100), s);
  free_pool = λ address s. (success, s);
  set_position = λ p s. (success, s);
  read = λ n buffer s. (success, s);
  size_to_pages = λ n. 0;
  page_state = λ s. record { words = λ a. 0; allocations = [] };
  with_page_state = λ p s. s;
  cr3 = λ s. 0x1000;
  zero_words = λ m p n. m;
  elf_magic = 0x800;
}

abbrev pub display : GraphicsCalls ℕ
display = record {
  max_mode = λ device. 1;
  open_protocol = λ device s. (success, s);
  current = λ device s. record {
    mode = 0;
    info = record {
      horizontal_resolution = 640;
      vertical_resolution = 480;
      pixels_per_scan_line = 640;
    };
    size_of_info = 36;
    frame_buffer_base = 0x8000_0000;
    frame_buffer_size = 0x12_c000;
  };
  query_mode = λ device mode s. (
    (
      success,
      record { horizontal_resolution = 640; vertical_resolution = 480; pixels_per_scan_line = 640 },
      0x200,
    ),
    s,
  );
  set_mode = λ device mode s. (success, s);
  wait_for_key = λ s. (true, s);
  read_key_stroke = λ s. ((success, 0x30), s);
  mode_size = 40;
}

-- Two devices of a virtual machine, without device paths.
abbrev pub unnamed : NameCalls ℕ
unnamed = record {
  locate_handles =
      λ protocol s. ((success, record { pool = 0x380; handles = 0x21 ∷ 0x22 ∷ [] }), s);
  test_protocol = λ protocol handle s. (success, s);
  open_device_path = λ handle s. ((unsupported, 0), s);
  open_name2 = λ driver s. (success, s);
  open_pci_io = λ controller driver s. (success, s);
  close_pci_io = λ controller driver s. (success, s);
  device_path_size = λ s path. 4;
  node_length = λ s path. 4;
  match_paths = λ s one two. false;
  driver_name = λ driver language s. ((unsupported, 0), s);
  controller_name = λ driver controller child language s. ((unsupported, 0), s);
  str_size = λ m a. 2;
  cat_print = λ label s. (0x300, s);
  reset_input = λ s. (success, s);
  default_names = record { driver = 0x10; controller = 0x11; child = 0x12 };
  wall = [];
}

-- The first call is refused.
abbrev pub leaving : BootCalls ℕ
leaving = record {
  get_memory_map = λ info mem_map s.
      ((success, record { size = 480; key = 7; descriptor_size = 48; descriptor_version = 1 }), s);
  exit_boot_services = λ key s. (if s == 0 then failure else success, s + 1);
  open_loaded_image = λ s. (success, s);
  open_file_system = λ s. (success, s);
  open_volume = λ s. (success, s);
  open_file = λ s. (success, s);
  root_path = λ s. ((0x700, 12), s);
  copy_mem = λ one two n s. s;
  get_info = λ n buffer s. ((success, 80), s);
}

abbrev pub setting : Setting
setting = record {
  config_size = 16;
  block_size = 160;
  debug = false;
  dos_header = 0x600;
  header = 0x40;
  inputs = record {
    uefi_ver = 0x2_0046;
    esp_root = 0x9000;
    esp_root_size = 12;
    kernel_path = 0x9100;
    kernel_path_size = 36;
    rt = 0xa000;
    graphics = 0;
    file_info = 0xc000;
    sys_cfg_tables = 0xd000;
    num_sys_cfg_tables = 4;
  };
  initial = record { size = 0; key = 0; descriptor_size = 0; descriptor_version = 0 };
}

efi_main-boot_kernel_example :
    Post Unit
      (Enters machine (2 ^ 64) leaving 0x40)
      (efi_main machine unnamed display leaving (2 ^ 64) setting 0)
efi_main-boot_kernel_example =
    efi_main-boot_kernel machine (2 ^ 64) (λ s. tt) (omega arith) leaving unnamed display setting 0

abbrev address_of : Result Outcome → ℕ
address_of (ok (entered modes block address)) = address
address_of result = 0

-- The second `ExitBootServices` succeeds, and the kernel is entered at its entry point.
kernel_entered : address_of (efi_main machine unnamed display leaving 3 setting 0).0 ≡ 0x1200
unfolding efi_main init_uefi_gop list_devices locate device_labels device_label allocate_names
    select_option is_success is_unsupported init_gop configure configure_all configure_devices
    configure_device configure_mode allocate_array free_pools check_frame_buffer open_kernel
    boot_kernel load_kernel load_image image_pages load_segments load_segment map_pages bounds bound
    for_range word handover exit_boot get_map exited outcome efi_error is_too_small compare
    compare_from verify_zero_mem verify_zero_from map_virtual_pages find_table descend allocate
    write write_entries
kernel_entered = refl
