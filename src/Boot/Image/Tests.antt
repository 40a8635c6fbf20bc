-- ===== src/Boot/Image/Tests.antt =====
-- Instances of the theorems on the kernel's image.
use pious_os.Base.{
  ℕ, zero, suc, ◌+◌, ◌-◌, ◌*◌, ◌/◌, ◌%◌, ◌^◌, ◌≤◌, ◌<◌, ◌≡◌, refl, ◌⊎◌, inl, true, ltb, leb, ◌&&◌,
  ◌||◌, ◌==◌, if◌then◌else◌, for_range, lt→ltb, arith, [], ◌∷◌,
}
use pious_os.Kernel.Memory.Map.{conventional_memory}
use pious_os.Boot.Search.{success, failure, efi_error, MapCalls}
use pious_os.Boot.Image.Firmware.{Firmware, Result, ok, returned}
use pious_os.Boot.Image.Post.{Post}
use pious_os.Boot.Image.Pages.{image_pages}
use pious_os.Boot.Image.Found.{RunsOn, Given, image_pages_lem}
use pious_os.Boot.Image.Segments.{
  word, p_vaddr, p_memsz, p_offset, p_filesz, header_at, bound, bounds, section_address,
  load_segments,
}
use pious_os.Boot.Image.Inside.{Loadable, section_address-bounds}
use pious_os.Boot.Image.Handover.{
  MapInfo, BootCalls, LoaderBlock, is_too_small, Inputs, get_map, exited, exit_boot, handover,
}
use pious_os.Boot.Image.Segments.{Image}
use pious_os.Boot.Image.Returned.{Returns, Excuse, handover-Returns}
use pious_os.Boot.Image.Files.{FileCalls}
use pious_os.Boot.Image.Loaded.{Apart, Stands, load_segments-load_segment}

record Machine : Type 0 where
  pub memory : ℕ → ℕ
  pub position : ℕ

-- a file of 100 bytes
abbrev file : ℕ → ℕ
file a = a % 7

abbrev with_file : ℕ → ℕ → ℕ → (ℕ → ℕ) → ℕ → ℕ
with_file position n buffer m a =
    if leb buffer a && ltb a (buffer + n) then file (position + (a - buffer)) else m a

abbrev calls : MapCalls
calls = record {
  first_call = success;
  allocation = success;
  second_call = success;
  mem_map =
      record { type = conventional_memory; physical_start = 0x10_0000; number_of_pages = 256 } ∷ [];
}

abbrev round_up : ℕ → ℕ
round_up n = (n + 4095) / 4096

abbrev machine : Firmware Machine
machine = record {
  memory = λ s. s.memory;
  allocate_pages = λ pages address s. (success, s);
  free_pages = λ address pages s. (success, s);
  map_calls = λ s. (calls, s);
  zero_mem = λ address n s. s;
  allocate_pool = λ n s. ((success, 0x100), s);
  free_pool = λ address s. (success, s);
  set_position = λ p s. (success, record s { position = p });
  read = λ n buffer s. (success, record s { memory = with_file s.position n buffer s.memory });
  size_to_pages = round_up;
  page_state = λ s. record { words = λ a. 0; allocations = [] };
  with_page_state = λ p s. s;
  cr3 = λ s. 0x1000;
  zero_words = λ m p n. m;
  elf_magic = 0x800;
}

with_file-inside :
    (position n buffer k : ℕ) (m : ℕ → ℕ)
    → k < n
    → with_file position n buffer m (buffer + k) ≡ file (position + k)
with_file-inside position n buffer k m h =
    let above : leb buffer (buffer + k) ≡ true = ground arith in
    let below : ltb (buffer + k) (buffer + n) ≡ true =
      lt→ltb (buffer + k) (buffer + n) (omega (arith, h)) in
    let distance : buffer + k - buffer ≡ k = omega arith in rw (above, below, distance) refl

with_file-outside :
    (position n buffer a : ℕ) (m : ℕ → ℕ)
    → (a < buffer) ⊎ (buffer + n ≤ a)
    → with_file position n buffer m a ≡ m a
with_file-outside position n buffer a m h = ground arith

machine-FileCalls : FileCalls machine file 100 (λ s. s.position)
unfolding efi_error
machine-FileCalls = record {
  set_position-position = λ p s fits last good. refl;
  set_position-memory = λ p a s. refl;
  read-inside = λ n buffer k s good h fits last. with_file-inside s.position n buffer k s.memory h;
  read-outside = λ n buffer a s h. with_file-outside s.position n buffer a s.memory h;
}

-- one program header at 0x100: a loadable segment of 8 bytes at the address 0, from the file's byte 16 on
abbrev headers : ℕ → ℕ
headers a =
    if a == 0x100 then 1 else if a == 0x108 then 16 else if a == 0x120 || a == 0x128 then 8 else 0

abbrev start : Machine
start = record { memory = headers; position = 0 }

image_pages_lem_example :
    Post
      (RunsOn machine (2 ^ 64) 1)
      (Given machine (2 ^ 64) 1)
      (image_pages machine (2 ^ 64) 1 start)
image_pages_lem_example =
    image_pages_lem machine (λ s. (omega arith, tt)) (2 ^ 64) 1 (omega arith) start

abbrev pages_of : ℕ
pages_of = round_up (((bounds headers 0x100 1).0 + 2 ^ 64 - (bounds headers 0x100 1).1) % 2 ^ 64)

no_later : {P : Type 0} (j : ℕ) → suc j < 1 → P
no_later j h = absurd (omega (arith, h))

section_address-bounds_example :
    (0x4000_0000 ≤ section_address headers 0x100 0x4000_0000 0)
    × (section_address headers 0x100 0x4000_0000 0 + p_memsz headers (header_at 0x100 0)
        ≤ 0x4000_0000 + pages_of * 4096)
unfolding word bounds for_range bound
section_address-bounds_example =
    section_address-bounds headers 0x100 1 0x4000_0000 0 round_up (λ n. omega arith) (omega arith)
      refl only (omega arith) (omega arith) refl
  where
    only :
        (j : ℕ)
        → j < 1
        → Loadable headers 0x100 j
        → (p_vaddr headers (header_at 0x100 0) ≤ p_vaddr headers (header_at 0x100 j))
          × (p_vaddr headers (header_at 0x100 j) + p_memsz headers (header_at 0x100 j) < 2 ^ 64)
    only zero h l = (omega arith, omega arith)
    only (suc j) h l = no_later j h

start-Apart : Apart machine file 100 (λ s. s.position) machine-FileCalls 0x100 0x4000_0000 1 headers
unfolding word
start-Apart = record {
  file_end = omega arith;
  in_file = in_file;
  table_end = omega arith;
  block_end = block_end;
  from_table = from_table;
  from_block = λ i j h h'. absurd (omega (arith, h, h'));
}
  where
    in_file :
        (i : ℕ)
        → i < 1
        → Loadable headers 0x100 i
        → p_offset headers (header_at 0x100 i) + p_filesz headers (header_at 0x100 i) ≤ 100
    in_file zero h l = omega arith
    in_file (suc i) h l = no_later i h

    block_end :
        (i : ℕ)
        → i < 1
        → Loadable headers 0x100 i
        → section_address headers 0x100 0x4000_0000 i + p_filesz headers (header_at 0x100 i)
          ≤ 2 ^ 64
    block_end zero h l = omega arith
    block_end (suc i) h l = no_later i h

    from_table :
        (i : ℕ)
        → i < 1
        → Loadable headers 0x100 i
        → (header_at 0x100 1 ≤ section_address headers 0x100 0x4000_0000 i)
          ⊎ (section_address headers 0x100 0x4000_0000 i + p_filesz headers (header_at 0x100 i)
              ≤ 0x100)
    from_table zero h l = inl (omega arith)
    from_table (suc i) h l = no_later i h

load_segments-load_segment_example :
    Post ⊥
      (λ done s'.
        (i : ℕ)
        → i < 1
        → Loadable headers 0x100 i
        → Stands machine file 100
            (λ s. s.position)
            machine-FileCalls
            0x100
            0x4000_0000
            1
            headers
            s'
            i)
      (load_segments machine 0x100 0x4000_0000 1 0 start)
load_segments-load_segment_example =
    load_segments-load_segment machine file 100 (λ s. s.position) machine-FileCalls 0x100
      0x4000_0000 1 headers start start-Apart refl

abbrev map_info : MapInfo
map_info = record { size = 480; key = 7; descriptor_size = 48; descriptor_version = 1 }

-- The boot services end for the key 7, and for no key.
abbrev leaving : BootCalls Machine
leaving = record {
  get_memory_map = λ info mem_map s. ((success, map_info), s);
  exit_boot_services = λ key s. (if key == 7 then success else failure, s);
  open_loaded_image = λ s. (success, s);
  open_file_system = λ s. (success, s);
  open_volume = λ s. (success, s);
  open_file = λ s. (success, s);
  root_path = λ s. ((0x700, 12), s);
  copy_mem = λ one two n s. s;
  get_info = λ n buffer s. ((success, 80), s);
}

abbrev staying : BootCalls Machine
staying = record {
  get_memory_map = λ info mem_map s. ((success, map_info), s);
  exit_boot_services = λ key s. (failure, s);
  open_loaded_image = λ s. (success, s);
  open_file_system = λ s. (success, s);
  open_volume = λ s. (success, s);
  open_file = λ s. (success, s);
  root_path = λ s. ((0x700, 12), s);
  copy_mem = λ one two n s. s;
  get_info = λ n buffer s. ((success, 80), s);
}

abbrev inputs : Inputs
inputs = record {
  uefi_ver = 0x2_0046;
  esp_root = 0x9000;
  esp_root_size = 12;
  kernel_path = 0x9100;
  kernel_path_size = 36;
  rt = 0xa000;
  graphics = 0xb000;
  file_info = 0xc000;
  sys_cfg_tables = 0xd000;
  num_sys_cfg_tables = 4;
}

abbrev image : Image
image = record { base = 0x4000_0000; start = 0; pages = 1; entry_point = 0 }

-- The kernel's entry point is called, with the map's size.
abbrev map_size_of : Result LoaderBlock → ℕ
map_size_of (ok block) = block.memory_map_size
map_size_of result = 0

handed_over : map_size_of (handover machine leaving 160 inputs map_info image start).0 ≡ 480
unfolding handover exit_boot get_map exited efi_error is_too_small
handed_over = refl

handover-Returns_example :
    Returns (Excuse machine staying) (handover machine staying 160 inputs map_info image start)
handover-Returns_example = handover-Returns machine staying 160 inputs map_info image start

-- Both calls of `ExitBootServices` fail, and success is returned.
given_up : (handover machine staying 160 inputs map_info image start).0 ≡ returned success
unfolding handover exit_boot get_map exited efi_error is_too_small
given_up = refl
