-- ===== src/Boot/Image/Handover.antt =====
-- `BootKernel` (src/bootloader/boot.c) around the kernel's image: it opens the file, gets the memory map,
-- exits the boot services and fills in the kernel's parameters.
use pious_os.Base.{ℕ, Bool, true, false, if◌then◌else◌}
use pious_os.Boot.Search.{Status, buffer_too_small, efi_error}
use pious_os.Boot.Image.Firmware.{Firmware, Run, pure, return, called, checked, ◌>>=◌}
use pious_os.Boot.Image.Segments.{Image, load_kernel}

-- The variables that `GetMemoryMap` reads and writes: `MemMapSize`, `MemMapKey`, `MemMapDescriptorSize`,
-- `MemMapDescriptorVersion`.
pub record MapInfo : Type 0 where
  pub size : ℕ
  pub key : ℕ
  pub descriptor_size : ℕ
  pub descriptor_version : ℕ

pub record BootCalls (F : Type 0) : Type 0 where
  -- the arguments are the variables' values and the buffer's address
  pub get_memory_map : MapInfo → ℕ → F → (Status × MapInfo) × F
  pub exit_boot_services : ℕ → F → Status × F
  -- `OpenProtocol` for the loaded image and for the file system, `OpenVolume`, and `Open` for the kernel's file
  pub open_loaded_image : F → Status × F
  pub open_file_system : F → Status × F
  pub open_volume : F → Status × F
  pub open_file : F → Status × F
  -- the pool with the root's path, and its size: `DevicePathToStr` and `StrSize`
  pub root_path : F → (ℕ × ℕ) × F
  -- the arguments are the two addresses and the number of bytes
  pub copy_mem : ℕ → ℕ → ℕ → F → F
  -- `GetInfo` with a size and a buffer's address; it answers the size
  pub get_info : ℕ → ℕ → F → (Status × ℕ) × F

unfoldable pub is_too_small : Status → Bool
is_too_small buffer_too_small = true
is_too_small status = false

-- `LOADER_PARAMS`, without `Kernel_Options` and `Kernel_Options_Size`, which no code fills in
pub record LoaderBlock : Type 0 where
  pub uefi_version : ℕ
  pub bootloader_major_version : ℕ
  pub bootloader_minor_version : ℕ
  pub memory_map_descriptor_version : ℕ
  pub memory_map_descriptor_size : ℕ
  pub memory_map : ℕ
  pub memory_map_size : ℕ
  pub kernel_base_address : ℕ
  pub kernel_pages : ℕ
  pub esp_root_device_path : ℕ
  pub esp_root_size : ℕ
  pub kernel_path : ℕ
  pub kernel_path_size : ℕ
  pub rt_services : ℕ
  pub gpu_configs : ℕ
  pub file_meta : ℕ
  pub config_tables : ℕ
  pub number_of_config_tables : ℕ

-- The arguments and variables of `BootKernel` that go into the parameters as they are.
pub record Inputs : Type 0 where
  pub uefi_ver : ℕ
  pub esp_root : ℕ
  pub esp_root_size : ℕ
  pub kernel_path : ℕ
  pub kernel_path_size : ℕ
  pub rt : ℕ
  pub graphics : ℕ
  pub file_info : ℕ
  pub sys_cfg_tables : ℕ
  pub num_sys_cfg_tables : ℕ

abbrev pub loader_block : Inputs → Image → MapInfo → ℕ → LoaderBlock
loader_block inputs image info mem_map = record {
  uefi_version = inputs.uefi_ver;
  bootloader_major_version = 1;
  bootloader_minor_version = 0;
  memory_map_descriptor_version = info.descriptor_version;
  memory_map_descriptor_size = info.descriptor_size;
  memory_map = mem_map;
  memory_map_size = info.size;
  kernel_base_address = image.base;
  kernel_pages = image.pages;
  esp_root_device_path = inputs.esp_root;
  esp_root_size = inputs.esp_root_size;
  kernel_path = inputs.kernel_path;
  kernel_path_size = inputs.kernel_path_size;
  rt_services = inputs.rt;
  gpu_configs = inputs.graphics;
  file_meta = inputs.file_info;
  config_tables = inputs.sys_cfg_tables;
  number_of_config_tables = inputs.num_sys_cfg_tables;
}

module _ {F : Type 0} (fw : Firmware F) (boot : BootCalls F) where
  -- `GetMemoryMap`, again with a new pool where the room was too small. The status of the second call is not
  -- looked at.
  unfoldable pub get_map : MapInfo → ℕ → Run F (MapInfo × ℕ)
  get_map info mem_map = do
    asked ← called (boot.get_memory_map info mem_map)
    (if is_too_small asked.0
        then (do
          pool ← called (fw.allocate_pool asked.1.size)
          status ← checked (λ s. (pool.0, s))
          given ← called (boot.get_memory_map asked.1 pool.1)
          pure (given.1, pool.1))
        else pure (asked.1, mem_map))

  -- what follows the last `ExitBootServices`: the status of `FreePool` is the one returned
  unfoldable pub exited : Status → MapInfo × ℕ → Run F (MapInfo × ℕ)
  exited status map =
      if efi_error status then (do freed ← called (fw.free_pool map.1); return freed) else pure map

  -- `initial` has the values before the first call.
  unfoldable pub exit_boot : MapInfo → Run F (MapInfo × ℕ)
  exit_boot initial = do
    map ← get_map (record initial { size = 0 }) 0
    status ← called (boot.exit_boot_services map.0.key)
    (if efi_error status
        then (do
          freed ← called (fw.free_pool map.1)
          map' ← get_map (record map.0 { size = 0 }) map.1
          status' ← called (boot.exit_boot_services map'.0.key)
          exited status' map')
        else exited status map)

  -- The parameters that the kernel's entry point is called with. `block_size` is `sizeof(LOADER_PARAMS)`.
  unfoldable pub handover : ℕ → Inputs → MapInfo → Image → Run F LoaderBlock
  handover block_size inputs initial image = do
    pool ← called (fw.allocate_pool block_size)
    status ← checked (λ s. (pool.0, s))
    map ← exit_boot initial
    pure (loader_block inputs image map.0 map.1)

  -- The root's path, the kernel's file and its information. The DOS header at `dos_header` is read, and not
  -- used. The status of the first `GetInfo`, which asks for the size, is not looked at.
  unfoldable pub open_kernel : ℕ → Inputs → Run F Inputs
  open_kernel dos_header inputs = do
    loaded ← checked boot.open_loaded_image
    path ← called boot.root_path
    root ← called (fw.allocate_pool path.1)
    status ← checked (λ s. (root.0, s))
    copied ← called (λ s. (tt, boot.copy_mem root.1 path.0 path.1 s))
    freed ← checked (fw.free_pool path.0)
    system ← checked boot.open_file_system
    volume ← checked boot.open_volume
    opened ← checked boot.open_file
    asked ← called (boot.get_info 0 inputs.file_info)
    info ← called (fw.allocate_pool asked.1)
    status' ← checked (λ s. (info.0, s))
    given ← called (boot.get_info asked.1 info.1)
    status'' ← checked (λ s. (given.0, s))
    read ← checked (fw.read 64 dos_header)
    pure (record inputs {
      esp_root = root.1;
      esp_root_size = path.1;
      kernel_path_size = 36;
      file_info = info.1;
    })

  -- `BootKernel`, with the ELF header at `header`: the kernel's parameters, and the address
  -- that is called with them.
  unfoldable pub boot_kernel : ℕ → ℕ → ℕ → ℕ → Inputs → MapInfo → Run F (LoaderBlock × ℕ)
  boot_kernel fuel dos_header header block_size inputs initial = do
    inputs ← open_kernel dos_header inputs
    image ← load_kernel fw fuel header
    block ← handover block_size inputs initial image
    pure (block, image.entry_point)
