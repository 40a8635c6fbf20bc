-- ===== src/Startup.antt =====
-- The call of the kernel's entry point at the end of `BootKernel` (src/bootloader/boot.c), which is `kernel_main`
-- of src/kernel/kernel.c.
use pious_os.Base.{ℕ, Bool, Option, none, List, [], ◌∷◌}
use pious_os.Boot.Graphics.Modes.{Mode}
use pious_os.Boot.Image.Handover.{LoaderBlock}
use pious_os.Boot.Main.{Outcome, entered, halted}
use pious_os.Kernel.Graphics.Screen.{GraphicsMode, Memory}
use pious_os.Kernel.Print.Format.{Floats}
use pious_os.Kernel.Interrupts.Setup.{Linker, Processor}
use pious_os.Kernel.System.Arch.{LoaderParams, System}
use pious_os.Kernel.System.Entry.{kernel_main}
pub mod Shown
mod Tests

-- an entry of `GPUArray`, as the kernel reads it
unfoldable pub graphics_mode : Mode → GraphicsMode
graphics_mode mode = record {
  info = record {
    horizontal_resolution = mode.info.horizontal_resolution;
    vertical_resolution = mode.info.vertical_resolution;
    pixels_per_scan_line = mode.info.pixels_per_scan_line;
  };
  frame_buffer_base = mode.frame_buffer_base;
}

-- the parameters, as the kernel reads them
unfoldable pub loader_params : Mode → LoaderBlock → LoaderParams
loader_params mode block = record {
  memory_map = block.memory_map;
  memory_map_size = block.memory_map_size;
  memory_map_descriptor_size = block.memory_map_descriptor_size;
  memory_map_descriptor_version = block.memory_map_descriptor_version;
  gpu_array0 = graphics_mode mode;
}

-- What the kernel does up to its idle loop, where the loader has entered it, and the code at the address is
-- `kernel_main`. `kernel_stack` is the address of its stack. What it does without an entry of `GPUArray` is not
-- modelled.
unfoldable pub run_kernel :
    Floats → Bool → Linker → Memory → Processor → ℕ → Outcome → Option System
run_kernel F debug l m c kernel_stack (entered [] block address) = none
run_kernel F debug l m c kernel_stack (entered (mode ∷ modes) block address) =
    kernel_main F debug l (loader_params mode block) m c kernel_stack block.config_tables
      block.number_of_config_tables
run_kernel F debug l m c kernel_stack (halted status) = none
