-- ===== src/Boot/Main.antt =====
-- `efi_main` of src/bootloader/boot.c: the graphics devices, then the kernel.
use pious_os.Base.{ℕ, Bool, List}
use pious_os.Boot.Search.{Status}
use pious_os.Boot.Image.Firmware.{
  Firmware, Result, ok, returned, out_of_fuel, Run, called, checked, ◌>>=◌,
}
use pious_os.Boot.Image.Handover.{MapInfo, BootCalls, LoaderBlock, Inputs, boot_kernel}
use pious_os.Boot.Graphics.Modes.{GraphicsCalls, Mode}
use pious_os.Boot.Graphics.Names.{NameCalls}
use pious_os.Boot.Graphics.Listed.{init_uefi_gop}
pub mod Entered
pub mod Tests

-- The kernel is called with its parameters at an address, the list being what `GPU_Configs` points to, or `BootKernel` has returned, and the loader loops
-- forever.
pub data Outcome : Type 0 where
  entered : List Mode → LoaderBlock → ℕ → Outcome
  halted : Status → Outcome

unfoldable pub outcome :
    {F : Type 0} → List Mode → Result (LoaderBlock × ℕ) × F → Result Outcome × F
outcome modes (ok (block, address), s) = (ok (entered modes block address), s)
outcome modes (returned status, s) = (ok (halted status), s)
outcome modes (out_of_fuel, s) = (out_of_fuel, s)

-- What `efi_main` runs with: `sizeof(GPU_CONFIG)` and `sizeof(LOADER_PARAMS)`, whether DEBUG_PIOUS is defined,
-- and the addresses of the DOS header and the ELF header.
pub record Setting : Type 0 where
  pub config_size : ℕ
  pub block_size : ℕ
  pub debug : Bool
  pub dos_header : ℕ
  pub header : ℕ
  pub inputs : Inputs
  pub initial : MapInfo

module _ {F : Type 0} (fw : Firmware F) (calls : NameCalls F) (gop : GraphicsCalls F)
    (boot : BootCalls F) where
  unfoldable pub efi_main : ℕ → Setting → Run F Outcome
  efi_main fuel set = do
    pool ← called (fw.allocate_pool set.config_size)
    status ← checked (λ s. (pool.0, s))
    modes ← init_uefi_gop fw calls gop fuel set.debug
    λ s. outcome modes (
        boot_kernel fw boot fuel set.dos_header set.header set.block_size
          (record set.inputs { graphics = pool.1 }) set.initial s)
