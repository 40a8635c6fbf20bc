-- ===== src/Startup/Tests.antt =====
-- An instance of the theorem on the boot loader and the kernel together.
use pious_os.Base.{◌^◌, refl, arith}
use pious_os.Boot.Image.Post.{Post}
use pious_os.Boot.Main.{efi_main}
use pious_os.Boot.Main.Tests.{machine, unnamed, display, leaving, setting}
use pious_os.Kernel.Graphics.Pixels.{Fits}
use pious_os.Kernel.System.Tests.{integers, links, zeros, processor}
use pious_os.Startup.{graphics_mode}
use pious_os.Startup.Shown.{IsSuitable, Greets, efi_main-kernel_main}

display-Fits : Fits (graphics_mode (display.current 0 0))
unfolding graphics_mode
display-Fits = omega arith

display-IsSuitable : IsSuitable (display.current 0 0)
unfolding graphics_mode
display-IsSuitable = record {
  fits = display-Fits;
  no_porch = refl;
  wide = omega arith;
  high = omega arith;
}

efi_main-kernel_main_example :
    Post Unit
      (Greets machine leaving integers links zeros processor 0x9_0000)
      (efi_main machine unnamed display leaving (2 ^ 64) setting 0)
efi_main-kernel_main_example =
    efi_main-kernel_main machine leaving integers links zeros processor 0x9_0000 unnamed display
      (2 ^ 64) setting 0 (λ s. tt) (omega arith) (λ device s. display-IsSuitable)
