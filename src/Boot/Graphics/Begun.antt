-- ===== src/Boot/Graphics/Begun.antt =====
-- `InitUEFI_GOP` (src/bootloader/boot.c) as a whole: the list of the devices, the option, and the modes.
use pious_os.Base.{ℕ, zero, suc, ◌+◌, ◌≡◌, false, List, [], ◌∷◌, ◌++◌}
use pious_os.Boot.Search.{efi_error}
use pious_os.Boot.Image.Firmware.{Firmware, Run, pure}
use pious_os.Boot.Image.Post.{Post}
use pious_os.Boot.Graphics.Names.{graphics_output, NameCalls}
use pious_os.Boot.Graphics.Listed.{Devices}
use pious_os.Boot.Graphics.Modes.{GraphicsCalls, Mode}
use pious_os.Boot.Graphics.Configured.{Sets, Configured}

abbrev pools_of : Devices → List ℕ
pools_of devices = devices.names ++ devices.name_buffer ∷ devices.graphics.pool ∷ []

module _ {F : Type 0} (fw : Firmware F) (gop : GraphicsCalls F) where
  -- What the device reports once `SetMode` has set its mode 0, and a pool was allocated.
  abbrev pub FirstMode : ℕ → Mode → Type 0
  FirstMode device entry =
      (entry.mode ≡ 0)
      × ((s : F) × (size : ℕ) × (efi_error (gop.set_mode device 0 s).0 ≡ false)
          × (entry ≡ gop.current device (fw.allocate_pool size (gop.set_mode device 0 s).1).1))

  -- one entry for each of `rounds` devices from `device` on, in its mode 0
  abbrev pub AllFirst : ℕ → ℕ → List Mode → Type 0
  AllFirst zero device [] = Unit
  AllFirst zero device (mode ∷ modes) = ⊥
  AllFirst (suc rounds) device [] = ⊥
  AllFirst (suc rounds) device (mode ∷ modes) =
      FirstMode device mode × AllFirst rounds (device + 1) modes

module _ {F : Type 0} (fw : Firmware F) (gop : GraphicsCalls F) (sets : Sets fw gop) where
  first : ℕ → Run F ℕ
  first device = pure 0

  module _ (calls : NameCalls F) where
    -- `GraphicsHandles` of a run
    abbrev pub graphics_handles : F → List ℕ
    graphics_handles s = (calls.locate_handles graphics_output s).0.1.handles
