-- ===== src/Startup/Shown.antt =====
-- What is on the screen when `efi_main` (src/bootloader/boot.c) has entered the kernel.
use pious_os.Base.{true, ℕ, ◌^◌, ◌≤◌, ◌≡◌, refl, some, List, [], ◌∷◌}
use pious_os.Boot.Image.Firmware.{Firmware, Result, ok, returned, out_of_fuel, checked}
use pious_os.Boot.Image.Post.{Post, Post-then, Post-seq}
use pious_os.Boot.Image.Onward.{Starts}
use pious_os.Boot.Image.Handover.{MapInfo, BootCalls, LoaderBlock, boot_kernel}
use pious_os.Boot.Image.Exited.{Left}
use pious_os.Boot.Graphics.Modes.{GraphicsCalls, Mode}
use pious_os.Boot.Graphics.Names.{NameCalls}
use pious_os.Boot.Graphics.Listed.{init_uefi_gop}
use pious_os.Boot.Graphics.Reported.{First, init_uefi_gop-First}
use pious_os.Boot.Main.{Outcome, entered, halted, outcome, Setting, efi_main}
use pious_os.Boot.Main.Entered.{CanEnter, boot_kernel_enters}
use pious_os.Kernel.Graphics.Screen.{Memory, initialize_display}
use pious_os.Kernel.Print.Number.{long_hex_upper, long_unsigned}
use pious_os.Kernel.Print.Format.{Floats}
use pious_os.Kernel.Memory.Map.{initialize_memory}
use pious_os.Kernel.Interrupts.Setup.{Linker, Processor}
use pious_os.Kernel.System.Arch.{System, initialize_system}
use pious_os.Kernel.System.Greeted.{greeting, kernel_main-type_actions}
use pious_os.Kernel.Terminal.Typed.{Shows}
use pious_os.Kernel.Terminal.Started.{IsWhole}
use pious_os.Startup.{graphics_mode, loader_params, run_kernel}

-- The mode is one that the kernel can show all of its text in.
abbrev pub IsSuitable : Mode → Type 0
IsSuitable mode = IsWhole (graphics_mode mode)

module _ {F : Type 0} (fw : Firmware F) (boot : BootCalls F) (fl : Floats) (l : Linker) (m : Memory)
    (c : Processor) (kernel_stack : ℕ) where
  -- Where the kernel is entered, the boot services have ended with the last memory map, the kernel's memory
  -- settings have the size of that map, and the screen shows the kernel's lines.
  abbrev pub Greets : Outcome → F → Type 0
  Greets (entered [] block address) s = ⊥
  Greets (entered (mode ∷ modes) block address) s =
      (info : MapInfo) × Left fw boot info s
      × (system : System) × (cs : List ℕ) × (ds : List ℕ) × (es : List ℕ) × (long_hex_upper
            kernel_stack
          ≡ some cs)
      × (long_hex_upper block.config_tables ≡ some ds)
      × (long_unsigned block.number_of_config_tables ≡ some es)
      × (run_kernel fl true l m c kernel_stack (entered (mode ∷ modes) block address) ≡ some system)
      × (system.main_memory_settings.mem_map_size ≡ info.size)
      × (system.main_memory_settings.mem_map ≡ block.memory_map)
      × Shows system.screen (greeting (initialize_display (graphics_mode mode) m).settings cs ds es)
  Greets (halted status) s = Unit

  entered-Greets :
      (fuel header : ℕ) (modes : List Mode) (block : LoaderBlock) (address : ℕ) (s : F)
      → First IsSuitable modes
      → CanEnter fw fuel boot header block address s
      → Greets (entered modes block address) s
  unfolding run_kernel loader_params initialize_system initialize_memory
  entered-Greets fuel header [] block address s h h' = absurd h
  entered-Greets fuel header (mode ∷ modes) block address s h ((info, left, carried), image) =
      let (u, cs, ds, es, stacked, tabled, numbered, run, shows) =
        kernel_main-type_actions fl l (loader_params mode block) m c kernel_stack
          block.config_tables block.number_of_config_tables h in
      (
        info,
        left,
        record (initialize_system l (loader_params mode block) m c) { screen = u },
        cs,
        ds,
        es,
        stacked,
        tabled,
        numbered,
        run,
        carried.0,
        refl,
        shows,
      )

  outcome-Greets :
      (fuel header : ℕ) (modes : List Mode) (x : Result (LoaderBlock × ℕ) × F)
      → First IsSuitable modes
      → Post Unit (λ called s'. CanEnter fw fuel boot header called.0 called.1 s') x
      → Post Unit Greets (outcome modes x)
  unfolding outcome
  outcome-Greets fuel header modes (ok (block, address), s) h h' =
      entered-Greets fuel header modes block address s h h'
  outcome-Greets fuel header modes (returned status, s) h h' = tt
  outcome-Greets fuel header modes (out_of_fuel, s) h h' = tt

  -- Once `efi_main` has entered the kernel, and the code at the entry point is `kernel_main` built with
  -- DEBUG_PIOUS, the kernel reaches its idle loop, and the screen shows what is left of its five lines after they
  -- are typed on a blank terminal, which scrolls where it is full; the addresses and the number in them are those
  -- of the parameters. The boot services have then ended with the last memory map, and the kernel's memory
  -- settings have the size that `GetMemoryMap` answered for it, and the map of the parameters. Each mode that a
  -- device reports has at least 64 by 64 pixels, no back porch, and a framebuffer that fits; the fuel is from
  -- 2 ^ 64 on, and the firmware's pieces of memory start at 64-bit addresses.
  pub efi_main-kernel_main :
      (calls : NameCalls F) (gop : GraphicsCalls F) (fuel : ℕ) (set : Setting) (s : F)
      → ((s : F) → Starts (fw.map_calls s).0)
      → 2 ^ 64 ≤ fuel
      → ((device : ℕ) (s : F) → IsSuitable (gop.current device s))
      → Post Unit Greets (efi_main fw calls gop boot fuel set s)
  unfolding efi_main
  efi_main-kernel_main calls gop fuel set s starts enough suitable =
      let pool = (fw.allocate_pool set.config_size s).0 in
      let s1 = (fw.allocate_pool set.config_size s).1 in
      let inputs = record set.inputs { graphics = pool.1 } in
      Post-then Greets (checked (λ s. (pool.0, s))) _ s1 (λ status s2.
        Post-seq Unit _ Greets (init_uefi_gop fw calls gop fuel set.debug) _ s2
          (init_uefi_gop-First fw gop IsSuitable suitable calls fuel set.debug s2)
          (λ modes s3 h.
            outcome-Greets fuel set.header modes
              (boot_kernel fw boot fuel set.dos_header set.header set.block_size inputs set.initial
                s3)
              h
              (boot_kernel_enters fw fuel starts enough boot set.dos_header set.header
                set.block_size inputs set.initial s3)))
