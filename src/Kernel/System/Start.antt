-- ===== src/Kernel/System/Start.antt =====
-- `InitializeSystem` and `Abort` of arch/kernel: the display they leave, and the memory map they read.
use pious_os.Base.{
  ℕ, ◌+◌, ◌*◌, ◌%◌, ◌^◌, ◌<◌, ◌≡◌, refl, ◌∙◌, ap, Bool, true, false, some, List, [], ◌∷◌, arith,
}
use pious_os.Kernel.Graphics.Screen.{Memory, Screen}
use pious_os.Kernel.Graphics.Cursor.{IsValid, Moved}
use pious_os.Kernel.Print.Format.{Floats, Action, feed, round, count_arguments, takes_argument}
use pious_os.Kernel.Print.Loop.{expand}
use pious_os.Kernel.Memory.Map.{Efi, Descriptor, initialize_memory, get_total_system_ram}
use pious_os.Kernel.Memory.Walk.{HasDescriptors}
use pious_os.Kernel.Print.Reports.{IsText, print_debug_message-Keeps}
use pious_os.Kernel.Print.Texts.{letters}
use pious_os.Kernel.Memory.Ram.{get_total_system_ram_lem}
use pious_os.Kernel.Interrupts.Setup.{Linker, Processor}
use pious_os.Kernel.System.Arch.{
  LoaderParams, System, initialize_system, report_start, initialized_text,
}

-- "System Initialized" and a line feed
abbrev pub initialized : List Action
initialized = letters (b'S' ∷ b'y' ∷ b's' ∷ b't' ∷ b'e' ∷ b'm' ∷ b' ' ∷ []) (
    letters (b'I' ∷ b'n' ∷ b'i' ∷ b't' ∷ b'i' ∷ b'a' ∷ b'l' ∷ b'i' ∷ b'z' ∷ b'e' ∷ b'd' ∷ [])
      (feed ∷ []))

pub initialized-IsText : (F : Floats) → IsText F initialized_text initialized
unfolding expand round count_arguments takes_argument
initialized-IsText F = record {
  count = 0;
  counted = refl;
  expanded = refl;
  printable = omega arith;
}

-- The end of `InitializeSystem` leaves a valid display, and changes nothing but the screen.
pub report_start_lem :
    (F : Floats) (debug : Bool) (system : System)
    → IsValid system.screen.settings
    → (s : Screen) × (report_start F debug system ≡ some (record system { screen = s }))
      × IsValid s.settings
      × Moved system.screen.settings s.settings
unfolding report_start
report_start_lem F false system v = (system.screen, refl, v, refl)
report_start_lem F true system v =
    let (s, run, v', moved) =
      print_debug_message-Keeps F initialized_text system.screen (initialized-IsText F) v in
    (s, rw run refl, v', moved)

one_descriptor :
    (l : Linker) (p : LoaderParams) (m : Memory) (c : Processor)
    → 0 < p.memory_map_size
    → p.memory_map + p.memory_map_size < 2 ^ 64
    → HasDescriptors (initialize_system l p m c).main_memory_settings 1
unfolding initialize_system initialize_memory
one_descriptor l p m c pos inside = omega arith

first_pages :
    (read : ℕ → Descriptor) (base size k : ℕ)
    → (0 + (read (base + 0 * size)).number_of_pages) * k ≡ (read base).number_of_pages * k
first_pages read base size k = let e : base + 0 * size ≡ base = omega arith in rw e (omega arith)

-- `InitializeSystem` takes the size of the memory map for that of a descriptor, so on its settings
-- `GetTotalSystemRam` counts the pages of the first descriptor alone. The map is not empty and does not wrap
-- around, and `InitializeSystem` leaves a valid display.
pub initialize_system-get_total_system_ram :
    (F : Floats) (efi : Efi) (l : Linker) (p : LoaderParams) (m : Memory) (c : Processor)
    → 0 < p.memory_map_size
    → p.memory_map + p.memory_map_size < 2 ^ 64
    → IsValid (initialize_system l p m c).screen.settings
    → (s' : Screen) × (get_total_system_ram F efi
          (initialize_system l p m c).main_memory_settings
          (initialize_system l p m c).screen
        ≡ some ((efi.read p.memory_map).number_of_pages * 2 ^ efi.page_shift % 2 ^ 64, s'))
      × IsValid s'.settings
unfolding initialize_system initialize_memory
initialize_system-get_total_system_ram F efi l p m c pos inside v =
    let (s', run, v', moved) =
      get_total_system_ram_lem efi (initialize_system l p m c).main_memory_settings F 1
        (initialize_system l p m c).screen (one_descriptor l p m c pos inside) v in
    (
      s',
      run
          ∙ ap (λ t. some (t % 2 ^ 64, s'))
              (first_pages efi.read p.memory_map p.memory_map_size (2 ^ efi.page_shift)),
      v',
    )
