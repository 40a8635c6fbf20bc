-- ===== src/Kernel/System/Entry.antt =====
-- `kernel_main` of src/kernel/kernel.c and `InitializeDrivers` of src/kernel/drivers.c.
use pious_os.Base.{ℕ, Bool, Option, some, List, [], ◌∷◌, ◌>>=◌}
use pious_os.Kernel.Graphics.Screen.{Memory, Screen}
use pious_os.Kernel.Print.Format.{Floats, print_string}
use pious_os.Kernel.Interrupts.Setup.{Linker, Processor}
use pious_os.Kernel.System.Arch.{LoaderParams, System, initialize_system, report_start}

-- "Hello!\n"
abbrev pub hello_text : List ℕ
hello_text = b'H' ∷ b'e' ∷ b'l' ∷ b'l' ∷ b'o' ∷ b'!' ∷ 10 ∷ []

-- "Stack Address: 0x", "Address of first table: 0x" and "Number of tables: "
abbrev pub stack_label : List ℕ
stack_label =
    b'S' ∷ b't' ∷ b'a' ∷ b'c' ∷ b'k' ∷ b' ' ∷ b'A' ∷ b'd' ∷ b'd' ∷ b'r' ∷ b'e' ∷ b's' ∷ b's' ∷ b':'
    ∷ b' ' ∷ b'0' ∷ b'x' ∷ []

abbrev pub first_table_label : List ℕ
first_table_label =
    b'A' ∷ b'd' ∷ b'd' ∷ b'r' ∷ b'e' ∷ b's' ∷ b's' ∷ b' ' ∷ b'o' ∷ b'f' ∷ b' ' ∷ b'f' ∷ b'i' ∷ b'r'
    ∷ b's' ∷ b't' ∷ b' ' ∷ b't' ∷ b'a' ∷ b'b' ∷ b'l' ∷ b'e' ∷ b':' ∷ b' ' ∷ b'0' ∷ b'x' ∷ []

abbrev pub tables_label : List ℕ
tables_label =
    b'N' ∷ b'u' ∷ b'm' ∷ b'b' ∷ b'e' ∷ b'r' ∷ b' ' ∷ b'o' ∷ b'f' ∷ b' ' ∷ b't' ∷ b'a' ∷ b'b' ∷ b'l'
    ∷ b'e' ∷ b's' ∷ b':' ∷ b' ' ∷ []

-- a format of a label, `%l` with one more character, and a line feed
abbrev pub line_of : List ℕ → ℕ → List ℕ
line_of [] c = b'%' ∷ b'l' ∷ c ∷ 10 ∷ []
line_of (l ∷ ls) c = l ∷ line_of ls c

-- `PrintString(format, fontColor, backgroundColor, value)`
abbrev pub print_value : Floats → List ℕ → ℕ → Screen → Option Screen
print_value F format value s =
    print_string F format s.settings.font_color s.settings.background_color
      (record { words = value ∷ []; reals = [] }) s

unfoldable pub initialize_drivers : Floats → ℕ → ℕ → Screen → Option Screen
initialize_drivers F config_table number_of_config_tables s = do
  s ← print_value F (line_of first_table_label b'X') config_table s
  print_value F (line_of tables_label b'u') number_of_config_tables s

-- The kernel up to its idle loop. With `debug` false it is what it would be if `Abort` of x86_64 compiled then. `kernel_stack` is the address of its stack, and the last two numbers are
-- `LP->ConfigTables` and `LP->Number_of_ConfigTables`.
unfoldable pub kernel_main :
    Floats → Bool → Linker → LoaderParams → Memory → Processor → ℕ → ℕ → ℕ → Option System
kernel_main F debug l parameters m c kernel_stack config_tables number_of_config_tables = do
  system ← report_start F debug (initialize_system l parameters m c)
  s ←
      print_string F hello_text system.screen.settings.font_color
        system.screen.settings.background_color (record { words = []; reals = [] }) system.screen
  s ← print_value F (line_of stack_label b'X') kernel_stack s
  s ← initialize_drivers F config_tables number_of_config_tables s
  some (record system { screen = s })
