-- ===== src/Kernel/System/Greeted.antt =====
-- What the display shows when `kernel_main` of src/kernel/kernel.c is in its idle loop.
use pious_os.Base.{true, ℕ, ◌≡◌, refl, some, List, [], ◌∷◌, arith}
use pious_os.Kernel.Graphics.Screen.{Memory, Screen, TextDisplaySettings}
use pious_os.Kernel.Print.Number.{long_hex_upper, long_unsigned}
use pious_os.Kernel.Print.Format.{Floats, Action, text, feed}
use pious_os.Kernel.Print.Texts.{letters, letters-Printable}
use pious_os.Kernel.Print.Debug.{debug_label, space, no_arguments, print_debug_message}
use pious_os.Kernel.Print.Reports.{debug_label-IsText, space-IsText}
use pious_os.Kernel.Graphics.Cursor.{Moved}
use pious_os.Kernel.Print.Characters.{long_hex_upper-Drawn, long_unsigned-Drawn}
use pious_os.Kernel.Interrupts.Setup.{Linker, Processor}
use pious_os.Kernel.System.Arch.{
  LoaderParams, System, initialized_text, initialize_system, report_start,
}
use pious_os.Kernel.System.Entry.{
  hello_text, stack_label, first_table_label, tables_label, line_of, initialize_drivers,
  kernel_main,
}
use pious_os.Kernel.System.Start.{initialized, initialized-IsText}
use pious_os.Kernel.System.Idle.{hello_line, hex_line, table_line, tables_line, counted_lines}
use pious_os.Kernel.Terminal.{Terminal}
use pious_os.Kernel.Terminal.Typed.{Shows}
use pious_os.Kernel.Terminal.Started.{
  blank_terminal, IsWhole, initialize_display-Shows, typed, typed_in, print_string-typed,
  print_string-typed_in,
}

-- "Hello!" and a line feed
abbrev pub hello : List Action
hello = letters (b'H' ∷ b'e' ∷ b'l' ∷ b'l' ∷ b'o' ∷ b'!' ∷ []) (feed ∷ [])

-- a label, a numeral and a line feed
abbrev pub labelled : List ℕ → List ℕ → List Action
labelled label numeral = letters label (text numeral ∷ feed ∷ [])

-- The first line, behind its label in the highlight colour, and the other four: the numerals are those of the
-- stack's address, of the address of the firmware's tables, and of their number.
abbrev pub started : TextDisplaySettings → Terminal
started d = typed d initialized (
    typed d (letters space [])
      (typed_in d.highlight_color d (letters debug_label []) blank_terminal))

abbrev pub greeting : TextDisplaySettings → List ℕ → List ℕ → List ℕ → Terminal
greeting d stack tables number = typed d (labelled tables_label number) (
    typed d (labelled first_table_label tables)
      (typed d (labelled stack_label stack) (typed d hello (started d))))

-- "[DEBUG] System Initialized" is typed on the blank terminal.
report_start-typed :
    (F : Floats) (system : System)
    → Shows system.screen blank_terminal
    → (u : Screen) × (report_start F true system ≡ some (record system { screen = u }))
      × Shows u (started system.screen.settings)
      × Moved system.screen.settings u.settings
unfolding report_start print_debug_message
report_start-typed F system h =
    let s = system.screen in
    let d = s.settings in
    let label = debug_label-IsText F in
    let blank = space-IsText F in
    let line = initialized-IsText F in
    let (s1, run1, h1, moved1) =
      print_string-typed_in F d.highlight_color d debug_label (no_arguments F) label.count
        (letters debug_label []) s blank_terminal label.counted label.expanded label.printable refl
        h in
    let (s2, run2, h2, moved2) =
      print_string-typed F d space (no_arguments F) blank.count (letters space []) s1 _
        blank.counted blank.expanded blank.printable moved1 h1 in
    let (s3, run3, h3, moved3) =
      print_string-typed F d initialized_text (no_arguments F) line.count initialized s2 _
        line.counted line.expanded line.printable moved2 h2 in
    (s3, rw (run1, run2, run3) refl, h3, moved3)

system-Shows :
    (l : Linker) (p : LoaderParams) (m : Memory) (c : Processor)
    → IsWhole p.gpu_array0
    → Shows (initialize_system l p m c).screen blank_terminal
unfolding initialize_system
system-Shows l p m c w = initialize_display-Shows p.gpu_array0 m w

-- With DEBUG_PIOUS, for a framebuffer of at least 64 by 64 pixels that fits and has no back porch, `kernel_main`
-- reaches its idle loop, and the screen shows what is left of its five lines after they are typed on a blank
-- terminal, which scrolls where it is full; the other results are those of `InitializeSystem`.
pub kernel_main-type_actions :
    (F : Floats) (l : Linker) (p : LoaderParams) (m : Memory) (c : Processor)
    (stack tables number : ℕ)
    → IsWhole p.gpu_array0
    → (s : Screen) × (cs : List ℕ) × (ds : List ℕ) × (es : List ℕ) × (long_hex_upper stack
        ≡ some cs)
      × (long_hex_upper tables ≡ some ds)
      × (long_unsigned number ≡ some es)
      × (kernel_main F true l p m c stack tables number
          ≡ some (record (initialize_system l p m c) { screen = s }))
      × Shows s (greeting (initialize_system l p m c).screen.settings cs ds es)
unfolding kernel_main initialize_drivers
kernel_main-type_actions F l p m c stack tables number w =
    let system = initialize_system l p m c in
    let d = system.screen.settings in
    let (cs, stacked, drawn) = long_hex_upper-Drawn stack in
    let (ds, tabled, drawn') = long_hex_upper-Drawn tables in
    let (es, numbered, drawn2) = long_unsigned-Drawn number in
    let (s0, run0, h0, moved0) = report_start-typed F system (system-Shows l p m c w) in
    let (s1, run1, h1, moved1) =
      print_string-typed F d hello_text (record { words = []; reals = [] }) 0 hello s0 _
        counted_lines.0 (hello_line F) (omega arith) moved0 h0 in
    let (s2, run2, h2, moved2) =
      print_string-typed F d (line_of stack_label b'X') (record { words = stack ∷ []; reals = [] })
        1 (labelled stack_label cs) s1 _ counted_lines.1 (hex_line F stack cs stacked)
        (letters-Printable stack_label (text cs ∷ feed ∷ []) (omega arith) (drawn, (tt, tt))) moved1
        h1 in
    let (s3, run3, h3, moved3) =
      print_string-typed F d (line_of first_table_label b'X')
        (record { words = tables ∷ []; reals = [] }) 1 (labelled first_table_label ds) s2 _
        counted_lines.2 (table_line F tables ds tabled)
        (letters-Printable first_table_label (text ds ∷ feed ∷ []) (omega arith) (drawn', (tt, tt)))
        moved2 h2 in
    let (s4, run4, h4, moved4) =
      print_string-typed F d (line_of tables_label b'u')
        (record { words = number ∷ []; reals = [] }) 1 (labelled tables_label es) s3 _
        counted_lines.3 (tables_line F number es numbered)
        (letters-Printable tables_label (text es ∷ feed ∷ []) (omega arith) (drawn2, (tt, tt)))
        moved3 h3 in
    (s4, cs, ds, es, stacked, tabled, numbered, rw (run0, run1, run2, run3, run4) refl, h4)
