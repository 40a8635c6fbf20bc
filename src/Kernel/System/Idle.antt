-- ===== src/Kernel/System/Idle.antt =====
-- The kernel (src/kernel/kernel.c) reaches its idle loop.
use pious_os.Base.{ℕ, Bool, ◌≡◌, refl, some, List, [], ◌∷◌, length, arith}
use pious_os.Kernel.Graphics.Screen.{Memory, Screen}
use pious_os.Kernel.Graphics.Cursor.{IsValid, Keeps, Moved, Moved-trans}
use pious_os.Kernel.Print.Number.{long_hex_upper, long_unsigned}
use pious_os.Kernel.Print.Format.{
  Floats, text, feed, round, directive, prefixed, long_conversion, with_word, count_arguments,
  takes_argument, print_string,
}
use pious_os.Kernel.Print.Loop.{expand, print_string-Keeps, Keeps-bind}
use pious_os.Kernel.Print.Texts.{letters, letters-Printable, print_string-line}
use pious_os.Kernel.Print.Characters.{long_hex_upper-Drawn, long_unsigned-Drawn}
use pious_os.Kernel.Interrupts.Setup.{Linker, Processor}
use pious_os.Kernel.System.Arch.{LoaderParams, initialize_system}
use pious_os.Kernel.System.Start.{report_start_lem}
use pious_os.Kernel.System.Entry.{
  hello_text, stack_label, first_table_label, tables_label, line_of, print_value,
  initialize_drivers, kernel_main,
}

pub hex_line :
    (F : Floats) (v : ℕ) (cs : List ℕ)
    → long_hex_upper v ≡ some cs
    → expand F
        (length (line_of stack_label b'X'))
        (line_of stack_label b'X')
        (record { words = v ∷ []; reals = [] })
      ≡ some (letters stack_label (text cs ∷ feed ∷ []))
unfolding expand round directive prefixed long_conversion with_word
hex_line F v cs run = rw run refl

pub table_line :
    (F : Floats) (v : ℕ) (cs : List ℕ)
    → long_hex_upper v ≡ some cs
    → expand F
        (length (line_of first_table_label b'X'))
        (line_of first_table_label b'X')
        (record { words = v ∷ []; reals = [] })
      ≡ some (letters first_table_label (text cs ∷ feed ∷ []))
unfolding expand round directive prefixed long_conversion with_word
table_line F v cs run = rw run refl

pub tables_line :
    (F : Floats) (v : ℕ) (cs : List ℕ)
    → long_unsigned v ≡ some cs
    → expand F
        (length (line_of tables_label b'u'))
        (line_of tables_label b'u')
        (record { words = v ∷ []; reals = [] })
      ≡ some (letters tables_label (text cs ∷ feed ∷ []))
unfolding expand round directive prefixed long_conversion with_word
tables_line F v cs run = rw run refl

pub counted_lines :
    (count_arguments hello_text 0 ≡ some 0)
    × (count_arguments (line_of stack_label b'X') 0 ≡ some 1)
    × (count_arguments (line_of first_table_label b'X') 0 ≡ some 1)
    × (count_arguments (line_of tables_label b'u') 0 ≡ some 1)
unfolding count_arguments takes_argument
counted_lines = (refl, refl, refl, refl)

pub hello_line :
    (F : Floats)
    → expand F (length hello_text) hello_text (record { words = []; reals = [] })
      ≡ some (letters (b'H' ∷ b'e' ∷ b'l' ∷ b'l' ∷ b'o' ∷ b'!' ∷ []) (feed ∷ []))
unfolding expand round
hello_line F = refl

module _ (F : Floats) where
  hello-Keeps :
      (s : Screen)
      → IsValid s.settings
      → Keeps s (
          print_string F hello_text s.settings.font_color s.settings.background_color
            (record { words = []; reals = [] })
            s)
  hello-Keeps s v =
      print_string-Keeps F s.settings.font_color s.settings.background_color hello_text
        (record { words = []; reals = [] })
        {acts = letters (b'H' ∷ b'e' ∷ b'l' ∷ b'l' ∷ b'o' ∷ b'!' ∷ []) (feed ∷ [])} s
        counted_lines.0 (hello_line F)
        (letters-Printable (b'H' ∷ b'e' ∷ b'l' ∷ b'l' ∷ b'o' ∷ b'!' ∷ []) (feed ∷ []) (omega arith)
          (tt, tt))
        v

  stack-Keeps :
      (stack : ℕ) (s : Screen)
      → IsValid s.settings
      → Keeps s (print_value F (line_of stack_label b'X') stack s)
  stack-Keeps stack s v =
      let (cs, run, drawn) = long_hex_upper-Drawn stack in
      print_string-line F (line_of stack_label b'X') stack_label s.settings.font_color
        s.settings.background_color stack cs s counted_lines.1 (hex_line F stack cs run)
        (omega arith) drawn v

  -- On a valid display `InitializeDrivers` prints its lines without a fault.
  initialize_drivers-Keeps :
      (tables number : ℕ) (s : Screen)
      → IsValid s.settings
      → Keeps s (initialize_drivers F tables number s)
  unfolding initialize_drivers
  initialize_drivers-Keeps tables number s v =
      let (cs, run, drawn) = long_hex_upper-Drawn tables in
      let (ds, run', drawn') = long_unsigned-Drawn number in
      Keeps-bind s _ _
        (print_string-line F (line_of first_table_label b'X') first_table_label
          s.settings.font_color s.settings.background_color tables cs s counted_lines.2
          (table_line F tables cs run) (omega arith) drawn v)
        (λ t w.
          print_string-line F (line_of tables_label b'u') tables_label t.settings.font_color
            t.settings.background_color number ds t counted_lines.3 (tables_line F number ds run')
            (omega arith) drawn' w)

  -- From a valid display, `kernel_main` reaches its idle loop without a fault, with DEBUG_PIOUS and without it,
  -- whatever the stack's address and the firmware's tables: the display is valid, its settings differ from those
  -- of `InitializeSystem` in the cursor alone, and the memory settings and the processor are those of
  -- `InitializeSystem`.
  pub kernel_main_lem :
      (debug : Bool) (l : Linker) (p : LoaderParams) (m : Memory) (c : Processor)
      (stack tables number : ℕ)
      → IsValid (initialize_system l p m c).screen.settings
      → (s : Screen) × (kernel_main F debug l p m c stack tables number
          ≡ some (record (initialize_system l p m c) { screen = s }))
        × IsValid s.settings
        × Moved (initialize_system l p m c).screen.settings s.settings
  unfolding kernel_main
  kernel_main_lem debug l p m c stack tables number v =
      let system = initialize_system l p m c in
      let (r, start, w, moved) = report_start_lem F debug system v in
      let (s, run, v, moved') = hello-Keeps r w in
      let (s', run', v', moved'') = stack-Keeps stack s v in
      let (t, last, w', moved3) = initialize_drivers-Keeps tables number s' v' in
      (
        t,
        rw (start, run, run', last) refl,
        w',
        Moved-trans system.screen.settings r.settings t.settings moved (
            Moved-trans r.settings s.settings t.settings moved'
              (Moved-trans s.settings s'.settings t.settings moved'' moved3)),
      )
