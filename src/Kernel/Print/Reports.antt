-- ===== src/Kernel/Print/Reports.antt =====
-- The messages of the build with DEBUG_PIOUS (src/kernel/graphics.c) leave a valid display.
use pious_os.Base.{ℕ, ◌≡◌, refl, some, List, [], ◌∷◌, length, All, arith}
use pious_os.Kernel.Graphics.Screen.{Screen}
use pious_os.Kernel.Graphics.Cursor.{IsValid, Keeps}
use pious_os.Kernel.Print.Number.{long_hex_upper}
use pious_os.Kernel.Print.Format.{
  Floats, Action, text, round, directive, prefixed, long_conversion, with_word, count_arguments,
  takes_argument, print_string,
}
use pious_os.Kernel.Print.Loop.{Printable, expand, print_string-Keeps, Keeps-bind}
use pious_os.Kernel.Print.Texts.{letters, letters-Printable}
use pious_os.Kernel.Print.Characters.{long_hex_upper-Drawn}
use pious_os.Kernel.Print.Debug.{
  debug_label, error_label, space, dash, code_format, no_arguments, print_debug_message,
  print_reason, print_error_code,
}

-- "Error Code: 0x"
abbrev pub code_label : List ℕ
code_label =
    b'E' ∷ b'r' ∷ b'r' ∷ b'o' ∷ b'r' ∷ b' ' ∷ b'C' ∷ b'o' ∷ b'd' ∷ b'e' ∷ b':' ∷ b' ' ∷ b'0' ∷ b'x'
    ∷ []

module _ (F : Floats) where
  -- `PrintString` prints the text by these actions, with no arguments, and the font has its characters.
  pub record IsText (str : List ℕ) (actions : List Action) : Type 0 where
    pub count : ℕ
    pub counted : count_arguments str 0 ≡ some count
    pub expanded : expand F (length str) str (no_arguments F) ≡ some actions
    pub printable : All Printable actions

  -- the texts of `PrintDebugMessage` and `PrintErrorCode`
  pub debug_label-IsText : IsText debug_label (letters debug_label [])
  unfolding expand round count_arguments takes_argument
  debug_label-IsText = record {
    count = 0;
    counted = refl;
    expanded = refl;
    printable = omega arith;
  }

  pub error_label-IsText : IsText error_label (letters error_label [])
  unfolding expand round count_arguments takes_argument
  error_label-IsText = record {
    count = 0;
    counted = refl;
    expanded = refl;
    printable = omega arith;
  }

  pub space-IsText : IsText space (letters space [])
  unfolding expand round count_arguments takes_argument
  space-IsText = record { count = 0; counted = refl; expanded = refl; printable = omega arith }

  pub dash-IsText : IsText dash (letters dash [])
  unfolding expand round count_arguments takes_argument
  dash-IsText = record { count = 0; counted = refl; expanded = refl; printable = omega arith }

  IsText-Keeps :
      {str : List ℕ} {acts : List Action} (foreground background : ℕ) (s : Screen)
      → IsText str acts
      → IsValid s.settings
      → Keeps s (print_string F str foreground background (no_arguments F) s)
  IsText-Keeps {str} foreground background s t v =
      print_string-Keeps F foreground background str (no_arguments F) s t.counted t.expanded
        t.printable v

  pub code_line :
      (v : ℕ) (cs : List ℕ)
      → long_hex_upper v ≡ some cs
      → expand F (length code_format) code_format (record { words = v ∷ []; reals = [] })
        ≡ some (letters code_label (text cs ∷ []))
  unfolding expand round directive prefixed long_conversion with_word
  code_line v cs run = rw run refl

  pub counted_code : count_arguments code_format 0 ≡ some 1
  unfolding count_arguments takes_argument
  counted_code = refl

  code-Keeps :
      (code foreground background : ℕ) (s : Screen)
      → IsValid s.settings
      → Keeps s (
          print_string F code_format foreground background
            (record { words = code ∷ []; reals = [] })
            s)
  code-Keeps code foreground background s v =
      let (cs, run, drawn) = long_hex_upper-Drawn code in
      print_string-Keeps F foreground background code_format
        (record { words = code ∷ []; reals = [] }) {acts = letters code_label (text cs ∷ [])} s
        counted_code (code_line code cs run)
        (letters-Printable code_label (text cs ∷ []) (omega arith) (drawn, tt)) v

  -- `PrintDebugMessage` of a text leaves a valid display.
  pub print_debug_message-Keeps :
      (str : List ℕ) {acts : List Action} (s : Screen)
      → IsText str acts
      → IsValid s.settings
      → Keeps s (print_debug_message F str s)
  unfolding print_debug_message
  print_debug_message-Keeps str s t v =
      Keeps-bind s _ _ (IsText-Keeps _ _ s debug_label-IsText v) (λ s1 v1.
        Keeps-bind s1 _ _ (IsText-Keeps _ _ s1 space-IsText v1) (λ s2 v2. IsText-Keeps _ _ s2 t v2))

  print_reason-Keeps :
      (message : List ℕ) {acts : List Action} (s : Screen)
      → IsText message acts
      → IsValid s.settings
      → Keeps s (print_reason F message s)
  unfolding print_reason
  print_reason-Keeps [] s t v = (s, refl, v, refl)
  print_reason-Keeps (c ∷ message) s t v =
      Keeps-bind s _ _ (IsText-Keeps _ _ s t v) (λ s1 v1. IsText-Keeps _ _ s1 dash-IsText v1)

  -- So does `PrintErrorCode`, for every code.
  pub print_error_code-Keeps :
      (code : ℕ) (message : List ℕ) {acts : List Action} (s : Screen)
      → IsText message acts
      → IsValid s.settings
      → Keeps s (print_error_code F code message s)
  unfolding print_error_code
  print_error_code-Keeps code message s t v =
      Keeps-bind s _ _ (IsText-Keeps _ _ s error_label-IsText v) (λ s1 v1.
        Keeps-bind s1 _ _ (IsText-Keeps _ _ s1 space-IsText v1) (λ s2 v2.
          Keeps-bind s2 _ _ (print_reason-Keeps message s2 t v2)
            (λ s3 v3. code-Keeps code _ _ s3 v3)))
