-- ===== src/Kernel/System/Aborted.antt =====
-- What the display shows when `Abort` of arch/kernel has stopped the kernel, with DEBUG_PIOUS.
use pious_os.Base.{ℕ, ◌≡◌, refl, true, some, List, [], ◌∷◌, arith}
use pious_os.Kernel.Graphics.Screen.{Screen, TextDisplaySettings}
use pious_os.Kernel.Print.Number.{long_hex_upper}
use pious_os.Kernel.Print.Format.{Floats, text}
use pious_os.Kernel.Print.Texts.{letters, letters-Printable}
use pious_os.Kernel.Print.Characters.{long_hex_upper-Drawn}
use pious_os.Kernel.Print.Debug.{
  error_label, space, code_format, print_reason, print_error_code, no_arguments,
}
use pious_os.Kernel.Print.Reports.{
  code_label, error_label-IsText, space-IsText, code_line, counted_code,
}
use pious_os.Kernel.System.Arch.{abort}
use pious_os.Kernel.Terminal.{Terminal}
use pious_os.Kernel.Terminal.Typed.{Shows}
use pious_os.Kernel.Terminal.Started.{typed, typed_in, print_string-typed, print_string-typed_in}

-- "[ERROR]" in the highlight colour, and " Error Code: 0x" with the numeral in that of texts
abbrev pub reported : TextDisplaySettings → List ℕ → Terminal → Terminal
reported d numeral t =
    typed d (letters code_label (text numeral ∷ []))
      (typed d (letters space []) (typed_in d.highlight_color d (letters error_label []) t))

-- With DEBUG_PIOUS, on a display without a back porch that shows a terminal, `Abort` halts with the label
-- "[ERROR]" in the highlight colour typed on it, and then " Error Code: 0x" with the code in hexadecimal.
pub abort-type_actions :
    (F : Floats) (code : ℕ) (s : Screen) (t : Terminal)
    → Shows s t
    → (u : Screen) × (cs : List ℕ) × (long_hex_upper code ≡ some cs)
      × (abort F true code s ≡ some u)
      × Shows u (reported s.settings cs t)
unfolding abort print_error_code print_reason
abort-type_actions F code s t h =
    let d = s.settings in
    let (cs, run, drawn) = long_hex_upper-Drawn code in
    let label = error_label-IsText F in
    let blank = space-IsText F in
    let (s1, run1, h1, moved1) =
      print_string-typed_in F d.highlight_color d error_label (no_arguments F) label.count
        (letters error_label []) s t label.counted label.expanded label.printable refl h in
    let (s2, run2, h2, moved2) =
      print_string-typed F d space (no_arguments F) blank.count (letters space []) s1 _
        blank.counted blank.expanded blank.printable moved1 h1 in
    let (s3, run3, h3, moved3) =
      print_string-typed F d code_format (record { words = code ∷ []; reals = [] }) 1
        (letters code_label (text cs ∷ [])) s2 _ (counted_code F) (code_line F code cs run)
        (letters-Printable code_label (text cs ∷ []) (omega arith) (drawn, tt)) moved2 h2 in
    (s3, cs, run, rw (run1, run2, run3) refl, h3)
