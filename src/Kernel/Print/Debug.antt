-- ===== src/Kernel/Print/Debug.antt =====
-- `PrintDebugMessage` and `PrintErrorCode` of src/kernel/graphics.c, which the build with DEBUG_PIOUS has.
use pious_os.Base.{ℕ, Option, some, List, [], ◌∷◌, ◌>>=◌}
use pious_os.Kernel.Graphics.Screen.{Screen}
use pious_os.Kernel.Print.Format.{Floats, VaList, print_string}

-- "[DEBUG]", "[ERROR]", " ", " - " and "Error Code: 0x%lX"
abbrev pub debug_label : List ℕ
debug_label = b'[' ∷ b'D' ∷ b'E' ∷ b'B' ∷ b'U' ∷ b'G' ∷ b']' ∷ []

abbrev pub error_label : List ℕ
error_label = b'[' ∷ b'E' ∷ b'R' ∷ b'R' ∷ b'O' ∷ b'R' ∷ b']' ∷ []

abbrev pub space : List ℕ
space = b' ' ∷ []

abbrev pub dash : List ℕ
dash = b' ' ∷ b'-' ∷ b' ' ∷ []

abbrev pub code_format : List ℕ
code_format =
    b'E' ∷ b'r' ∷ b'r' ∷ b'o' ∷ b'r' ∷ b' ' ∷ b'C' ∷ b'o' ∷ b'd' ∷ b'e' ∷ b':' ∷ b' ' ∷ b'0' ∷ b'x'
    ∷ b'%' ∷ b'l' ∷ b'X' ∷ []

abbrev pub no_arguments : (F : Floats) → VaList F
no_arguments F = record { words = []; reals = [] }

-- a text in the colour of the labels, and one in that of texts
abbrev pub print_label : Floats → List ℕ → Screen → Option Screen
print_label F str s =
    print_string F str s.settings.highlight_color s.settings.background_color (no_arguments F) s

abbrev pub print_text : Floats → List ℕ → Screen → Option Screen
print_text F str s =
    print_string F str s.settings.font_color s.settings.background_color (no_arguments F) s

unfoldable pub print_debug_message : Floats → List ℕ → Screen → Option Screen
print_debug_message F str s = do
  s ← print_label F debug_label s
  s ← print_text F space s
  print_text F str s

-- `if(*message != '\0')`
unfoldable pub print_reason : Floats → List ℕ → Screen → Option Screen
print_reason F [] s = some s
print_reason F (c ∷ message) s = do s ← print_text F (c ∷ message) s; print_text F dash s

unfoldable pub print_error_code : Floats → ℕ → List ℕ → Screen → Option Screen
print_error_code F code message s = do
  s ← print_label F error_label s
  s ← print_text F space s
  s ← print_reason F message s
  print_string F code_format s.settings.font_color s.settings.background_color
      (record { words = code ∷ []; reals = [] }) s
