-- ===== src/Kernel/Tests.antt =====
-- Runs of the display and of `PrintString` on a small screen, and instances of their theorems.
use pious_os.Base.{
  ℕ, ◌+◌, ◌*◌, ◌/◌, ◌%◌, ◌^◌, ◌≤◌, ◌<◌, ◌≡◌, refl, ◌⊎◌, inl, false, some, List, [], ◌∷◌, arith, ltb,
  if◌then◌else◌, get_elem?, length, for_range,
}
use pious_os.Kernel.Graphics.Font.{font8x8_basic}
use pious_os.Kernel.Graphics.Screen.{
  Screen, Memory, ModeInfo, row_size, col_size, scroll_up, area, text_row, print_character, advance,
  initialize_display, GraphicsMode,
}
use pious_os.Kernel.Graphics.Scroll.{scroll_up_lem}
use pious_os.Kernel.Graphics.Cursor.{IsValid, Keeps}
use pious_os.Kernel.Graphics.Pixels.{pixel, Fits}
use pious_os.Kernel.Graphics.Glyph.{
  print_character_draws, in_cell, cell_top, cell_left, glyph_color,
}
use pious_os.Kernel.Terminal.Typed.{Turns}
use pious_os.Kernel.Terminal.Printed.{types, print_string-type_actions}
use pious_os.Kernel.Terminal.Started.{blank_terminal, IsWhole, initialize_display-Shows}
use pious_os.Kernel.Print.Number.{
  int, long_octal, long_unsigned, long_hex, long_hex_upper, short_octal, short_unsigned, short_hex,
  short_hex_upper, int_octal, int_unsigned, int_hex, int_hex_upper, print_unsigned, decimal_digit,
  print_number, count_places, print_places, divisor,
}
use pious_os.Kernel.Print.Numerals.{Prints}
use pious_os.Kernel.Print.Conversions.{
  unsigned_conversions, signed_conversions, signed_conversion, PrintsSigned,
}
use pious_os.Kernel.Print.Octal.{int_octal_lem}
use pious_os.Kernel.Print.Format.{
  Floats, Precision, VaList, Action, text, feed, print_string, count_arguments, round, directive,
  prefixed, conversion, with_word, long_conversion, takes_argument,
}
use pious_os.Kernel.Print.Loop.{expand, print_string-Keeps}

-- 32 by 32 pixels with a back porch of 8, so 4 by 4 characters; the cursor is in the last row.
abbrev small_info : ModeInfo
small_info = record {
  horizontal_resolution = 32;
  vertical_resolution = 32;
  pixels_per_scan_line = 40;
}

abbrev small : Screen
small = record {
  settings = record {
    default_gpu = record { info = small_info; frame_buffer_base = 0x1000 };
    font_color = 9;
    highlight_color = 8;
    background_color = 3;
    scale = 1;
    index = 14;
  };
  memory = λ a. a;
}

small-IsValid : IsValid small.settings
unfolding row_size col_size
small-IsValid = omega arith

print_character_draws_example :
    (glyph : List ℕ) × (m : Memory) × (get_elem? font8x8_basic b'A' ≡ some glyph)
    × (print_character b'A' 9 3 small ≡ advance (record small { memory = m }))
    × (pixel small.settings.default_gpu m 25 18 ≡ (
        if in_cell 1 (cell_top small.settings) (cell_left small.settings) 25 18
        then glyph_color 1 glyph (cell_top small.settings) (cell_left small.settings) 9 3 25 18
        else pixel small.settings.default_gpu small.memory 25 18))
print_character_draws_example =
    print_character_draws b'A' 9 3 small 25 18 (omega arith) small-IsValid (omega arith)

scroll_up_lem_example :
    (out : Memory) × (scroll_up small ≡ some (record small { memory = out }))
    × (out (0x1000 + 4 * 10) ≡ (
        if ltb (10 + text_row small.settings) (area small_info)
        then small.memory (0x1000 + 4 * (10 + text_row small.settings))
        else 3))
    × (out 0x10 ≡ small.memory 0x10)
scroll_up_lem_example =
    scroll_up_lem small 10 0x10 (omega arith) (omega arith) (omega arith) (inl (omega arith))

unsigned_conversions_example :
    Prints 8 (0x1_0000_00ff % 2 ^ 64) (long_octal 0x1_0000_00ff)
    × Prints 10 (0x1_0000_00ff % 2 ^ 64) (long_unsigned 0x1_0000_00ff)
    × Prints 16 (0x1_0000_00ff % 2 ^ 64) (long_hex 0x1_0000_00ff)
    × Prints 16 (0x1_0000_00ff % 2 ^ 64) (long_hex_upper 0x1_0000_00ff)
    × Prints 8 (0x1_0000_00ff % 2 ^ 16) (short_octal 0x1_0000_00ff)
    × Prints 10 (0x1_0000_00ff % 2 ^ 16) (short_unsigned 0x1_0000_00ff)
    × Prints 16 (0x1_0000_00ff % 2 ^ 16) (short_hex 0x1_0000_00ff)
    × Prints 16 (0x1_0000_00ff % 2 ^ 16) (short_hex_upper 0x1_0000_00ff)
    × Prints 10 (0x1_0000_00ff % 2 ^ 32) (int_unsigned 0x1_0000_00ff)
    × Prints 16 (0x1_0000_00ff % 2 ^ 32) (int_hex 0x1_0000_00ff)
    × Prints 16 (0x1_0000_00ff % 2 ^ 32) (int_hex_upper 0x1_0000_00ff)
unsigned_conversions_example = unsigned_conversions 0x1_0000_00ff

-- -5 as an `int`
signed_conversions_example : PrintsSigned int 0xffff_fffb (signed_conversion int 0xffff_fffb)
signed_conversions_example = signed_conversions int 0xffff_fffb (omega arith)

int_octal_lem_example :
    ((0x8000_0001 % 2 ^ 32 < 2 ^ 31) × Prints 8 (0x8000_0001 % 2 ^ 32) (int_octal 0x8000_0001))
    ⊎ ((2 ^ 31 ≤ 0x8000_0001 % 2 ^ 32)
        × ((digit : ℕ) × (rest : List ℕ) × (print_unsigned decimal_digit 8 int 0x8000_0001
              ≡ some (digit ∷ rest))
            × (int_octal 0x8000_0001 ≡ some ((digit + 4) ∷ rest))
            × Prints 8 (0x8000_0001 % 2 ^ 32) (print_unsigned decimal_digit 8 int 0x8000_0001)))
int_octal_lem_example = int_octal_lem 0x8000_0001

-- 0x80000001 is 20000000001 in octal, and is printed as 60000000001.
octal_run :
    int_octal 0x8000_0001
    ≡ some (b'6' ∷ b'0' ∷ b'0' ∷ b'0' ∷ b'0' ∷ b'0' ∷ b'0' ∷ b'0' ∷ b'0' ∷ b'0' ∷ b'1' ∷ [])
unfolding int_octal print_number count_places print_places divisor for_range
octal_run = refl

-- Doubles in halves, all that the format below needs.
abbrev halves : Precision ℕ
halves = record {
  is_negative = λ d. false;
  at_least_one = λ d. ltb 1 d;
  divide = λ d n. d / n;
  multiply = λ d n. d * n;
  truncate = λ d. d / 2;
}

abbrev floats : Floats
floats = record {
  Double = ℕ;
  negate = λ d. d;
  single_precision = halves;
  double_precision = halves;
}

-- "a\n%lu"
abbrev format : List ℕ
format = b'a' ∷ 10 ∷ b'%' ∷ b'l' ∷ b'u' ∷ []

abbrev arguments : VaList floats
arguments = record { words = 42 ∷ []; reals = [] }

abbrev actions : List Action
actions = text (b'a' ∷ []) ∷ feed ∷ text (b'4' ∷ b'2' ∷ []) ∷ []

counted : count_arguments format 0 ≡ some 1
unfolding count_arguments takes_argument
counted = refl

expanded : expand floats (length format) format arguments ≡ some actions
unfolding expand round directive prefixed conversion long_conversion with_word long_unsigned
    print_unsigned print_number count_places print_places divisor for_range
expanded = refl

print_string-Keeps_example : Keeps small (print_string floats format 9 3 arguments small)
print_string-Keeps_example =
    print_string-Keeps floats 9 3 format arguments {acts = actions} small counted expanded
      (omega arith) small-IsValid

small-Fits : Fits small.settings.default_gpu
small-Fits = omega arith

-- 1024 by 768
abbrev common_mode : GraphicsMode
common_mode = record {
  info = record {
    horizontal_resolution = 1024;
    vertical_resolution = 768;
    pixels_per_scan_line = 1024;
  };
  frame_buffer_base = 0x8000_0000;
}

common_mode-Fits : Fits common_mode
common_mode-Fits = omega arith

common_mode-IsWhole : IsWhole common_mode
common_mode-IsWhole = record {
  fits = common_mode-Fits;
  no_porch = refl;
  wide = omega arith;
  high = omega arith;
}

print_string-type_actions_example :
    Turns
      (initialize_display common_mode small.memory)
      blank_terminal
      (print_string floats format 9 3 arguments (initialize_display common_mode small.memory))
      (types floats 9 3 actions)
print_string-type_actions_example =
    print_string-type_actions floats 9 3 format arguments 1 actions
      (initialize_display common_mode small.memory) blank_terminal counted expanded (omega arith)
      (initialize_display-Shows common_mode small.memory common_mode-IsWhole)
