-- ===== src/Kernel/Graphics/Cursor.antt =====
-- The text cursor of src/kernel/graphics.c: it stays on the screen, and printing does not fault.
use pious_os.Base.{
  ap, ◌∙◌, ℕ, ◌+◌, ◌-◌, ◌*◌, ◌/◌, ◌%◌, ◌^◌, ◌≤◌, ◌<◌, ◌≡◌, refl, inl, inr, false, Option, some,
  ◌>>=◌, ◌||◌, arith, ◌==◌, leb, get_elem?, get_elem?-some, Bool-cases, List,
}
use native.Mathlib.Nat.{mul_comm, div-mul-le_self}
use pious_os.Kernel.Graphics.Font.{font8x8_basic}
use pious_os.Kernel.Graphics.Screen.{
  Screen, TextDisplaySettings, area, text_row, row_size, col_size, cell, scroll_up, advance,
  print_character, new_line, draw_glyph, last_index, set_index, sub32,
}
use pious_os.Kernel.Graphics.Scroll.{scroll_up_moves_text}

-- A display whose cursor is on the screen and whose memory below 2 ^ 64 holds the whole framebuffer,
-- with offsets of less than 2 ^ 32 bytes.
pub record IsValid (d : TextDisplaySettings) : Type 0 where
  pub visible : d.default_gpu.info.horizontal_resolution ≤ d.default_gpu.info.pixels_per_scan_line
  pub offsets :
      4 * (d.default_gpu.info.vertical_resolution * d.default_gpu.info.pixels_per_scan_line)
      ≤ 2 ^ 32
  pub addresses : d.default_gpu.frame_buffer_base + 2 ^ 32 < 2 ^ 64
  pub scaled : 0 < d.scale
  pub narrow : d.scale < 2 ^ 8
  pub columns : 0 < col_size d
  pub rows : 0 < row_size d
  pub scrolls : text_row d ≤ area d.default_gpu.info
  pub on_screen : d.index < row_size d * col_size d

-- The settings differ in the cursor alone.
abbrev pub Moved : TextDisplaySettings → TextDisplaySettings → Type 0
Moved d d' = d' ≡ record d { index = d'.index }

move : ℕ → TextDisplaySettings → TextDisplaySettings
move i d = record d { index = i }

pub Moved-trans : (a b c : TextDisplaySettings) → Moved a b → Moved b c → Moved a c
unfolding move
Moved-trans a b c p q = q ∙ ap (move c.index) p

div-le : (a b : ℕ) → a / b ≤ a
div-le a b = omega arith

mul_le : {a b x y : ℕ} → a ≤ x → b ≤ y → a * b ≤ x * y
mul_le p q = grind arith

module _ (d : TextDisplaySettings) (v : IsValid d) where
  tall : 0 < d.default_gpu.info.vertical_resolution
  unfolding row_size
  tall = omega (arith, v.rows, div-le d.default_gpu.info.vertical_resolution (cell d))

  line_le :
      d.default_gpu.info.pixels_per_scan_line
      ≤ d.default_gpu.info.vertical_resolution * d.default_gpu.info.pixels_per_scan_line
  line_le = grind (arith, tall)

  pub line_lt : d.default_gpu.info.pixels_per_scan_line < 2 ^ 31
  line_lt = omega (arith, line_le, v.offsets)

  pub visible_width :
      sub32 d.default_gpu.info.pixels_per_scan_line
        (sub32 d.default_gpu.info.pixels_per_scan_line d.default_gpu.info.horizontal_resolution)
      ≡ d.default_gpu.info.horizontal_resolution
  visible_width = omega (arith, line_lt, v.visible)

  pub pixels_le :
      d.default_gpu.info.vertical_resolution * d.default_gpu.info.horizontal_resolution
      ≤ d.default_gpu.info.vertical_resolution * d.default_gpu.info.pixels_per_scan_line
  pixels_le = grind (arith, v.visible)

  pub rows_fit : row_size d * cell d ≤ d.default_gpu.info.vertical_resolution
  unfolding row_size
  rows_fit = div-mul-le_self d.default_gpu.info.vertical_resolution (cell d)

  pub columns_fit : col_size d * cell d ≤ d.default_gpu.info.horizontal_resolution
  unfolding col_size
  columns_fit = rw visible_width (div-mul-le_self d.default_gpu.info.horizontal_resolution (cell d))

  pub area_below : d.default_gpu.frame_buffer_base + 4 * area d.default_gpu.info < 2 ^ 64
  area_below = omega (arith, pixels_le, v.offsets, v.addresses)

  pub cells_le :
      row_size d * col_size d
      ≤ d.default_gpu.info.vertical_resolution * d.default_gpu.info.horizontal_resolution
  unfolding row_size col_size
  cells_le = rw visible_width (
      mul_le (div-le d.default_gpu.info.vertical_resolution (cell d))
        (div-le d.default_gpu.info.horizontal_resolution (cell d)))

pub IsValid-index :
    (d : TextDisplaySettings) (i : ℕ)
    → IsValid d
    → i < row_size d * col_size d
    → IsValid (record d { index = i })
unfolding row_size col_size
IsValid-index d i v h = record {
  visible = v.visible;
  offsets = v.offsets;
  addresses = v.addresses;
  scaled = v.scaled;
  narrow = v.narrow;
  columns = v.columns;
  rows = v.rows;
  scrolls = v.scrolls;
  on_screen = h;
}

-- The run returns a screen that is still valid, and that differs in the cursor and the memory alone.
abbrev pub Keeps : Screen → Option Screen → Type 0
Keeps s r = (s' : Screen) × (r ≡ some s') × IsValid s'.settings × Moved s.settings s'.settings

le_mul : {a b : ℕ} → 0 < b → a ≤ a * b
le_mul h = grind arith

-- The `UINT32` arithmetic on a valid display does not wrap.
pub no_wrap :
    (d : TextDisplaySettings)
    → IsValid d
    → (last_index d ≡ row_size d * col_size d - 1)
      × (sub32 (row_size d) 1 ≡ row_size d - 1)
      × (row_size d * col_size d < 2 ^ 31)
no_wrap d v =
    let below : row_size d * col_size d ≤ 2 ^ 30 = omega (arith, cells_le d v, pixels_le d v) in
    let some_cell : row_size d ≤ row_size d * col_size d = le_mul v.columns in
    (omega arith, omega arith, omega arith)

-- a scroll, with the cursor set to some cell
set_index-scroll_up-Keeps :
    (s : Screen) (i : ℕ)
    → IsValid s.settings
    → i < row_size s.settings * col_size s.settings
    → Keeps s (scroll_up s >>= λ t. some (set_index t i))
set_index-scroll_up-Keeps s i v h =
    let (out, run, _) = scroll_up_moves_text s v.scrolls (area_below s.settings v) in
    (set_index (record s { memory = out }) i, rw run, IsValid-index s.settings i v h, refl)

set_index-Keeps :
    (s : Screen) (i : ℕ)
    → IsValid s.settings
    → i < row_size s.settings * col_size s.settings
    → Keeps s (some (set_index s i))
set_index-Keeps s i v h = (set_index s i, refl, IsValid-index s.settings i v h, refl)

last_row_lt : {r c : ℕ} → 0 < r → 0 < c → (r - 1) * c < r * c
last_row_lt h h' = grind arith

-- The first cell of the last row is on the screen.
pub last_row-on_screen :
    (d : TextDisplaySettings)
    → IsValid d
    → (sub32 (row_size d) 1 * col_size d % 2 ^ 32 ≡ (row_size d - 1) * col_size d)
      × ((row_size d - 1) * col_size d < row_size d * col_size d)
last_row-on_screen d v =
    let (last, rows, below) = no_wrap d v in
    let inside = last_row_lt v.rows v.columns in (rw rows (omega (arith, inside)), inside)

advance-Keeps : (s : Screen) → IsValid s.settings → Keeps s (advance s)
unfolding advance
advance-Keeps s v =
    let d = s.settings in
    let (last, rows, below) = no_wrap d v in
    let (start, inside) = last_row-on_screen d v in
    elim (Bool-cases (d.index == last_index d)) [
      | inl e ↦ rw e (set_index-scroll_up-Keeps s _ v (rw start inside))
      | inr e ↦ rw e (set_index-Keeps s _ v (next_lt e last below v.on_screen))
    ]
  where
    next_lt : {i n l : ℕ} → (i == l) ≡ false → l ≡ n - 1 → n < 2 ^ 31 → i < n → (i + 1) % 2 ^ 32 < n
    next_lt e l b h = ground arith

pub faultless : (d : TextDisplaySettings) → IsValid d → (cell d == 0 || col_size d == 0) ≡ false
faultless d v = grind (arith, v.scaled, v.columns)

pub font-some : (chr : ℕ) → chr < 128 → (g : List ℕ) × (get_elem? font8x8_basic chr ≡ some g)
unfolding font8x8_basic
font-some chr h = get_elem?-some font8x8_basic chr h

-- On a valid display `PrintCharacter` neither faults nor loses the cursor, for each of the font's
-- characters.
pub print_character-Keeps :
    (chr foreground background : ℕ) (s : Screen)
    → chr < 128
    → IsValid s.settings
    → Keeps s (print_character chr foreground background s)
unfolding print_character
print_character-Keeps chr foreground background s h v =
    let d = s.settings in
    let (glyph, found) = font-some chr h in
    rw (faultless d v, found)
      (advance-Keeps (record s { memory = draw_glyph d glyph foreground background s.memory }) v)

pub mul_lt : {x y c : ℕ} → x < y → 0 < c → x * c < y * c
mul_lt h h' = grind arith

-- the row after the cursor's, where it is not the last
next_row_lt :
    (r q : ℕ) {c m : ℕ}
    → m ≡ r - 1
    → leb m q ≡ false
    → 0 < c
    → r * c < 2 ^ 31
    → (q + 1) * c % 2 ^ 32 < r * c
next_row_lt r q {c} e h pos below =
    let beyond : q + 1 < r = ground arith in
    let inside : (q + 1) * c < r * c = mul_lt beyond pos in omega arith

-- So does a line feed: it scrolls in the last row, and elsewhere goes to the next one.
pub new_line-Keeps : (s : Screen) → IsValid s.settings → Keeps s (new_line s)
unfolding new_line
new_line-Keeps s v =
    let d = s.settings in
    let (last, rows, below) = no_wrap d v in
    let (start, inside) = last_row-on_screen d v in
    elim (Bool-cases (leb (sub32 (row_size d) 1) (d.index / col_size d))) [
      | inl e ↦
          rw (faultless d v, e)
            (set_index-scroll_up-Keeps s _ v
              (rw (mul_comm (col_size d) (sub32 (row_size d) 1), start) inside))
      | inr e ↦
          rw (faultless d v, e)
            (set_index-Keeps s _ v
              (next_row_lt (row_size d) (d.index / col_size d) rows e v.columns below))
    ]
