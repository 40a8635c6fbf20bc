-- ===== src/Kernel/Terminal/Shown.antt =====
-- What it means that the display of src/kernel/graphics.c shows a terminal, and that scrolling keeps it.
use pious_os.Base.{
  ℕ, ◌+◌, ◌*◌, ◌/◌, ◌%◌, ◌≤◌, ◌<◌, ◌≡◌, sym, ap, ◌∙◌, inl, inr, true, ltb, ltb→lt, lt→ltb, ltb→ge,
  Bool-cases, if◌then◌else◌, arith, get_or, [],
}
use native.Mathlib.Nat.{
  le_trans, mod-lt, div-lt_iff_lt-mul, le-div_iff_mul-le, add-div_right, add-mod_right,
}
use pious_os.Kernel.Graphics.Glyph.{next_le}
use pious_os.Kernel.Graphics.Font.{font8x8_basic}
use pious_os.Kernel.Graphics.Screen.{
  Memory, Screen, TextDisplaySettings, dot, cell, row_size, col_size, area, text_row,
}
use pious_os.Kernel.Graphics.Pixels.{Fits, InFrame, pixel, address_eq}
use pious_os.Kernel.Graphics.Scroll.{Scrolled}
use pious_os.Kernel.Graphics.Cursor.{IsValid, rows_fit, columns_fit}
use pious_os.Kernel.Terminal.{Cell, blank, glyph, scrolled}

-- The rows of the framebuffer are no longer than their visible area.
abbrev pub NoPorch : TextDisplaySettings → Type 0
NoPorch d = d.default_gpu.info.pixels_per_scan_line ≡ d.default_gpu.info.horizontal_resolution

times_assoc : (w s : ℕ) → w * 8 * s ≡ w * (8 * s)
times_assoc w s = grind arith

one_row_le : {r c h : ℕ} → 0 < r → r * c ≤ h → c ≤ h
one_row_le p q = grind arith

row_le : (w : ℕ) {c h : ℕ} → c ≤ h → w * c ≤ h * w
row_le w p = grind arith

row_lt : {w y x h : ℕ} → y < h → x < w → w * y + x < h * w
row_lt p q = grind arith

row_ge : (w x : ℕ) {y h : ℕ} → h ≤ y → h * w ≤ w * y + x
row_ge w x p = grind arith

row_up : (w y c x : ℕ) → w * y + x + w * c ≡ w * (y + c) + x
row_up w y c x = grind arith

module _ (d : TextDisplaySettings) (v : IsValid d) (n : NoPorch d) where
  abbrev height : ℕ
  height = d.default_gpu.info.vertical_resolution

  abbrev width : ℕ
  width = d.default_gpu.info.pixels_per_scan_line

  whole_area : area d.default_gpu.info ≡ height * width
  whole_area = rw (← n) (omega (arith, v.offsets))

  one_text_row : text_row d ≡ width * cell d
  one_text_row =
      let high : cell d ≤ height = one_row_le v.rows (rows_fit d v) in
      let small : width * cell d ≤ height * width = row_le width high in
      omega (arith, times_assoc width d.scale, small, v.offsets)

  Fits-valid : Fits d.default_gpu
  Fits-valid = record { offsets = v.offsets; addresses = v.addresses }

module _ (s : Screen) (v : IsValid s.settings) (n : NoPorch s.settings) where
  -- Without a back porch a scroll moves the pixels up by the height of a text row, and what comes in has the
  -- background colour.
  pixel-scroll_up :
      (out : Memory) (y x : ℕ)
      → Scrolled s out
      → InFrame s.settings.default_gpu y x
      → pixel s.settings.default_gpu out y x ≡ (
          if ltb (y + cell s.settings) s.settings.default_gpu.info.vertical_resolution
          then pixel s.settings.default_gpu s.memory (y + cell s.settings) x
          else s.settings.background_color)
  unfolding pixel
  pixel-scroll_up out y x c (below, left) =
      let d = s.settings in
      let g = d.default_gpu in
      let w = g.info.pixels_per_scan_line in
      let words = whole_area d v n in
      let inc = one_text_row d v n in
      let here = address_eq g y x (Fits-valid d v n) (below, left) in
      let up = row_up w y (cell d) x in
      elim (Bool-cases (ltb (y + cell d) g.info.vertical_resolution)) [
        | inl e ↦
            let there = address_eq g (y + cell d) x (Fits-valid d v n) (ltb→lt _ _ e, left) in
            let inside : w * (y + cell d) + x < g.info.vertical_resolution * w =
              row_lt (ltb→lt _ _ e) left in
            rw (e, here, there)
              (rw (inc, up) at (c.moved (w * y + x) (omega (arith, words, inc, up, inside))))
        | inr e ↦
            let within : w * y + x < g.info.vertical_resolution * w = row_lt below left in
            let outside : g.info.vertical_resolution * w ≤ w * (y + cell d) + x =
              row_ge w x (ltb→ge _ _ e) in
            rw (e, here)
              (c.cleared (w * y + x) (omega (arith, words, within))
                (omega (arith, words, inc, up, outside)))
      ]

-- the colour of a pixel of a cell, by its coordinates in the cell
abbrev pub cell_color : ℕ → Cell → ℕ → ℕ → ℕ
cell_color scale (blank color) y x = color
cell_color scale (glyph c foreground background) y x =
    if dot (get_or font8x8_basic c []) (y / scale) (x / scale) then foreground else background

-- The cells stand in the framebuffer, and below the last row it has the background colour.
pub record Grid (d : TextDisplaySettings) (m : Memory) (cells : ℕ → Cell) : Type 0 where
  pub drawn :
      (i y x : ℕ)
      → i < row_size d * col_size d
      → y < cell d
      → x < cell d
      → pixel d.default_gpu m (i / col_size d * cell d + y) (i % col_size d * cell d + x)
        ≡ cell_color d.scale (cells i) y x
  pub margin :
      (y x : ℕ)
      → row_size d * cell d ≤ y
      → InFrame d.default_gpu y x
      → pixel d.default_gpu m y x ≡ d.background_color

in_row : (q c h : ℕ) {r y : ℕ} → q < r → r * c ≤ h → y < c → q * c + y < h
in_row q c h p w k = omega (arith, next_le c p w, k)

row_of_last : (i c r : ℕ) → 0 < c → r * c ≤ i + c → r ≤ i / c + 1
row_of_last i c r pos h =
    let up = add-div_right i pos in
    rw (← up) ((le-div_iff_mul-le {k = c} {x = r} {y = i + c} pos).1 h)

succ_row : (q c y : ℕ) → (q + 1) * c + y ≡ q * c + y + c
succ_row q c y = grind arith

mono_mul : (k : ℕ) {a b : ℕ} → a ≤ b → a * k ≤ b * k
mono_mul k h = grind arith

module _ (d : TextDisplaySettings) (v : IsValid d) where
  pub in_frame :
      (i y x : ℕ)
      → i < row_size d * col_size d
      → y < cell d
      → x < cell d
      → InFrame d.default_gpu (i / col_size d * cell d + y) (i % col_size d * cell d + x)
  in_frame i y x h hy hx = (
    in_row (i / col_size d) (cell d) d.default_gpu.info.vertical_resolution
        ((div-lt_iff_lt-mul v.columns).1 h) (rows_fit d v) hy,
    in_row (i % col_size d) (cell d) d.default_gpu.info.pixels_per_scan_line (mod-lt i v.columns)
        (le_trans (columns_fit d v) v.visible) hx,
  )

module _ (s : Screen) (v : IsValid s.settings) (n : NoPorch s.settings) (cells : ℕ → Cell)
    (out : Memory) (g : Grid s.settings s.memory cells) (c : Scrolled s out) where
  -- Below the last row but one, background comes in.
  incoming :
      (y x : ℕ)
      → InFrame s.settings.default_gpu y x
      → row_size s.settings * cell s.settings ≤ y + cell s.settings
      → pixel s.settings.default_gpu out y x ≡ s.settings.background_color
  incoming y x f low =
      let d = s.settings in
      let moved = pixel-scroll_up s v n out y x c f in
      elim (Bool-cases (ltb (y + cell d) d.default_gpu.info.vertical_resolution)) [
        | inl e ↦ (rw e at moved) ∙ g.margin (y + cell d) x low (ltb→lt _ _ e, f.1)
        | inr e ↦ rw e at moved
      ]

  -- A cell above the last row takes the pixels of the one below it.
  upward :
      (i y x : ℕ)
      → i + col_size s.settings < row_size s.settings * col_size s.settings
      → y < cell s.settings
      → x < cell s.settings
      → pixel s.settings.default_gpu out
          (i / col_size s.settings * cell s.settings + y)
          (i % col_size s.settings * cell s.settings + x)
        ≡ cell_color s.settings.scale (cells (i + col_size s.settings)) y x
  upward i y x h hy hx =
      let d = s.settings in
      let y' = i / col_size d * cell d + y in
      let x' = i % col_size d * cell d + x in
      let moved = pixel-scroll_up s v n out y' x' c (in_frame d v i y x (omega (arith, h)) hy hx) in
      let row = add-div_right i v.columns in
      let column = add-mod_right i (col_size d) in
      let next = succ_row (i / col_size d) (cell d) y in
      let here = rw (row, column) at (g.drawn (i + col_size d) y x h hy hx) in
      let below = rw row at (in_frame d v (i + col_size d) y x h hy hx).0 in
      let inside : ltb (y' + cell d) d.default_gpu.info.vertical_resolution ≡ true =
        lt→ltb _ _ (omega (arith, next, below)) in
      (rw inside at moved) ∙ (ap (λ t. pixel d.default_gpu s.memory t x') (sym next) ∙ here)

  -- A scroll moves the cells up by a row.
  pub Grid-scrolled :
      Grid s.settings out
        (scrolled (row_size s.settings) (col_size s.settings) s.settings.background_color cells)
  unfolding scrolled
  Grid-scrolled = record {
    drawn = λ i y x h hy hx.
        let d = s.settings in
        elim (Bool-cases (ltb (i + col_size d) (row_size d * col_size d))) [
          | inl e ↦ rw e (upward i y x (ltb→lt _ _ e) hy hx)
          | inr e ↦
              let last = row_of_last i (col_size d) (row_size d) v.columns (ltb→ge _ _ e) in
              let low = mono_mul (cell d) last in
              let next = succ_row (i / col_size d) (cell d) y in
              rw e (
                incoming (i / col_size d * cell d + y) (i % col_size d * cell d + x)
                  (in_frame d v i y x h hy hx) (omega (arith, low, next)))
        ];
    margin = λ y x h f. incoming y x f (omega (arith, h));
  }
