-- ===== src/Kernel/Graphics/Glyph.antt =====
-- What `PrintCharacter` of src/kernel/graphics.c draws.
use pious_os.Base.{
  ℕ, ◌+◌, ◌-◌, ◌*◌, ◌/◌, ◌%◌, ◌≤◌, ◌<◌, ◌≡◌, refl, ◌∙◌, Bool, ◌&&◌, ltb, leb, ◌==◌, if◌then◌else◌,
  arith, for_range_inv, List, some, get_elem?,
}
use native.Mathlib.Nat.{div-lt_iff_lt-mul, le-div_iff_mul-le, le_trans, mod-lt}
use pious_os.Kernel.Graphics.Font.{font8x8_basic}
use pious_os.Kernel.Graphics.Screen.{
  Memory, Screen, GraphicsMode, TextDisplaySettings, draw_dot, draw_glyph, dot, cell, col_size,
  print_character, advance,
}
use pious_os.Kernel.Graphics.Pixels.{within, Fits, InFrame, pixel, pixel-draw_dot}
use pious_os.Kernel.Graphics.Cursor.{IsValid, rows_fit, columns_fit, font-some, faultless}

-- Which dot of a row or column of dots a pixel lies in.
div_eq_iff : (d s r : ℕ) → 0 < s → (d / s == r) ≡ (leb (r * s) d && ltb d (r * s + s))
div_eq_iff d s r h = ground (
  arith,
  le-div_iff_mul-le {k = s} {x = r} {y = d} h,
  div-lt_iff_lt-mul {k = s} {x = d} {y = r + 1} h,
)

within_dot : (a s r y : ℕ) → 0 < s → within (a + r * s) s y ≡ (leb a y && ((y - a) / s == r))
within_dot a s r y h = rw div_eq_iff (ground arith)

within_cell : (a s y : ℕ) → 0 < s → within a (8 * s) y ≡ (leb a y && ltb ((y - a) / s) 8)
within_cell a s y h = ground (arith, div-lt_iff_lt-mul {k = s} {x = y - a} {y = 8} h)

-- the pixels of a character's cell
abbrev pub in_cell : ℕ → ℕ → ℕ → ℕ → ℕ → Bool
in_cell s top left y x = within top (8 * s) y && within left (8 * s) x

-- One more dot, over the dot coordinates of a pixel.
one_more :
    (ly lx : Bool) (a b i old : ℕ) (color : ℕ → ℕ → ℕ)
    → i < 64
    → (if (ly && (a == i % 8)) && (lx && (b == i / 8))
        then color (i % 8) (i / 8)
        else (if ((ly && ltb a 8) && (lx && ltb b 8)) && ltb (b * 8 + a) i then color a b else old))
      ≡ (if ((ly && ltb a 8) && (lx && ltb b 8)) && ltb (b * 8 + a) (i + 1) then color a b else old)
one_more ly lx a b i old color h = ground arith

-- the colour of the font's dot at a pixel of the cell
abbrev pub glyph_color : ℕ → List ℕ → ℕ → ℕ → ℕ → ℕ → ℕ → ℕ → ℕ
glyph_color s glyph top left foreground background y x =
    if dot glyph ((y - top) / s) ((x - left) / s) then foreground else background

module _ (g : GraphicsMode) (s : ℕ) (glyph : List ℕ) (top left foreground background : ℕ) where
  -- the round of the loop over the font's 64 dots that draws a pixel
  abbrev round_of : ℕ → ℕ → ℕ
  round_of y x = (x - left) / s * 8 + (y - top) / s

  -- After `i` rounds the pixels of the first `i` dots have their colours, and the others are those of `m`.
  abbrev Drawn : Memory → ℕ → Memory → Type 0
  Drawn m i m' =
      (y x : ℕ)
      → InFrame g y x
      → pixel g m' y x ≡ (
          if in_cell s top left y x && ltb (round_of y x) i
          then glyph_color s glyph top left foreground background y x
          else pixel g m y x)

  abbrev body : ℕ → Memory → Memory
  body i m =
      draw_dot g s (top + i % 8 * s) (left + i / 8 * s)
        (if dot glyph (i % 8) (i / 8) then foreground else background) m

  dot_low : (a r b : ℕ) → r < 8 → a + 8 * s ≤ b → a + r * s + s ≤ b
  dot_low a r b h w = grind arith

  Drawn-body :
      (m : Memory) (i : ℕ) (m' : Memory)
      → Fits g
      → 0 < s
      → top + 8 * s ≤ g.info.vertical_resolution
      → left + 8 * s ≤ g.info.pixels_per_scan_line
      → i < 64
      → Drawn m i m'
      → Drawn m (i + 1) (body i m')
  Drawn-body m i m' f pos hy hx lt drawn y x q =
      pixel-draw_dot g s (top + i % 8 * s) (left + i / 8 * s) _ m' y x f q
        (dot_low top (i % 8) g.info.vertical_resolution (omega arith) hy)
        (dot_low left (i / 8) g.info.pixels_per_scan_line (omega arith) hx)
      ∙ rw
          (
            within_dot top s (i % 8) y pos,
            within_dot left s (i / 8) x pos,
            drawn y x q,
            within_cell top s y pos,
            within_cell left s x pos,
          )
          (one_more (leb top y) (leb left x) ((y - top) / s) ((x - left) / s) i (pixel g m y x)
            (λ r c. if dot glyph r c then foreground else background) lt)

-- Within the cell every round is one of the 64.
all_rounds :
    (ly lx : Bool) (a b color old : ℕ)
    → (if ((ly && ltb a 8) && (lx && ltb b 8)) && ltb (b * 8 + a) 64 then color else old)
      ≡ (if (ly && ltb a 8) && (lx && ltb b 8) then color else old)
all_rounds ly lx a b color old = ground arith

pub next_le : {q r b : ℕ} (c : ℕ) → q < r → r * c ≤ b → q * c + c ≤ b
next_le c h w = grind arith

-- the top and the left of the cursor's cell
abbrev pub cell_top : TextDisplaySettings → ℕ
cell_top d = d.index / col_size d * cell d

abbrev pub cell_left : TextDisplaySettings → ℕ
cell_left d = d.index % col_size d * cell d

module _ (d : TextDisplaySettings) (v : IsValid d) where
  Fits-valid : Fits d.default_gpu
  Fits-valid = record { offsets = v.offsets; addresses = v.addresses }

  pub cell_in_frame :
      (cell_top d + 8 * d.scale ≤ d.default_gpu.info.vertical_resolution)
      × (cell_left d + 8 * d.scale ≤ d.default_gpu.info.pixels_per_scan_line)
  cell_in_frame = (
    next_le (cell d) ((div-lt_iff_lt-mul v.columns).1 v.on_screen) (rows_fit d v),
    le_trans (next_le (cell d) (mod-lt d.index v.columns) (columns_fit d v)) v.visible,
  )

  pub draw_glyph_lem :
      (glyph : List ℕ) (foreground background : ℕ) (m : Memory) (y x : ℕ)
      → InFrame d.default_gpu y x
      → pixel d.default_gpu (draw_glyph d glyph foreground background m) y x ≡ (
          if in_cell d.scale (cell_top d) (cell_left d) y x
          then glyph_color d.scale glyph (cell_top d) (cell_left d) foreground background y x
          else pixel d.default_gpu m y x)
  unfolding draw_glyph
  draw_glyph_lem glyph foreground background m y x q =
      let (hy, hx) = cell_in_frame in
      for_range_inv
        (Drawn d.default_gpu d.scale glyph (cell_top d) (cell_left d) foreground background m)
        (body d.default_gpu d.scale glyph (cell_top d) (cell_left d) foreground background) 64 64 0
        m refl
        (λ i m' lo hi.
          Drawn-body d.default_gpu d.scale glyph (cell_top d) (cell_left d) foreground background m
            i m' Fits-valid v.scaled hy hx hi)
        (λ y x q. ground arith) y x q
      ∙ rw
          (
            within_cell (cell_top d) d.scale y v.scaled,
            within_cell (cell_left d) d.scale x v.scaled,
          )
          (all_rounds (leb (cell_top d) y) (leb (cell_left d) x) ((y - (cell_top d)) / d.scale)
            ((x - (cell_left d)) / d.scale)
            (glyph_color d.scale glyph (cell_top d) (cell_left d) foreground background y x) _)

-- On a valid display `PrintCharacter` of a character below 128 draws the font's glyph in the cursor's
-- cell and then moves the cursor on: a pixel of the cell takes the foreground colour where its dot of the
-- glyph is set and the background colour where it is not, and every other pixel of the frame is kept.
pub print_character_draws :
    (chr foreground background : ℕ) (s : Screen) (y x : ℕ)
    → chr < 128
    → IsValid s.settings
    → InFrame s.settings.default_gpu y x
    → (glyph : List ℕ) × (m : Memory) × (get_elem? font8x8_basic chr ≡ some glyph)
      × (print_character chr foreground background s ≡ advance (record s { memory = m }))
      × (pixel s.settings.default_gpu m y x ≡ (
          if in_cell s.settings.scale (cell_top s.settings) (cell_left s.settings) y x
          then glyph_color s.settings.scale glyph
              (cell_top s.settings)
              (cell_left s.settings)
              foreground
              background
              y
              x
          else pixel s.settings.default_gpu s.memory y x))
unfolding print_character
print_character_draws chr foreground background s y x h v q =
    let d = s.settings in
    let (glyph, found) = font-some chr h in
    (
      glyph,
      draw_glyph d glyph foreground background s.memory,
      found,
      rw (faultless d v, found) refl,
      draw_glyph_lem d v glyph foreground background s.memory y x q,
    )
