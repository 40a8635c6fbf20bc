-- ===== src/Kernel/Graphics/Blank.antt =====
-- `ColorScreen` and `InitializeDisplay` of src/kernel/graphics.c.
use pious_os.Base.{
  ℕ, ◌*◌, ◌^◌, ◌≤◌, ◌<◌, ◌≡◌, refl, ◌∙◌, ◌&&◌, ltb, ◌==◌, if◌then◌else◌, arith, for_range,
  for_range_inv,
}
use native.Mathlib.Nat.{le-div_iff_mul-le}
use pious_os.Kernel.Graphics.Screen.{
  Memory, Screen, GraphicsMode, TextDisplaySettings, pixel_address, poke, color_screen, sub32,
  initialize_display, choose_scale, visible_pixels, row_size, col_size, text_row, area,
}
use pious_os.Kernel.Graphics.Pixels.{Fits, InFrame, pixel, pixel-poke}
use pious_os.Kernel.Graphics.Cursor.{IsValid}

module _ (g : GraphicsMode) (color : ℕ) (f : Fits g) (y x : ℕ) (q : InFrame g y x) where
  -- one row of `ColorScreen`, up to the column `w`
  pixel-color_row :
      (row w : ℕ) (m : Memory)
      → row < g.info.vertical_resolution
      → w ≤ g.info.pixels_per_scan_line
      → pixel g (for_range w 0 (λ col m. poke m (pixel_address g row col) color) m) y x
        ≡ (if y == row && ltb x w then color else pixel g m y x)
  pixel-color_row row w m hr hw =
      for_range_inv
        (λ k m'. pixel g m' y x ≡ (if y == row && ltb x k then color else pixel g m y x))
        (λ col m. poke m (pixel_address g row col) color) w w 0 m (omega arith)
        (λ k m' lo hi e.
          pixel-poke g m' row k color y x f (hr, omega arith) q ∙ rw e (ground arith))
        (ground arith)

  pixel-color_rows :
      (h w : ℕ) (m : Memory)
      → h ≤ g.info.vertical_resolution
      → w ≤ g.info.pixels_per_scan_line
      → pixel g
          (for_range h 0
            (λ row m. for_range w 0 (λ col m. poke m (pixel_address g row col) color) m)
            m)
          y
          x
        ≡ (if ltb y h && ltb x w then color else pixel g m y x)
  pixel-color_rows h w m hh hw =
      for_range_inv (λ i m'. pixel g m' y x ≡ (if ltb y i && ltb x w then color else pixel g m y x))
        (λ row m. for_range w 0 (λ col m. poke m (pixel_address g row col) color) m) h h 0 m
        (omega arith)
        (λ i m' lo hi e. pixel-color_row i w m' (omega arith) hw ∙ rw e (ground arith))
        (ground arith)

-- `ColorScreen` gives every visible pixel the colour, and keeps the back porch.
pub color_screen_lem :
    (color : ℕ) (s : Screen) (y x : ℕ)
    → Fits s.settings.default_gpu
    → s.settings.default_gpu.info.horizontal_resolution
      ≤ s.settings.default_gpu.info.pixels_per_scan_line
    → s.settings.default_gpu.info.pixels_per_scan_line < 2 ^ 32
    → InFrame s.settings.default_gpu y x
    → pixel s.settings.default_gpu (color_screen color s).memory y x ≡ (
        if ltb x s.settings.default_gpu.info.horizontal_resolution
        then color
        else pixel s.settings.default_gpu s.memory y x)
unfolding color_screen
color_screen_lem color s y x f h w q =
    let g = s.settings.default_gpu in
    let width : sub32 g.info.pixels_per_scan_line
          (sub32 g.info.pixels_per_scan_line g.info.horizontal_resolution)
        ≡ g.info.horizontal_resolution =
      omega arith in
    rw width (
      pixel-color_rows g color f y x q g.info.vertical_resolution g.info.horizontal_resolution
        s.memory (omega arith) h
      ∙ ground arith)

-- what `InitializeDisplay` chooses
choose_scale_bounds : (p : ℕ) → (0 < choose_scale p) × (choose_scale p ≤ 4)
unfolding choose_scale
choose_scale_bounds p = ground arith

-- a fresh display at a scale of at most 4
abbrev fresh : GraphicsMode → ℕ → TextDisplaySettings
fresh gpu scale = record {
  default_gpu = gpu;
  font_color = 0x00ff_ffff;
  highlight_color = 0x0033_ff33;
  background_color = 0;
  scale = scale;
  index = 0;
}

mul_pos : {a b : ℕ} → 0 < a → 0 < b → 0 < a * b
mul_pos p q = grind arith

line_below : (a b w : ℕ) → 64 ≤ b → 4 * (b * a) ≤ w → 256 * a ≤ w
line_below a b w p q = grind arith

module _ (gpu : GraphicsMode) (f : Fits gpu)
    (visible : gpu.info.horizontal_resolution ≤ gpu.info.pixels_per_scan_line)
    (wide : 64 ≤ gpu.info.horizontal_resolution) (high : 64 ≤ gpu.info.vertical_resolution)
    (holds : 32 * gpu.info.pixels_per_scan_line
      ≤ gpu.info.vertical_resolution * gpu.info.horizontal_resolution) where
  line_lt : gpu.info.pixels_per_scan_line < 2 ^ 28
  line_lt =
      let below : 256 * gpu.info.pixels_per_scan_line ≤ 2 ^ 32 =
        line_below gpu.info.pixels_per_scan_line gpu.info.vertical_resolution (2 ^ 32) high
          (omega (arith, f.offsets)) in
      omega arith

  area_le :
      gpu.info.vertical_resolution * gpu.info.horizontal_resolution
      ≤ gpu.info.vertical_resolution * gpu.info.pixels_per_scan_line
  area_le = grind (arith, visible)

  fresh-columns : (k : ℕ) → 0 < k → k ≤ 4 → 0 < col_size (fresh gpu k)
  unfolding col_size
  fresh-columns k p q =
      let width : sub32 gpu.info.pixels_per_scan_line
            (sub32 gpu.info.pixels_per_scan_line gpu.info.horizontal_resolution)
          ≡ gpu.info.horizontal_resolution =
        omega (arith, line_lt, visible) in
      rw width ((le-div_iff_mul-le {k = 8 * k} {x = 1} (omega arith)).1 (omega (arith, wide)))

  fresh-rows : (k : ℕ) → 0 < k → k ≤ 4 → 0 < row_size (fresh gpu k)
  unfolding row_size
  fresh-rows k p q = (le-div_iff_mul-le {k = 8 * k} {x = 1} (omega arith)).1 (omega (arith, high))

  fresh-scrolls : (k : ℕ) → 0 < k → k ≤ 4 → text_row (fresh gpu k) ≤ area gpu.info
  fresh-scrolls k p q =
      let room : gpu.info.pixels_per_scan_line * 8 * k ≤ 32 * gpu.info.pixels_per_scan_line =
        grind arith in
      omega (arith, room, holds, area_le, f.offsets)

  fresh-IsValid : (k : ℕ) → 0 < k → k ≤ 4 → IsValid (fresh gpu k)
  fresh-IsValid k p q = record {
    visible = visible;
    offsets = f.offsets;
    addresses = f.addresses;
    scaled = p;
    narrow = omega arith;
    columns = fresh-columns k p q;
    rows = fresh-rows k p q;
    scrolls = fresh-scrolls k p q;
    on_screen = mul_pos (fresh-rows k p q) (fresh-columns k p q);
  }

-- `InitializeDisplay` starts in a valid state: for a mode of at least 64 by 64 visible pixels whose
-- framebuffer fits, with a visible area that holds 32 pixel rows of the framebuffer, the display is valid
-- and its cursor is at 0.
pub initialize_display-IsValid :
    (gpu : GraphicsMode) (m : Memory)
    → Fits gpu
    → gpu.info.horizontal_resolution ≤ gpu.info.pixels_per_scan_line
    → 64 ≤ gpu.info.horizontal_resolution
    → 64 ≤ gpu.info.vertical_resolution
    → 32 * gpu.info.pixels_per_scan_line
      ≤ gpu.info.vertical_resolution * gpu.info.horizontal_resolution
    → IsValid (initialize_display gpu m).settings × ((initialize_display gpu m).settings.index ≡ 0)
unfolding initialize_display color_screen
initialize_display-IsValid gpu m f visible wide high holds =
    let (pos, small) = choose_scale_bounds (visible_pixels gpu.info) in
    (
      fresh-IsValid gpu f visible wide high holds (choose_scale (visible_pixels gpu.info)) pos
          small,
      refl,
    )
