-- ===== src/Kernel/Graphics/Screen.antt =====
-- The display's state (inc/kernel/graphics.h) and the pixel routines of src/kernel/graphics.c:
-- `PrintCharacter`, `ScrollUp`, `ColorScreen` and `InitializeDisplay`. `none` is a fault: a division
-- by zero, a read outside the font, or a scroll whose pointer runs past its end mark.
use pious_os.Base.{
  ℕ, zero, suc, ◌+◌, ◌-◌, ◌*◌, ◌/◌, ◌%◌, ◌^◌, Bool, ◌||◌, Option, none, some, List, leb, ◌==◌,
  if◌then◌else◌, ◌>>=◌, get_elem?, get_or, for_range,
}
use pious_os.Kernel.Graphics.Font.{font8x8_basic}

-- `EFI_GRAPHICS_OUTPUT_MODE_INFORMATION`, as far as the kernel reads it.
pub record ModeInfo : Type 0 where
  pub horizontal_resolution : ℕ
  pub vertical_resolution : ℕ
  pub pixels_per_scan_line : ℕ

-- `EFI_GRAPHICS_OUTPUT_PROTOCOL_MODE`, as far as the kernel reads it.
pub record GraphicsMode : Type 0 where
  pub info : ModeInfo
  pub frame_buffer_base : ℕ

-- `TextDisplaySettings`
pub record TextDisplaySettings : Type 0 where
  pub default_gpu : GraphicsMode
  pub font_color : ℕ
  pub highlight_color : ℕ
  pub background_color : ℕ
  pub scale : ℕ
  pub index : ℕ

-- Memory as 32-bit words, by byte address. The framebuffer is only accessed in whole words.
abbrev pub Memory : Type 0
Memory = ℕ → ℕ

-- The global `mainTextDisplaySettings` and the memory behind the framebuffer.
pub record Screen : Type 0 where
  pub settings : TextDisplaySettings
  pub memory : Memory

unfoldable pub poke : Memory → ℕ → ℕ → Memory
poke m a v b = if b == a then v else m b

-- `UINT32` subtraction wraps.
abbrev pub sub32 : ℕ → ℕ → ℕ
sub32 a b = (a + 2 ^ 32 - b) % 2 ^ 32

abbrev pub back_porch : ModeInfo → ℕ
back_porch i = sub32 i.pixels_per_scan_line i.horizontal_resolution

-- a character's side in pixels
abbrev pub cell : TextDisplaySettings → ℕ
cell d = 8 * d.scale

unfoldable pub row_size : TextDisplaySettings → ℕ
row_size d = d.default_gpu.info.vertical_resolution / cell d

unfoldable pub col_size : TextDisplaySettings → ℕ
col_size d = sub32 d.default_gpu.info.pixels_per_scan_line (back_porch d.default_gpu.info) / cell d

-- `FrameBufferBase + 4 * (PixelsPerScanLine * y + x)`: the product and the sum are `UINT32`
-- arithmetic, and wrapping once at the end is the same; the base is 64 bits wide.
unfoldable pub pixel_address : GraphicsMode → ℕ → ℕ → ℕ
pixel_address g y x =
    (g.frame_buffer_base + 4 * (g.info.pixels_per_scan_line * y + x) % 2 ^ 32) % 2 ^ 64

-- The two inner loops of `PrintCharacter`: one dot of the font, `scale` by `scale` pixels.
unfoldable pub draw_dot : GraphicsMode → ℕ → ℕ → ℕ → ℕ → Memory → Memory
draw_dot g scale y x color m =
    for_range scale 0
      (λ j m. for_range scale 0 (λ k m. poke m (pixel_address g (y + j) (x + k)) color) m) m

-- `(row >> bit) & 1`
abbrev pub dot : List ℕ → ℕ → ℕ → Bool
dot glyph r c = get_or glyph r 0 / 2 ^ c % 2 == 1

-- the loop `for(i = 0; i < 64; i++)`
unfoldable pub draw_glyph : TextDisplaySettings → List ℕ → ℕ → ℕ → Memory → Memory
draw_glyph d glyph foreground background m =
    for_range 64 0
      (λ i m.
        draw_dot d.default_gpu d.scale (d.index / col_size d * cell d + i % 8 * d.scale)
          (d.index % col_size d * cell d + i / 8 * d.scale)
          (if dot glyph (i % 8) (i / 8) then foreground else background) m)
      m

-- `for(addr = startAddress; addr != endAddress; addr++) *addr = *(addr + incrementation);`
unfoldable pub copy_up : ℕ → ℕ → ℕ → ℕ → Memory → Option (ℕ × Memory)
copy_up zero addr end inc m = none
copy_up (suc fuel) addr end inc m =
    let rest =
      copy_up fuel ((addr + 4) % 2 ^ 64) end inc (poke m addr (m ((addr + 4 * inc) % 2 ^ 64))) in
    if addr == end then some (addr, m) else rest

-- `for(; addr != end; addr++) *addr = color;`
unfoldable pub fill : ℕ → ℕ → ℕ → ℕ → Memory → Option Memory
fill zero addr end color m = none
fill (suc fuel) addr end color m =
    let rest = fill fuel ((addr + 4) % 2 ^ 64) end color (poke m addr color) in
    if addr == end then some m else rest

-- pixels in the visible area, as `ScrollUp` counts them
abbrev pub area : ModeInfo → ℕ
area i = i.vertical_resolution * i.horizontal_resolution % 2 ^ 32

-- `incrementation`
abbrev pub text_row : TextDisplaySettings → ℕ
text_row d = d.default_gpu.info.pixels_per_scan_line * 8 * d.scale % 2 ^ 32

-- The fuel is one more than the words from the start to the end mark; a pointer that starts above
-- the mark never meets it, and the run faults.
unfoldable pub scroll_up : Screen → Option Screen
scroll_up s =
    let d = s.settings in
    let start = d.default_gpu.frame_buffer_base in
    let words = area d.default_gpu.info in
    let end = (start + 4 * words + 2 ^ 64 - 4 * text_row d) % 2 ^ 64 in
    do
      (addr, m) ← copy_up (words + 1) start end (text_row d) s.memory
      m' ← fill (words + 1) addr ((start + 4 * words) % 2 ^ 64) d.background_color m
      some (record s { memory = m' })

-- `index == rowSize * colSize - 1` in `UINT32` arithmetic
abbrev pub last_index : TextDisplaySettings → ℕ
last_index d = sub32 (row_size d * col_size d % 2 ^ 32) 1

abbrev pub set_index : Screen → ℕ → Screen
set_index s i = record s { settings = record (s.settings) { index = i } }

-- the end of `PrintCharacter`: the cursor moves on, and the screen scrolls behind the last cell
unfoldable pub advance : Screen → Option Screen
advance s =
    let d = s.settings in
    if d.index == last_index d
    then (do s' ← scroll_up s; some (set_index s' (sub32 (row_size d) 1 * col_size d % 2 ^ 32)))
    else some (set_index s ((d.index + 1) % 2 ^ 32))

unfoldable pub print_character : ℕ → ℕ → ℕ → Screen → Option Screen
print_character chr foreground background s =
    let d = s.settings in
    if cell d == 0 || col_size d == 0 then none else do
      glyph ← get_elem? font8x8_basic chr
      advance (record s { memory = draw_glyph d glyph foreground background s.memory })

-- `case '\n'` of `PrintString`
unfoldable pub new_line : Screen → Option Screen
new_line s =
    let d = s.settings in
    if cell d == 0 || col_size d == 0
    then none
    else (if leb (sub32 (row_size d) 1) (d.index / col_size d)
        then (do s' ← scroll_up s; some (set_index s' (col_size d * sub32 (row_size d) 1 % 2 ^ 32)))
        else some (set_index s ((d.index / col_size d + 1) * col_size d % 2 ^ 32)))

unfoldable pub color_screen : ℕ → Screen → Screen
color_screen color s =
    let g = s.settings.default_gpu in
    record s {
      memory =
          for_range g.info.vertical_resolution 0
            (λ row m.
              for_range (sub32 g.info.pixels_per_scan_line (back_porch g.info)) 0
                (λ col m. poke m (pixel_address g row col) color) m)
            s.memory;
    }

abbrev pub visible_pixels : ModeInfo → ℕ
visible_pixels i = sub32 i.pixels_per_scan_line (back_porch i) * i.vertical_resolution % 2 ^ 32

unfoldable pub choose_scale : ℕ → ℕ
choose_scale pixels =
    if leb (1920 * 1080) pixels then 4 else if leb (960 * 540) pixels then 2 else 1

unfoldable pub initialize_display : GraphicsMode → Memory → Screen
initialize_display gpu m = color_screen 0 (record {
  settings = record {
    default_gpu = gpu;
    font_color = 0x00ff_ffff;
    highlight_color = 0x0033_ff33;
    background_color = 0;
    scale = choose_scale (visible_pixels gpu.info);
    index = 0;
  };
  memory = m;
})
