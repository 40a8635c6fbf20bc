-- ===== src/Kernel/Graphics/Pixels.antt =====
-- Pixels by their coordinates: where src/kernel/graphics.c writes them, and what its dot loops leave.
use pious_os.Base.{
  ℕ, zero, suc, ◌+◌, ◌*◌, ◌^◌, ◌≤◌, ◌<◌, ◌≡◌, ap, Bool, ◌&&◌, ltb, leb, ◌==◌, if◌then◌else◌, arith,
  for_range,
}
use pious_os.Kernel.Graphics.Screen.{Memory, GraphicsMode, pixel_address, poke, draw_dot}

-- `a ≤ x < a + n`
abbrev pub within : ℕ → ℕ → ℕ → Bool
within a n x = leb a x && ltb x (a + n)

-- Offsets in the framebuffer stay below 2 ^ 32, and its addresses below 2 ^ 64.
pub record Fits (g : GraphicsMode) : Type 0 where
  pub offsets : 4 * (g.info.vertical_resolution * g.info.pixels_per_scan_line) ≤ 2 ^ 32
  pub addresses : g.frame_buffer_base + 2 ^ 32 < 2 ^ 64

-- The coordinates of a pixel of the framebuffer, the back porch included.
abbrev pub InFrame : GraphicsMode → ℕ → ℕ → Type 0
InFrame g y x = (y < g.info.vertical_resolution) × (x < g.info.pixels_per_scan_line)

unfoldable pub pixel : GraphicsMode → Memory → ℕ → ℕ → ℕ
pixel g m y x = m (pixel_address g y x)

row_below : (y x h w : ℕ) → y < h → x < w → w * y + x < h * w
row_below y x h w p q = grind arith

pub address_eq :
    (g : GraphicsMode) (y x : ℕ)
    → Fits g
    → InFrame g y x
    → pixel_address g y x ≡ g.frame_buffer_base + 4 * (g.info.pixels_per_scan_line * y + x)
unfolding pixel_address
address_eq g y x f (p, q) =
    let inside = row_below y x g.info.vertical_resolution g.info.pixels_per_scan_line p q in
    omega (arith, inside, f.offsets, f.addresses)

row_inj_lt : (w y x y' x' : ℕ) → x < w → y < y' → w * y + x < w * y' + x'
row_inj_lt w y x y' x' p q = grind arith

row_inj : (w y x y' x' : ℕ) → x < w → x' < w → w * y + x ≡ w * y' + x' → (y ≡ y') × (x ≡ x')
row_inj w y x y' x' p q e =
    let rows : y ≡ y' = ground (arith, row_inj_lt w y x y' x' p, row_inj_lt w y' x' y x q) in
    (rows, omega (arith, ap (λ (t : ℕ). w * t) rows))

address_inj :
    (g : GraphicsMode) (y x y' x' : ℕ)
    → Fits g
    → InFrame g y x
    → InFrame g y' x'
    → pixel_address g y x ≡ pixel_address g y' x'
    → (y ≡ y') × (x ≡ x')
address_inj g y x y' x' f p q e =
    row_inj g.info.pixels_per_scan_line y x y' x' p.1 q.1
      (omega (arith, address_eq g y x f p, address_eq g y' x' f q, e))

-- Writing one pixel leaves the others.
pub pixel-poke :
    (g : GraphicsMode) (m : Memory) (y x color y' x' : ℕ)
    → Fits g
    → InFrame g y x
    → InFrame g y' x'
    → pixel g (poke m (pixel_address g y x) color) y' x'
      ≡ (if y' == y && x' == x then color else pixel g m y' x')
unfolding pixel poke
pixel-poke g m y x color y' x' f p q = ground (arith, address_inj g y' x' y x f q p)

-- The loop over `k`: part of a pixel row.
pixel-row :
    (g : GraphicsMode) (color y y' x' : ℕ)
    → Fits g
    → InFrame g y' x'
    → y < g.info.vertical_resolution
    → (n k x : ℕ) (m : Memory) → x + k + n ≤ g.info.pixels_per_scan_line
    → pixel g (for_range n k (λ k m. poke m (pixel_address g y (x + k)) color) m) y' x'
      ≡ (if y' == y && within (x + k) n x' then color else pixel g m y' x')
unfolding for_range
pixel-row g color y y' x' f q h zero k x m w = ground arith
pixel-row g color y y' x' f q h (suc n) k x m w = ground (
  arith,
  pixel-row g color y y' x' f q h n (k + 1) x (poke m (pixel_address g y (x + k)) color),
  pixel-poke g m y (x + k) color y' x' f (h, omega arith) q,
)

-- The loop over `j`: the dot's rows.
pixel-rows :
    (g : GraphicsMode) (color x scale y' x' : ℕ)
    → Fits g
    → InFrame g y' x'
    → x + scale ≤ g.info.pixels_per_scan_line
    → (n j y : ℕ) (m : Memory) → y + j + n ≤ g.info.vertical_resolution
    → pixel g
        (for_range n j
          (λ j m. for_range scale 0 (λ k m. poke m (pixel_address g (y + j) (x + k)) color) m)
          m)
        y'
        x'
      ≡ (if within (y + j) n y' && within x scale x' then color else pixel g m y' x')
unfolding for_range
pixel-rows g color x scale y' x' f q h zero j y m w = ground arith
pixel-rows g color x scale y' x' f q h (suc n) j y m w = ground (
  arith,
  pixel-rows g color x scale y' x' f q h n (j + 1) y
      (for_range scale 0 (λ k m. poke m (pixel_address g (y + j) (x + k)) color) m),
  pixel-row g color (y + j) y' x' f q (omega arith) scale 0 x m,
)

-- A dot of the font covers `scale` by `scale` pixels, and changes no other in the frame.
pub pixel-draw_dot :
    (g : GraphicsMode) (scale y x color : ℕ) (m : Memory) (y' x' : ℕ)
    → Fits g
    → InFrame g y' x'
    → y + scale ≤ g.info.vertical_resolution
    → x + scale ≤ g.info.pixels_per_scan_line
    → pixel g (draw_dot g scale y x color m) y' x'
      ≡ (if within y scale y' && within x scale x' then color else pixel g m y' x')
unfolding draw_dot
pixel-draw_dot g scale y x color m y' x' f q hy hx =
    ground (arith, pixel-rows g color x scale y' x' f q hx scale 0 y m)
