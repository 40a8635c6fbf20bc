-- ===== src/Kernel/Terminal/Drawn.antt =====
-- A character that `PrintCharacter` of src/kernel/graphics.c draws is the one of the terminal's cell.
use pious_os.Base.{
  ℕ, zero, suc, ◌+◌, ◌-◌, ◌*◌, ◌/◌, ◌%◌, ◌≤◌, ◌<◌, ◌≡◌, ◌≢◌, refl, ap, ◌∙◌, inl, inr, Bool, true,
  false, ◌&&◌, ◌==◌, ==_iff, Bool-cases, if◌then◌else◌, arith, List, [], ◌∷◌, get_or, get_elem?,
  some,
}
use mathlib.Core.Option.{some-injective}
use native.Mathlib.Nat.{div-add-mod', div-lt_iff_lt-mul}
use pious_os.Kernel.Graphics.Font.{font8x8_basic}
use pious_os.Kernel.Graphics.Screen.{Memory, TextDisplaySettings, draw_glyph, cell, col_size}
use pious_os.Kernel.Graphics.Pixels.{within}
use pious_os.Kernel.Graphics.Cursor.{IsValid}
use pious_os.Kernel.Graphics.Glyph.{
  in_cell, glyph_color, cell_top, cell_left, draw_glyph_lem, next_le,
}
use pious_os.Kernel.Terminal.{Cell, glyph}
use pious_os.Kernel.Terminal.Shown.{cell_color, Grid, in_frame}

block_lt : (q r c : ℕ) → q < r → q * c + c ≤ r * c
block_lt q r c h = grind arith

-- Blocks of `c` from multiples of `c` on do not overlap.
same_block : (q r c y : ℕ) → y < c → within (r * c) c (q * c + y) ≡ true → q ≡ r
same_block q r c y h e = ground (arith, block_lt q r c, block_lt r q c)

same_index : (i j c : ℕ) → i / c ≡ j / c → i % c ≡ j % c → i ≡ j
same_index i j c e e' =
    omega (arith, div-add-mod' i c, div-add-mod' j c, ap (λ (t : ℕ). t * c) e, e')

in_block : (a c y : ℕ) → y < c → within a c (a + y) ≡ true
in_block a c y h = ground arith

get_or-some : (l : List (List ℕ)) (i : ℕ) (g : List ℕ) → get_elem? l i ≡ some g → get_or l i [] ≡ g
get_or-some [] i g e = cc
get_or-some (x ∷ xs) zero g e = some-injective _ _ e
get_or-some (x ∷ xs) (suc i) g e = get_or-some xs i g e

and_true : (a b : Bool) → a ≡ true → b ≡ true → (a && b) ≡ true
and_true a b p q = rw (p, q) refl

and_cases : (a b : Bool) → (a && b) ≡ true → (a ≡ true) × (b ≡ true)
and_cases true b h = (refl, h)
and_cases false b h = cc

module _ (d : TextDisplaySettings) (v : IsValid d) (i y x : ℕ) (hy : y < cell d)
    (hx : x < cell d) where
  abbrev row : ℕ
  row = i / col_size d * cell d + y

  abbrev column : ℕ
  column = i % col_size d * cell d + x

  in_own_cell : i ≡ d.index → in_cell d.scale (cell_top d) (cell_left d) row column ≡ true
  in_own_cell e =
      rw e
        (and_true _ _ (in_block (cell_top d) (cell d) y hy) (in_block (cell_left d) (cell d) x hx))

  in_other_cell : i ≢ d.index → in_cell d.scale (cell_top d) (cell_left d) row column ≡ false
  in_other_cell ne = elim (Bool-cases (in_cell d.scale (cell_top d) (cell_left d) row column)) [
    | inr e ↦ e
    | inl e ↦
        let (rows, columns) = and_cases _ _ e in
        absurd (
          ne (
            same_index i d.index (col_size d)
              (same_block (i / col_size d) (d.index / col_size d) (cell d) y hy rows)
              (same_block (i % col_size d) (d.index % col_size d) (cell d) x hx columns)))
  ]

below_row : (q c : ℕ) {r h : ℕ} → q < r → r * c ≤ h → within (q * c) c h ≡ false
below_row q c p w = let inside = next_le c p w in ground (arith, inside)

minus_add : (a y : ℕ) → a + y - a ≡ y
minus_add a y = omega arith

own_color :
    (d : TextDisplaySettings) (i y x c foreground background : ℕ) (dots : List ℕ)
    → get_elem? font8x8_basic c ≡ some dots
    → i ≡ d.index
    → glyph_color d.scale dots
        (cell_top d)
        (cell_left d)
        foreground
        background
        (i / col_size d * cell d + y)
        (i % col_size d * cell d + x)
      ≡ cell_color d.scale (glyph c foreground background) y x
own_color d i y x c foreground background dots found e =
    rw
      (
        e,
        minus_add (cell_top d) y,
        minus_add (cell_left d) x,
        get_or-some font8x8_basic c dots found,
      )
      refl

module _ (d : TextDisplaySettings) (v : IsValid d) (m : Memory) (cells : ℕ → Cell) where
  -- The terminal's cells with a new character at the cursor.
  abbrev pub overwritten : ℕ → ℕ → ℕ → ℕ → Cell
  overwritten c foreground background i =
      if i == d.index then glyph c foreground background else cells i

  -- Drawing a glyph of the font puts its character into the cell of the cursor, and keeps the others.
  pub Grid-draw_glyph :
      (c foreground background : ℕ) (dots : List ℕ)
      → get_elem? font8x8_basic c ≡ some dots
      → Grid d m cells
      → Grid d (draw_glyph d dots foreground background m) (overwritten c foreground background)
  Grid-draw_glyph c foreground background dots found g = record {
    drawn = λ i y x h hy hx.
        let row = i / col_size d * cell d + y in
        let column = i % col_size d * cell d + x in
        let drawn =
          draw_glyph_lem d v dots foreground background m row column (in_frame d v i y x h hy hx) in
        elim (Bool-cases (i == d.index)) [
          | inl e ↦ rw e (
              (rw (in_own_cell d v i y x hy hx ((==_iff i d.index).0 e)) at drawn)
              ∙ own_color d i y x c foreground background dots found ((==_iff i d.index).0 e))
          | inr e ↦
              let ne : i ≢ d.index = ground arith in
              rw e ((rw (in_other_cell d v i y x hy hx ne) at drawn) ∙ g.drawn i y x h hy hx)
        ];
    margin = λ y x h f.
        let drawn = draw_glyph_lem d v dots foreground background m y x f in
        let outside =
          below_row (d.index / col_size d) (cell d) ((div-lt_iff_lt-mul v.columns).1 v.on_screen)
            h in
        (rw outside at drawn) ∙ g.margin y x h f;
  }
