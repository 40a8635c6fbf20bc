-- ===== src/Kernel/Terminal/Typed.antt =====
-- The display of src/kernel/graphics.c does what the terminal does, character by character.
use pious_os.Base.{
  ℕ, ◌+◌, ◌-◌, ◌*◌, ◌/◌, ◌%◌, ◌^◌, ◌<◌, ◌≡◌, refl, sym, ap, inl, inr, true, false, ltb, ltb→lt, leb,
  ◌==◌, Bool-cases, if◌then◌else◌, Option, some, ◌>>=◌, arith,
}
use mathlib.Core.Path.{subst}
use native.Mathlib.Nat.{mul_comm}
use pious_os.Kernel.Graphics.Screen.{
  Memory, Screen, TextDisplaySettings, draw_glyph, row_size, col_size, scroll_up, set_index,
  last_index, advance, print_character, new_line, sub32,
}
use pious_os.Kernel.Graphics.Scroll.{scroll_up_moves_text}
use pious_os.Kernel.Graphics.Cursor.{
  IsValid, IsValid-index, Moved, area_below, no_wrap, last_row-on_screen, faultless, font-some,
  mul_lt,
}
use pious_os.Kernel.Terminal.{Cell, glyph, Terminal, last_row, next_cell, next_row, put}
use pious_os.Kernel.Terminal.Shown.{NoPorch, Grid, Grid-scrolled}
use pious_os.Kernel.Terminal.Drawn.{Grid-draw_glyph}

-- The screen shows the terminal: a valid display without a back porch, with the terminal's cells and its cursor.
pub record Shows (s : Screen) (t : Terminal) : Type 0 where
  pub valid : IsValid s.settings
  pub no_porch : NoPorch s.settings
  pub grid : Grid s.settings s.memory t.cells
  pub cursor : t.cursor ≡ s.settings.index

-- The run returns a screen that shows the terminal after `f`, and only the cursor of the settings has moved.
abbrev pub Turns : Screen → Terminal → Option Screen → (ℕ → ℕ → ℕ → Terminal → Terminal) → Type 0
Turns s t r f =
    (s' : Screen) × (r ≡ some s')
    × Shows s' (f (row_size s.settings) (col_size s.settings) s.settings.background_color t)
    × Moved s.settings s'.settings

Grid-index :
    (d : TextDisplaySettings) (m : Memory) (cells : ℕ → Cell) (i : ℕ)
    → Grid d m cells
    → Grid (record d { index = i }) m cells
unfolding row_size col_size
Grid-index d m cells i g = record { drawn = g.drawn; margin = g.margin }

-- A scroll, with the cursor in the last row.
scroll_to :
    (s : Screen) (t : Terminal) (j : ℕ)
    → Shows s t
    → j ≡ (row_size s.settings - 1) * col_size s.settings
    → Turns s t (scroll_up s >>= λ u. some (set_index u j)) last_row
unfolding last_row
scroll_to s t j h e =
    let d = s.settings in
    let (out, run, c) = scroll_up_moves_text s h.valid.scrolls (area_below d h.valid) in
    let inside = (last_row-on_screen d h.valid).1 in
    (
      set_index (record s { memory = out }) j,
      rw run refl,
      record {
        valid = IsValid-index d j h.valid (omega (arith, e, inside));
        no_porch = h.no_porch;
        grid = Grid-index d out _ j (Grid-scrolled s h.valid h.no_porch t.cells out h.grid c);
        cursor = sym e;
      },
      refl,
    )

-- the cursor alone
move_to :
    (s : Screen) (t : Terminal) (j : ℕ)
    → Shows s t
    → j < row_size s.settings * col_size s.settings
    → Shows (set_index s j) (record t { cursor = j })
move_to s t j h inside = record {
  valid = IsValid-index s.settings j h.valid inside;
  no_porch = h.no_porch;
  grid = Grid-index s.settings s.memory t.cells j h.grid;
  cursor = refl;
}

advance-next_cell : (s : Screen) (t : Terminal) → Shows s t → Turns s t (advance s) next_cell
unfolding advance next_cell
advance-next_cell s t h =
    let d = s.settings in
    let (last, rows, below) = no_wrap d h.valid in
    let (start, inside) = last_row-on_screen d h.valid in
    elim (Bool-cases (d.index == last_index d)) [
      | inl e ↦
          let full : (t.cursor + 1 == row_size d * col_size d) ≡ true =
            ground (arith, h.cursor, last, e, h.valid.on_screen) in
          rw (e, full) (scroll_to s t _ h start)
      | inr e ↦
          let free : (t.cursor + 1 == row_size d * col_size d) ≡ false =
            ground (arith, h.cursor, last, e, h.valid.on_screen) in
          let next : (d.index + 1) % 2 ^ 32 ≡ t.cursor + 1 =
            omega (arith, h.cursor, h.valid.on_screen, below) in
          let room : t.cursor + 1 < row_size d * col_size d =
            ground (arith, h.cursor, last, e, h.valid.on_screen) in
          rw (e, free, next)
            (set_index s (t.cursor + 1), refl, move_to s t (t.cursor + 1) h room, refl)
    ]

-- `PrintCharacter` of a character of the font.
pub print_character-put :
    (c foreground background : ℕ) (s : Screen) (t : Terminal)
    → c < 128
    → Shows s t
    → Turns s t
        (print_character c foreground background s)
        (λ rows columns paper. put rows columns paper c foreground background)
unfolding print_character put
print_character-put c foreground background s t inside h =
    let d = s.settings in
    let (dots, found) = font-some c inside in
    let m = draw_glyph d dots foreground background s.memory in
    let drawn =
      Grid-draw_glyph d h.valid s.memory t.cells c foreground background dots found h.grid in
    rw (faultless d h.valid, found)
      (advance-next_cell (record s { memory = m })
        (record t {
          cells = λ i. if i == t.cursor then glyph c foreground background else t.cells i;
        })
        (record {
          valid = h.valid;
          no_porch = h.no_porch;
          grid =
              subst
                (λ k. Grid d m (λ i. if i == k then glyph c foreground background else t.cells i))
                (sym h.cursor) drawn;
          cursor = h.cursor;
        }))

last_test : (q r m : ℕ) → m ≡ r - 1 → leb m q ≡ true → ltb (q + 1) r ≡ false
last_test q r m e h = ground arith

more_test : (q r m : ℕ) → m ≡ r - 1 → leb m q ≡ false → ltb (q + 1) r ≡ true
more_test q r m e h = ground arith

-- The line feed of `PrintString`.
pub new_line-next_row : (s : Screen) (t : Terminal) → Shows s t → Turns s t (new_line s) next_row
unfolding new_line next_row
new_line-next_row s t h =
    let d = s.settings in
    let (last, rows, below) = no_wrap d h.valid in
    let (start, inside) = last_row-on_screen d h.valid in
    let q = t.cursor / col_size d in
    let same : d.index / col_size d ≡ q = ap (λ k. k / col_size d) (sym h.cursor) in
    elim (Bool-cases (leb (sub32 (row_size d) 1) q)) [
      | inl e ↦
          rw (faultless d h.valid, same, e, last_test q (row_size d) _ rows e)
            (scroll_to s t _ h (rw (mul_comm (col_size d) (sub32 (row_size d) 1)) start))
      | inr e ↦
          let free = more_test q (row_size d) _ rows e in
          let room : (q + 1) * col_size d < row_size d * col_size d =
            mul_lt (ltb→lt (q + 1) (row_size d) free) h.valid.columns in
          let next : (q + 1) * col_size d % 2 ^ 32 ≡ (q + 1) * col_size d =
            omega (arith, room, below) in
          rw (faultless d h.valid, same, e, free, next)
            (
              set_index s ((q + 1) * col_size d),
              refl,
              move_to s t ((q + 1) * col_size d) h room,
              refl,
            )
    ]
