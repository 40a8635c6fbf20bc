-- ===== src/Kernel/Terminal.antt =====
-- A text terminal, which the display of src/kernel/graphics.c is compared with: cells in rows, a cursor, and
-- scrolling by a row.
use pious_os.Base.{ℕ, ◌+◌, ◌-◌, ◌*◌, ◌/◌, ltb, ◌==◌, if◌then◌else◌, List, [], ◌∷◌}
use pious_os.Kernel.Print.Format.{Action, text, feed}
pub mod Shown
pub mod Drawn
pub mod Typed
pub mod Printed
pub mod Started

-- A cell of one colour, or a character of the font in two.
pub data Cell : Type 0 where
  blank : ℕ → Cell
  glyph : ℕ → ℕ → ℕ → Cell

-- The cells are counted row by row.
pub record Terminal : Type 0 where
  pub cells : ℕ → Cell
  pub cursor : ℕ

-- `paper` is the colour of the cells that come in.
module _ (rows columns paper : ℕ) where
  unfoldable pub scrolled : (ℕ → Cell) → ℕ → Cell
  scrolled cells i = if ltb (i + columns) (rows * columns) then cells (i + columns) else blank paper

  unfoldable pub last_row : Terminal → Terminal
  last_row t = record { cells = scrolled t.cells; cursor = (rows - 1) * columns }

  -- the cursor behind a character
  unfoldable pub next_cell : Terminal → Terminal
  next_cell t =
      if t.cursor + 1 == rows * columns then last_row t else record t { cursor = t.cursor + 1 }

  unfoldable pub next_row : Terminal → Terminal
  next_row t =
      if ltb (t.cursor / columns + 1) rows
      then record t { cursor = (t.cursor / columns + 1) * columns }
      else last_row t

  unfoldable pub put : ℕ → ℕ → ℕ → Terminal → Terminal
  put c foreground background t =
      next_cell (record t {
        cells = λ i. if i == t.cursor then glyph c foreground background else t.cells i;
      })

  unfoldable pub write : ℕ → ℕ → List ℕ → Terminal → Terminal
  write foreground background [] t = t
  write foreground background (c ∷ cs) t =
      write foreground background cs (put c foreground background t)

  -- an action of `PrintString`, and those of a format
  unfoldable pub do_action : ℕ → ℕ → Action → Terminal → Terminal
  do_action foreground background (text cs) t = write foreground background cs t
  do_action foreground background feed t = next_row t

  unfoldable pub type_actions : ℕ → ℕ → List Action → Terminal → Terminal
  type_actions foreground background [] t = t
  type_actions foreground background (act ∷ acts) t =
      type_actions foreground background acts (do_action foreground background act t)
