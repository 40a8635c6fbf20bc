-- ===== src/Kernel/Print/Texts.antt =====
-- Plain texts as actions of `PrintString` (src/kernel/graphics.c).
use pious_os.Base.{ℕ, ◌<◌, ◌≡◌, some, List, [], ◌∷◌, All, length}
use pious_os.Kernel.Graphics.Screen.{Screen}
use pious_os.Kernel.Graphics.Cursor.{IsValid, Keeps}
use pious_os.Kernel.Print.Format.{Floats, Action, text, feed, count_arguments, print_string}
use pious_os.Kernel.Print.Loop.{Printable, expand, print_string-Keeps}

-- the font has the character
abbrev pub Drawn : List ℕ → Type 0
Drawn cs = All (λ c. c < 128) cs

-- one action for each character
abbrev pub letters : List ℕ → List Action → List Action
letters [] acts = acts
letters (c ∷ cs) acts = text (c ∷ []) ∷ letters cs acts

pub letters-Printable :
    (cs : List ℕ) (acts : List Action)
    → Drawn cs
    → All Printable acts
    → All Printable (letters cs acts)
letters-Printable [] acts d p = p
letters-Printable (c ∷ cs) acts (h, d) p = ((h, tt), letters-Printable cs acts d p)

-- A line of `PrintString`: a text, one number, and the line feed.
pub print_string-line :
    (F : Floats) (format label : List ℕ) (foreground background v : ℕ) (cs : List ℕ) {n : ℕ}
    (s : Screen)
    → count_arguments format 0 ≡ some n
    → expand F (length format) format (record { words = v ∷ []; reals = [] })
      ≡ some (letters label (text cs ∷ feed ∷ []))
    → Drawn label
    → Drawn cs
    → IsValid s.settings
    → Keeps s
        (print_string F format foreground background (record { words = v ∷ []; reals = [] }) s)
print_string-line F format label foreground background v cs s counted run d e valid =
    print_string-Keeps F foreground background format (record { words = v ∷ []; reals = [] })
      {acts = letters label (text cs ∷ feed ∷ [])} s counted run
      (letters-Printable label (text cs ∷ feed ∷ []) d (e, (tt, tt))) valid
