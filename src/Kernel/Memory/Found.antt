-- ===== src/Kernel/Memory/Found.antt =====
-- The "Pages found" lines of src/kernel/memory.c: `%d` prints every count of pages with the font's
-- characters, so the line neither faults nor loses the cursor.
use pious_os.Base.{ℕ, ◌≡◌, refl, some, List, [], ◌∷◌, arith, length}
use pious_os.Kernel.Graphics.Screen.{Screen}
use pious_os.Kernel.Graphics.Cursor.{IsValid, Keeps}
use pious_os.Kernel.Print.Number.{int_signed}
use pious_os.Kernel.Print.Format.{
  Floats, Action, text, feed, round, directive, prefixed, conversion, with_word, count_arguments,
  takes_argument,
}
use pious_os.Kernel.Print.Loop.{expand}
use pious_os.Kernel.Print.Texts.{letters, print_string-line}
use pious_os.Kernel.Print.Characters.{int_signed-Drawn}
use pious_os.Kernel.Memory.Map.{print_pages_found, pages_found_text}

-- "Pages found: "
abbrev found_letters : List ℕ
found_letters =
    b'P' ∷ b'a' ∷ b'g' ∷ b'e' ∷ b's' ∷ b' ' ∷ b'f' ∷ b'o' ∷ b'u' ∷ b'n' ∷ b'd' ∷ b':' ∷ b' ' ∷ []

-- the number's text, and the line feed
abbrev found_actions : List ℕ → List Action
found_actions cs = letters found_letters (text cs ∷ feed ∷ [])

expand-pages_found :
    (F : Floats) (v : ℕ) (cs : List ℕ)
    → int_signed v ≡ some cs
    → expand F (length pages_found_text) pages_found_text (record { words = v ∷ []; reals = [] })
      ≡ some (found_actions cs)
unfolding expand round directive prefixed conversion with_word
expand-pages_found F v cs run = rw run refl

counted-pages_found : count_arguments pages_found_text 0 ≡ some 1
unfolding count_arguments takes_argument
counted-pages_found = refl

-- The line "Pages found" is printed for every number of pages.
pub print_pages_found-Keeps :
    (F : Floats) (v : ℕ) (s : Screen) → IsValid s.settings → Keeps s (print_pages_found F v s)
unfolding print_pages_found
print_pages_found-Keeps F v s valid =
    let (cs, run, drawn) = int_signed-Drawn v in
    print_string-line F pages_found_text found_letters s.settings.font_color
      s.settings.background_color v cs s counted-pages_found (expand-pages_found F v cs run)
      (omega arith) drawn valid
