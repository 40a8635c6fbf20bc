-- ===== src/Kernel/Print/Loop.antt =====
-- The loop of `PrintString` (src/kernel/graphics.c): its fuel, the actions that a format stands for, and
-- the screen that they leave.
use pious_os.Base.{
  ℕ, zero, suc, ◌≤◌, ◌<◌, ◌≡◌, refl, sym, false, Option, none, some, List, [], ◌∷◌, ◌==◌, ◌>>=◌,
  arith, length, All, bind-eq-some,
}
use mathlib.Core.Path.{subst}
use mathlib.Core.Option.{some-injective}
use pious_os.Kernel.Graphics.Screen.{Screen, cell}
use pious_os.Kernel.Graphics.Cursor.{
  IsValid, Keeps, Moved-trans, print_character-Keeps, new_line-Keeps,
}
use pious_os.Kernel.Print.Format.{
  Action, text, feed, Floats, VaList, Round, round, prefixed, directive, long_conversion,
  short_conversion, conversion, print_characters, perform, print_loop, print_string,
  count_arguments,
}

-- Runs one after the other keep what each keeps.
pub Keeps-bind :
    (s : Screen) (r : Option Screen) (f : Screen → Option Screen)
    → Keeps s r
    → ((t : Screen) → IsValid t.settings → Keeps t (f t))
    → Keeps s (r >>= f)
Keeps-bind s r f (t, run, v, e) k =
    let (u, run', v', e') = k t v in
    (u, rw run run', v', Moved-trans s.settings t.settings u.settings e e')

-- the characters that the font has
abbrev pub Printable : Action → Type 0
Printable (text cs) = All (λ c. c < 128) cs
Printable feed = Unit

print_characters-Keeps :
    (foreground background : ℕ) (cs : List ℕ) (s : Screen)
    → All (λ c. c < 128) cs
    → IsValid s.settings
    → Keeps s (print_characters foreground background cs s)
unfolding print_characters
print_characters-Keeps foreground background [] s a v = (s, refl, v, refl)
print_characters-Keeps foreground background (c ∷ cs) s (h, a) v =
    Keeps-bind s _ _ (print_character-Keeps c foreground background s h v)
      (λ t. print_characters-Keeps foreground background cs t a)

perform-Keeps :
    (foreground background : ℕ) (act : Action) (s : Screen)
    → Printable act
    → IsValid s.settings
    → Keeps s (perform foreground background act s)
unfolding perform
perform-Keeps foreground background (text cs) s p v =
    print_characters-Keeps foreground background cs s p v
perform-Keeps foreground background feed s p v = new_line-Keeps s v

module _ (F : Floats) where
  -- The actions of a format with its arguments: the loop without the screen.
  unfoldable pub expand : ℕ → List ℕ → VaList F → Option (List Action)
  expand fuel [] args = some []
  expand zero (c ∷ str) args = none
  expand (suc fuel) (c ∷ str) args = do
    (act, str', args') ← round F c str args
    acts ← expand fuel str' args'
    some (act ∷ acts)

  print_loop-Keeps :
      (fuel foreground background : ℕ) (str : List ℕ) (args : VaList F) (acts : List Action)
      (s : Screen)
      → expand fuel str args ≡ some acts
      → All Printable acts
      → IsValid s.settings
      → Keeps s (print_loop F fuel foreground background str args s)
  unfolding expand print_loop
  print_loop-Keeps fuel foreground background [] args acts s e p v = (s, refl, v, refl)
  print_loop-Keeps zero foreground background (c ∷ str) args acts s e p v = absurd (cc)
  print_loop-Keeps (suc fuel) foreground background (c ∷ str) args acts s e p v =
      let ((act, str', args'), run, e') = bind-eq-some (round F c str args) _ e in
      let (rest, run', e'') = bind-eq-some (expand fuel str' args') _ e' in
      let (first, later) = subst (All Printable) (sym (some-injective _ _ e'')) p in
      rw run (
        Keeps-bind s _ _ (perform-Keeps foreground background act s first v)
          (λ t. print_loop-Keeps fuel foreground background str' args' rest t run' later))

  -- On a valid display, with a format whose first pass stays inside it and whose actions are drawn with
  -- the font's characters, `PrintString` returns, the cursor is on the screen, and no other setting has
  -- changed.
  pub print_string-Keeps :
      (foreground background : ℕ) (str : List ℕ) (args : VaList F) {n : ℕ} {acts : List Action}
      (s : Screen)
      → count_arguments str 0 ≡ some n
      → expand (length str) str args ≡ some acts
      → All Printable acts
      → IsValid s.settings
      → Keeps s (print_string F str foreground background args s)
  unfolding print_string
  print_string-Keeps foreground background str args {acts = acts} s counted e p v =
      let sized : (cell s.settings == 0) ≡ false = ground (arith, v.scaled) in
      rw (counted, sized)
        (print_loop-Keeps (length str) foreground background str args acts s e p v)

  -- a round takes at least the byte that it is at
  prefixed-shorter :
      (conv : ℕ → VaList F → Option (List ℕ × VaList F)) (str : List ℕ) (args : VaList F)
      {r : Round F}
      → prefixed F conv str args ≡ some r
      → length r.1 ≤ length str
  unfolding prefixed
  prefixed-shorter conv [] args e = absurd (cc)
  prefixed-shorter conv (c ∷ str) args e = ground (arith)

  directive-shorter :
      (str : List ℕ) (args : VaList F) {r : Round F}
      → directive F str args ≡ some r
      → length r.1 ≤ length str
  unfolding directive
  directive-shorter [] args e = absurd (cc)
  directive-shorter (c ∷ str) args {r} e = ground (
    arith,
    prefixed-shorter (long_conversion F) str args {r = r},
    prefixed-shorter (short_conversion F) str args {r = r},
    prefixed-shorter (conversion F) (c ∷ str) args {r = r},
  )

  pub round-shorter :
      (c : ℕ) (str : List ℕ) (args : VaList F) {r : Round F}
      → round F c str args ≡ some r
      → length r.1 ≤ length str
  unfolding round
  round-shorter c str args {r} e = ground (arith, directive-shorter str args {r = r})
