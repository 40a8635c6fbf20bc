-- ===== src/Kernel/Terminal/Printed.antt =====
-- `PrintString` of src/kernel/graphics.c types the actions of its format on the terminal.
use pious_os.Base.{
  ℕ, zero, suc, ◌<◌, ◌≡◌, refl, sym, false, Option, some, List, [], ◌∷◌, ◌==◌, ◌>>=◌, arith, length,
  All, bind-eq-some,
}
use mathlib.Core.Path.{subst}
use mathlib.Core.Option.{some-injective}
use pious_os.Kernel.Graphics.Screen.{Screen, cell, row_size, col_size, print_character}
use pious_os.Kernel.Graphics.Cursor.{Moved-trans}
use pious_os.Kernel.Print.Format.{
  Action, text, feed, Floats, VaList, round, print_characters, perform, print_loop, print_string,
  count_arguments,
}
use pious_os.Kernel.Print.Loop.{Printable, expand}
use pious_os.Kernel.Terminal.{Terminal, put, write, do_action, type_actions}
use pious_os.Kernel.Terminal.Typed.{Shows, Turns, print_character-put, new_line-next_row}

-- One run behind the other.
Turns-seq :
    (s : Screen) (t : Terminal) (r : Option Screen) (k : Screen → Option Screen)
    (f g : ℕ → ℕ → ℕ → Terminal → Terminal)
    → Turns s t r f
    → ((s' : Screen) (t' : Terminal) → Shows s' t' → Turns s' t' (k s') g)
    → Turns s t (r >>= k) (λ rows columns paper u. g rows columns paper (f rows columns paper u))
unfolding row_size col_size
Turns-seq s t r k f g (s1, run, h, moved) next =
    let (s2, run', h', moved') =
      next s1 (f (row_size s.settings) (col_size s.settings) s.settings.background_color t) h in
    let after = f (row_size s.settings) (col_size s.settings) s.settings.background_color t in
    (
      s2,
      rw run run',
      subst (λ d. Shows s2 (g (row_size d) (col_size d) d.background_color after)) moved h',
      Moved-trans s.settings s1.settings s2.settings moved moved',
    )

print_characters-write :
    (foreground background : ℕ) (cs : List ℕ) (s : Screen) (t : Terminal)
    → All (λ c. c < 128) cs
    → Shows s t
    → Turns s t
        (print_characters foreground background cs s)
        (λ rows columns paper. write rows columns paper foreground background cs)
unfolding print_characters write
print_characters-write foreground background [] s t a h = (s, refl, h, refl)
print_characters-write foreground background (c ∷ cs) s t (inside, a) h =
    Turns-seq s t (print_character c foreground background s) _
      (λ rows columns paper. put rows columns paper c foreground background)
      (λ rows columns paper. write rows columns paper foreground background cs)
      (print_character-put c foreground background s t inside h)
      (λ s' t' h'. print_characters-write foreground background cs s' t' a h')

perform-do_action :
    (foreground background : ℕ) (act : Action) (s : Screen) (t : Terminal)
    → Printable act
    → Shows s t
    → Turns s t
        (perform foreground background act s)
        (λ rows columns paper. do_action rows columns paper foreground background act)
unfolding perform do_action
perform-do_action foreground background (text cs) s t p h =
    print_characters-write foreground background cs s t p h
perform-do_action foreground background feed s t p h = new_line-next_row s t h

module _ (F : Floats) (foreground background : ℕ) where
  -- the terminal after the actions
  abbrev pub types : List Action → ℕ → ℕ → ℕ → Terminal → Terminal
  types acts rows columns paper = type_actions rows columns paper foreground background acts

  print_loop-type_actions :
      (fuel : ℕ) (str : List ℕ) (args : VaList F) (acts : List Action) (s : Screen) (t : Terminal)
      → expand F fuel str args ≡ some acts
      → All Printable acts
      → Shows s t
      → Turns s t (print_loop F fuel foreground background str args s) (types acts)
  unfolding expand print_loop type_actions
  print_loop-type_actions fuel [] args acts s t e p h =
      subst (λ a. Turns s t (some s) (types a)) (some-injective _ _ e) (s, refl, h, refl)
  print_loop-type_actions zero (c ∷ str) args acts s t e p h = absurd (cc)
  print_loop-type_actions (suc fuel) (c ∷ str) args acts s t e p h =
      let ((act, str', args'), run, e') = bind-eq-some (round F c str args) _ e in
      let (rest, run', e'') = bind-eq-some (expand F fuel str' args') _ e' in
      let joined = some-injective _ _ e'' in
      let (first, later) = subst (All Printable) (sym joined) p in
      subst
        (λ a. Turns s t (print_loop F (suc fuel) foreground background (c ∷ str) args s) (types a))
        joined
        (rw run (
          Turns-seq s t (perform foreground background act s)
            (print_loop F fuel foreground background str' args')
            (λ rows columns paper. do_action rows columns paper foreground background act)
            (types rest) (perform-do_action foreground background act s t first h)
            (λ s' t' h'. print_loop-type_actions fuel str' args' rest s' t' run' later h')))

  -- `PrintString` refines the terminal: on a valid display without a back porch that shows a terminal, it
  -- returns, and the display then shows the terminal after the actions of the format; only the cursor of the
  -- settings has moved. The first pass stays inside the format, and the font has the characters.
  pub print_string-type_actions :
      (str : List ℕ) (args : VaList F) (n : ℕ) (acts : List Action) (s : Screen) (t : Terminal)
      → count_arguments str 0 ≡ some n
      → expand F (length str) str args ≡ some acts
      → All Printable acts
      → Shows s t
      → Turns s t (print_string F str foreground background args s) (types acts)
  unfolding print_string
  print_string-type_actions str args n acts s t counted e p h =
      let sized : (cell s.settings == 0) ≡ false = ground (arith, h.valid.scaled) in
      rw (counted, sized) (print_loop-type_actions (length str) str args acts s t e p h)
