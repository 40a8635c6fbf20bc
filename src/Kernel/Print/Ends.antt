-- ===== src/Kernel/Print/Ends.antt =====
-- The loop of `PrintString` (src/kernel/graphics.c) ends by itself.
use pious_os.Base.{ℕ, ◌≡◌, Option, none, some, List, [], ◌∷◌}
use pious_os.Kernel.Graphics.Screen.{Screen}
use pious_os.Kernel.Print.Format.{Floats, VaList, Action, round, perform}

-- `while(*str != '\0')` without fuel: the rounds that lead from a format, its arguments and a screen to a result,
-- which is `none` only if the last of them faults.
pub data Rounds (F : Floats) (foreground background : ℕ)
    : List ℕ → VaList F → Screen → Option Screen → Type 0 where
  at_end : (args : VaList F) (s : Screen) → Rounds F foreground background [] args s (some s)
  bad_round :
      (c : ℕ) (str : List ℕ) (args : VaList F) (s : Screen)
      → round F c str args ≡ none
      → Rounds F foreground background (c ∷ str) args s none
  bad_action :
      (c : ℕ) (str : List ℕ) (args : VaList F) (s : Screen) (act : Action) (str' : List ℕ)
      (args' : VaList F)
      → round F c str args ≡ some (act, str', args')
      → perform foreground background act s ≡ none
      → Rounds F foreground background (c ∷ str) args s none
  next_round :
      (c : ℕ) (str : List ℕ) (args : VaList F) (s : Screen) (act : Action) (str' : List ℕ)
      (args' : VaList F) (t : Screen) (r : Option Screen)
      → round F c str args ≡ some (act, str', args')
      → perform foreground background act s ≡ some t
      → Rounds F foreground background str' args' t r
      → Rounds F foreground background (c ∷ str) args s r
