-- ===== src/Base/Loops.antt =====
-- The counting loop `for(k = first; k < first + rounds; k++)`, and the rule for its invariants.
use Prim.Native.Nat.{ℕ, zero, suc, ◌+◌, ◌≤◌, ◌<◌}
use mathlib.Core.Path.{◌≡◌, subst}
use native.Mathlib.Omega.{arith}

unfoldable pub for_range {ℓ} : {State : Type ℓ} → ℕ → ℕ → (ℕ → State → State) → State → State
for_range zero first step state = state
for_range (suc rounds) first step state = for_range rounds (first + 1) step (step first state)

module _ {ℓ κ} {State : Type ℓ} (Holds : ℕ → State → Type κ) (step : ℕ → State → State) where
  -- The step is only asked to keep the invariant inside the loop's bounds.
  pub for_range_inv :
      (last rounds first : ℕ) (state : State)
      → first + rounds ≡ last
      → ((at : ℕ) (now : State)
          → first ≤ at
          → at < last
          → Holds at now
          → Holds (at + 1) (step at now))
      → Holds first state
      → Holds last (for_range rounds first step state)
  unfolding for_range
  for_range_inv last zero first state ends holds-step start =
      subst (λ at. Holds at state) (omega arith) start
  for_range_inv last (suc rounds) first state ends holds-step start =
      for_range_inv last rounds (first + 1) (step first state) (omega arith)
        (λ at now above. holds-step at now (omega arith))
        (holds-step first state (omega arith) (omega arith) start)
