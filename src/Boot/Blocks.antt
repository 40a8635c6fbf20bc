-- ===== src/Boot/Blocks.antt =====
-- `Compare` and `VerifyZeroMem` of src/bootloader/boot.c.
use pious_os.Base.{
  ℕ, zero, suc, ◌+◌, ◌%◌, ◌^◌, ◌≤◌, ◌<◌, ◌≡◌, refl, ◌↔◌, ◌⊎◌, inl, inr, ◌==◌, arith, Bool-cases,
  ==_iff,
}
use pious_os.Boot.Search.{compare_from, compare, verify_zero_from, verify_zero_mem}

module _ (m : ℕ → ℕ) where
  -- the bytes from `i` on, `n` of them, are the same
  compare_from_lem :
      (one two n i : ℕ)
      → ((compare_from m one two n i ≡ 1)
          ↔ ((k : ℕ) → i ≤ k → k < i + n → m ((one + k) % 2 ^ 64) ≡ m ((two + k) % 2 ^ 64)))
        × ((compare_from m one two n i ≡ 0) ⊎ (compare_from m one two n i ≡ 1))
  unfolding compare_from
  compare_from_lem one two zero i = ((λ e k lo hi. absurd (omega arith), λ f. refl), inr refl)
  compare_from_lem one two (suc n) i =
      let ((to, from), either) = compare_from_lem one two n (i + 1) in
      elim (Bool-cases (m ((one + i) % 2 ^ 64) == m ((two + i) % 2 ^ 64))) [
        | inl e ↦ rw e (
          (
            λ r k lo hi. elim (Bool-cases (k == i)) [
              | inl here ↦ rw ((==_iff k i).0 here) ((==_iff _ _).0 e)
              | inr there ↦ to r k (ground arith) (omega arith)
            ],
            λ f. from (λ k lo hi. f k (omega arith) (omega arith)),
          ),
          either,
        )
        | inr e ↦ rw e (
          (
            λ r. absurd (omega arith),
            λ f. absurd (ground (arith, f i (omega arith) (omega arith))),
          ),
          inl refl,
        )
      ]

  verify_zero_from_lem :
      (base n i : ℕ)
      → ((verify_zero_from m base n i ≡ 0)
          ↔ ((k : ℕ) → i ≤ k → k < i + n → m ((base + k) % 2 ^ 64) ≡ 0))
        × ((verify_zero_from m base n i ≡ 0) ⊎ (verify_zero_from m base n i ≡ 1))
  unfolding verify_zero_from
  verify_zero_from_lem base zero i = ((λ e k lo hi. absurd (omega arith), λ f. refl), inl refl)
  verify_zero_from_lem base (suc n) i =
      let ((to, from), either) = verify_zero_from_lem base n (i + 1) in
      elim (Bool-cases (m ((base + i) % 2 ^ 64) == 0)) [
        | inl e ↦ rw e (
          (
            λ r k lo hi. elim (Bool-cases (k == i)) [
              | inl here ↦ rw ((==_iff k i).0 here) ((==_iff _ _).0 e)
              | inr there ↦ to r k (ground arith) (omega arith)
            ],
            λ f. from (λ k lo hi. f k (omega arith) (omega arith)),
          ),
          either,
        )
        | inr e ↦ rw e (
          (
            λ r. absurd (omega arith),
            λ f. absurd (ground (arith, f i (omega arith) (omega arith))),
          ),
          inr refl,
        )
      ]

  -- `Compare` returns 1 or 0, and 1 exactly where the blocks have the same bytes. Addresses are modulo 2 ^ 64.
  pub compare_lem :
      (one two n : ℕ)
      → ((compare m one two n ≡ 1)
          ↔ ((k : ℕ) → k < n → m ((one + k) % 2 ^ 64) ≡ m ((two + k) % 2 ^ 64)))
        × ((compare m one two n ≡ 0) ⊎ (compare m one two n ≡ 1))
  unfolding compare
  compare_lem one two n =
      let ((to, from), either) = compare_from_lem one two n 0 in
      (
        (λ r k h. to r k (omega arith) (omega arith), λ f. from (λ k lo hi. f k (omega arith))),
        either,
      )

  -- `VerifyZeroMem` returns 0 or 1, and 0 exactly where all bytes of the block are 0. Addresses are modulo
  -- 2 ^ 64.
  pub verify_zero_mem_lem :
      (n base : ℕ)
      → ((verify_zero_mem m n base ≡ 0) ↔ ((k : ℕ) → k < n → m ((base + k) % 2 ^ 64) ≡ 0))
        × ((verify_zero_mem m n base ≡ 0) ⊎ (verify_zero_mem m n base ≡ 1))
  unfolding verify_zero_mem
  verify_zero_mem_lem n base =
      let ((to, from), either) = verify_zero_from_lem base n 0 in
      (
        (λ r k h. to r k (omega arith) (omega arith), λ f. from (λ k lo hi. f k (omega arith))),
        either,
      )
