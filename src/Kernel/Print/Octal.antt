-- ===== src/Kernel/Print/Octal.antt =====
-- `%o` of `PrintString` (src/kernel/graphics.c): its digits are divided out of the sign-extended value.
use pious_os.Base.{
  ℕ, ◌+◌, ◌-◌, ◌/◌, ◌%◌, ◌^◌, ◌≤◌, ◌<◌, ◌≡◌, refl, ap, ◌∙◌, ◌⊎◌, inl, inr, some, List, ◌∷◌, arith,
  lt→ltb, ge→ltb, for_range,
}
use native.Mathlib.Nat.{pow-le-pow_right}
use mathlib.Core.Path.{ap₂}
use native.Mathlib.Decide.{dec_le, dec_lt}
use pious_os.Kernel.Print.Number.{
  int, unsigned, print_places, print_number, print_unsigned, decimal_digit, int_octal, divisor,
}
use pious_os.Kernel.Print.Places.{HasPlaces, count_places_lem}
use pious_os.Kernel.Print.Numerals.{Prints, Digits-octal, print_number-Prints}
use pious_os.Kernel.Print.Conversions.{print_unsigned-Prints, print_number-cast, unsigned-unsigned}

-- A 32-bit value with the top bit set has eleven octal places.
eleven : (u n : ℕ) → 2 ^ 31 ≤ u → u < 2 ^ 32 → HasPlaces 8 u n → n ≡ 11
eleven u n lo hi h = ground (arith, h.leading, not_fewer, not_more)
  where
    not_fewer : 11 ≤ n
    not_fewer = elim (dec_le 11 n) [
      | yes p ↦ p
      | no p ↦ absurd (
          omega
            (arith, h.below, pow-le-pow_right {n = 8} (omega arith) {i = n} {j = 10} (omega arith)))
    ]

    not_more : n ≤ 11
    not_more = elim (dec_le n 11) [
      | yes p ↦ p
      | no p ↦ absurd (
          ground (
            arith,
            h.leading,
            pow-le-pow_right {n = 8} (omega arith) {i = 12} {j = n} (omega arith),
          ))
    ]

-- the text of such a value, whatever is divided
octal_text :
    (u seen : ℕ)
    → 2 ^ 31 ≤ u
    → u < 2 ^ 32
    → print_number decimal_digit 8 (unsigned int) u seen
      ≡ some (print_places decimal_digit 8 seen 11)
unfolding print_number
octal_text u seen lo hi =
    let (n, run, places) =
      count_places_lem (unsigned int) (2 ^ 32) 8 (λ v h. omega arith) (omega arith) 64 u 0 hi
        (omega arith) (omega arith) in
    rw (run ∙ ap some {y = 11} (omega (arith, eleven u n lo hi places)))

-- The sign extension adds 4 to the eleventh digit, and changes no other.
extended_digits :
    (u : ℕ)
    → 2 ^ 31 ≤ u
    → u < 2 ^ 32
    → print_places decimal_digit 8 (u + 2 ^ 64 - 2 ^ 32) 11
      ≡ (decimal_digit (u / 2 ^ 30 % 8) + 4) ∷ print_places decimal_digit 8 u 10
unfolding print_places divisor for_range
extended_digits u lo hi = ap₂ ◌∷◌ (omega arith) (
    ap₂ ◌∷◌ (omega arith) (
      ap₂ ◌∷◌ (omega arith) (
        ap₂ ◌∷◌ (omega arith) (
          ap₂ ◌∷◌ (omega arith) (
            ap₂ ◌∷◌ (omega arith) (
              ap₂ ◌∷◌ (omega arith) (
                ap₂ ◌∷◌ (omega arith) (
                  ap₂ ◌∷◌ (omega arith) (ap₂ ◌∷◌ (omega arith) (ap₂ ◌∷◌ (omega arith) refl))))))))))

leading_place :
    (u : ℕ)
    → print_places decimal_digit 8 u 11
      ≡ decimal_digit (u / 2 ^ 30 % 8) ∷ print_places decimal_digit 8 u 10
unfolding print_places divisor for_range
leading_place u = refl

-- An `unsigned int` below 2 ^ 31 is printed by `%o` to the base 8.
int_octal_small : (v : ℕ) → v % 2 ^ 32 < 2 ^ 31 → Prints 8 (v % 2 ^ 32) (int_octal v)
unfolding int_octal
int_octal_small v h = rw (lt→ltb (v % 2 ^ 32) (2 ^ 31) h) (
    print_number-Prints decimal_digit 8 (unsigned int) (2 ^ 32) (v % 2 ^ 32) Digits-octal
      (λ u k. omega arith) (omega arith) (omega arith))

-- From 2 ^ 31 on `%o` prints the octal digits with the leading one 4 too large.
int_octal_wrong :
    (v : ℕ)
    → 2 ^ 31 ≤ v % 2 ^ 32
    → (digit : ℕ) × (rest : List ℕ) × (print_unsigned decimal_digit 8 int v ≡ some (digit ∷ rest))
      × (int_octal v ≡ some ((digit + 4) ∷ rest))
unfolding int_octal print_unsigned
int_octal_wrong v h =
    let u : ℕ = v % 2 ^ 32 in
    let cut = print_number-cast decimal_digit 8 (unsigned int) v u u (unsigned-unsigned int v) in
    let hi : u < 2 ^ 32 = omega arith in
    (
      decimal_digit (u / 2 ^ 30 % 8),
      print_places decimal_digit 8 u 10,
      cut ∙ octal_text u u h hi ∙ ap some (leading_place u),
      rw (ge→ltb u (2 ^ 31) h)
          (octal_text u (u + 2 ^ 64 - 2 ^ 32) h hi ∙ ap some (extended_digits u h hi)),
    )

-- `%o` prints an argument below 2 ^ 31 to the base 8, and any other with its leading digit 4 too large.
pub int_octal_lem :
    (v : ℕ)
    → ((v % 2 ^ 32 < 2 ^ 31) × Prints 8 (v % 2 ^ 32) (int_octal v))
      ⊎ ((2 ^ 31 ≤ v % 2 ^ 32)
          × ((digit : ℕ) × (rest : List ℕ) × (print_unsigned decimal_digit 8 int v
                ≡ some (digit ∷ rest))
              × (int_octal v ≡ some ((digit + 4) ∷ rest))
              × Prints 8 (v % 2 ^ 32) (print_unsigned decimal_digit 8 int v)))
int_octal_lem v = elim (dec_lt (v % 2 ^ 32) (2 ^ 31)) [
  | yes p ↦ inl (p, int_octal_small v p)
  | no p ↦
      let h : 2 ^ 31 ≤ v % 2 ^ 32 = omega arith in
      let (digit, rest, right, wrong) = int_octal_wrong v h in
      inr (h, (digit, rest, right, wrong, print_unsigned-Prints decimal_digit 8 int v Digits-octal))
]
