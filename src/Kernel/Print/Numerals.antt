-- ===== src/Kernel/Print/Numerals.antt =====
-- What the numeric conversions of `PrintString` (src/kernel/graphics.c) print.
use pious_os.Base.{
  ℕ, zero, suc, ◌+◌, ◌-◌, ◌*◌, ◌%◌, ◌^◌, ◌≤◌, ◌<◌, ◌≡◌, refl, ap, ◌∙◌, ◌⊎◌, inl, inr, Option, some,
  false, List, [], ◌∷◌, ltb, ◌==◌, if◌then◌else◌, arith, length,
}
use native.Mathlib.Nat.{pow-zero, mod-eq_of_lt}
use pious_os.Kernel.Print.Number.{
  Width, short, int, long, unsigned, print_places, print_number, decimal_digit, lower_digit,
  upper_digit,
}
use pious_os.Kernel.Print.Places.{
  HasPlaces, count_places_lem, read_digits, read_digits-print_places,
}

-- the value of a digit in ASCII, of either case
abbrev pub digit_value : ℕ → ℕ
digit_value c = if ltb c 58 then c - 48 else if ltb c 97 then c - 55 else c - 87

-- The text reads back as the value to the base, and has no leading zero: a text of more than one digit
-- stands for at least `base ^ (length - 1)`.
pub record IsNumeral (base v : ℕ) (text : List ℕ) : Type 0 where
  pub reads : read_digits digit_value base 0 text ≡ v
  pub shortest : (length text ≡ 1) ⊎ (base ^ length text ≤ v * base)

-- The conversion succeeds, with a numeral for `v`.
abbrev pub Prints : ℕ → ℕ → Option (List ℕ) → Type 0
Prints base v r = (text : List ℕ) × (r ≡ some text) × IsNumeral base v text

length-print_places : (digit : ℕ → ℕ) (b v n : ℕ) → length (print_places digit b v n) ≡ n
unfolding print_places
length-print_places digit b v zero = refl
length-print_places digit b v (suc n) = ap suc (length-print_places digit b v n)

-- The digits of a base, and that they are told apart by `digit_value`.
pub record Digits (digit : ℕ → ℕ) (base : ℕ) : Type 0 where
  pub two_or_more : 2 ≤ base
  pub inverse : (p : ℕ) → p < base → digit_value (digit p) ≡ p

IsNumeral-zero : (base v : ℕ) → v ≡ 0 → IsNumeral base v (48 ∷ [])
unfolding read_digits
IsNumeral-zero base v e = record { reads = omega arith; shortest = inl refl }

exact_mod : (v p : ℕ) → v < p → 0 * p + v % p ≡ v
exact_mod v p h = rw (mod-eq_of_lt h) (omega arith)

room : {x y t : ℕ} (b : ℕ) → 0 < b → x ≤ y * b → y < t → x < b * t
room b pos h k = grind arith

pub print_number-Prints :
    (digit : ℕ → ℕ) (base : ℕ) (cast : ℕ → ℕ) (bound v : ℕ)
    → Digits digit base
    → ((u : ℕ) → u < bound → cast u ≡ u)
    → v < bound
    → v < 2 ^ 64
    → Prints base v (print_number digit base cast v v)
unfolding print_number
print_number-Prints digit base cast bound v d same vb v64 =
    let (n, run, places) =
      count_places_lem cast bound base same d.two_or_more 64 v 0 vb v64 (omega arith) in
    rw (run ∙ ap some {y = n} (omega arith)) (from_places n places)
  where
    nonzero : (n : ℕ) → (suc n == 0) ≡ false
    nonzero n = ground arith

    from_places :
        (n : ℕ)
        → HasPlaces base v n
        → Prints base v (some (if n == 0 then 48 ∷ [] else print_places digit base v n))
    from_places zero p =
        (48 ∷ [], refl, IsNumeral-zero base v (omega (arith, p.below, pow-zero base)))
    from_places (suc n) p =
        let l : base ^ suc n ≤ v * base = ground (arith, p.leading) in
        (
          print_places digit base v (suc n),
          rw (nonzero n) refl,
          record {
            reads =
                read_digits-print_places digit digit_value base (omega (arith, d.two_or_more))
                  d.inverse (suc n) v 0 (room base (omega (arith, d.two_or_more)) l v64)
                ∙ exact_mod v (base ^ suc n) p.below;
            shortest = inr (rw (length-print_places digit base v (suc n)) l);
          },
        )

pub Digits-decimal : Digits decimal_digit 10
Digits-decimal = record { two_or_more = omega arith; inverse = λ p h. ground arith }

pub Digits-octal : Digits decimal_digit 8
Digits-octal = record { two_or_more = omega arith; inverse = λ p h. ground arith }

pub Digits-lower : Digits lower_digit 16
Digits-lower = record { two_or_more = omega arith; inverse = λ p h. ground arith }

pub Digits-upper : Digits upper_digit 16
Digits-upper = record { two_or_more = omega arith; inverse = λ p h. ground arith }

pub unsigned-lt : (w : Width) (v : ℕ) → unsigned w v < 2 ^ 64
unsigned-lt short v = omega arith
unsigned-lt int v = omega arith
unsigned-lt long v = omega arith
