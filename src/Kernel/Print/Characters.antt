-- ===== src/Kernel/Print/Characters.antt =====
-- The characters of `%d`, `%lX` and `%lu` in `PrintString` (src/kernel/graphics.c) are in the font.
use pious_os.Base.{
  ℕ, zero, suc, ◌/◌, ◌%◌, ◌<◌, ◌≡◌, inl, inr, Bool, true, false, some, List, [], ◌∷◌, ◌==◌, ltb,
  if◌then◌else◌, ◌>>=◌, arith, Bool-cases, bind-eq-some, ==_iff,
}
use mathlib.Core.Path.{subst}
use mathlib.Core.Option.{some-injective}
use pious_os.Kernel.Print.Number.{
  Width, int, positive, print_places, print_number, print_signed, print_unsigned, count_places,
  decimal_digit, upper_digit, int_signed, least_text, unsigned, half_range, negated, long_hex_upper,
  long_unsigned, divisor,
}
use pious_os.Kernel.Print.Conversions.{
  signed_conversions, least_prints_minus_zero, unsigned_conversions,
}
use pious_os.Kernel.Print.Texts.{Drawn}

-- the font has the digits of a base
Visible : (ℕ → ℕ) → ℕ → Type 0
Visible digit base = (p : ℕ) → digit (p % base) < 128

print_places-Drawn :
    (digit : ℕ → ℕ) (base : ℕ)
    → Visible digit base
    → (v n : ℕ) → Drawn (print_places digit base v n)
unfolding print_places Visible
print_places-Drawn digit base d v zero = tt
print_places-Drawn digit base d v (suc n) =
    (d (v / divisor base (suc n)), print_places-Drawn digit base d v n)

choice : (b : Bool) (xs ys : List ℕ) → Drawn xs → Drawn ys → Drawn (if b then xs else ys)
choice true xs ys p q = p
choice false xs ys p q = q

print_number-Drawn :
    (digit : ℕ → ℕ) (base : ℕ) (cast : ℕ → ℕ) (v seen : ℕ) {cs : List ℕ}
    → Visible digit base
    → print_number digit base cast v seen ≡ some cs
    → Drawn cs
unfolding print_number
print_number-Drawn digit base cast v seen d e =
    let (n, run, e') = bind-eq-some (count_places 65 cast base v 0) _ e in
    subst Drawn (some-injective _ _ e')
      (choice (n == 0) (48 ∷ []) _ (omega arith, tt) (print_places-Drawn digit base d seen n))

decimal-Visible : Visible decimal_digit 10
unfolding Visible
decimal-Visible p = omega arith

upper-Visible : Visible upper_digit 16
unfolding Visible
upper-Visible p = ground arith

print_signed-Drawn :
    (w : Width) (least : List ℕ) (v : ℕ) {cs : List ℕ}
    → Drawn least
    → print_signed w least v ≡ some cs
    → Drawn cs
unfolding print_signed
print_signed-Drawn w least v d e = elim (Bool-cases (ltb (unsigned w v) (half_range w))) [
  | inl low ↦ print_number-Drawn _ _ _ _ _ decimal-Visible (rw low at e)
  | inr high ↦ elim (Bool-cases (unsigned w (negated w v) == 0)) [
    | inl zeros ↦ subst Drawn (some-injective _ _ (rw (high, zeros) at e)) (omega arith, d)
    | inr digits ↦ negative (rw (high, digits) at e)
  ]
]
  where
    negative :
        {cs : List ℕ}
        → (print_number decimal_digit 10 (positive w) (negated w v) (unsigned w (negated w v))
            >>= λ ds. some (45 ∷ ds))
          ≡ some cs
        → Drawn cs
    negative e =
        let (ds, run, e') = bind-eq-some _ _ e in
        subst Drawn {x = 45 ∷ ds} (some-injective _ _ e')
          (omega arith, print_number-Drawn _ _ _ _ _ decimal-Visible run)

int_signed-some : (v : ℕ) → (cs : List ℕ) × (int_signed v ≡ some cs)
int_signed-some v = elim (Bool-cases (unsigned int v == half_range int)) [
  | inl e ↦ (_, least_prints_minus_zero int v ((==_iff (unsigned int v) (half_range int)).0 e))
  | inr e ↦ elim (signed_conversions int v (ground (arith))) [
    | inl (_, (cs, run, _)) ↦ (cs, run)
    | inr (_, (cs, run, _)) ↦ (45 ∷ cs, run)
  ]
]

-- `%d` prints something, of the font's characters, for every argument.
pub int_signed-Drawn : (v : ℕ) → (cs : List ℕ) × (int_signed v ≡ some cs) × Drawn cs
unfolding int_signed
int_signed-Drawn v =
    let (cs, run) = int_signed-some v in
    (cs, run, print_signed-Drawn int (least_text int) v (omega arith) run)

-- So does `%lX`.
pub long_hex_upper-Drawn : (v : ℕ) → (cs : List ℕ) × (long_hex_upper v ≡ some cs) × Drawn cs
unfolding long_hex_upper print_unsigned
long_hex_upper-Drawn v =
    let (cs, run, _) = (unsigned_conversions v).3 in
    (cs, run, print_number-Drawn upper_digit 16 _ _ _ upper-Visible run)

-- So does `%lu`.
pub long_unsigned-Drawn : (v : ℕ) → (cs : List ℕ) × (long_unsigned v ≡ some cs) × Drawn cs
unfolding long_unsigned print_unsigned
long_unsigned-Drawn v =
    let (cs, run, _) = (unsigned_conversions v).1 in
    (cs, run, print_number-Drawn decimal_digit 10 _ _ _ decimal-Visible run)
