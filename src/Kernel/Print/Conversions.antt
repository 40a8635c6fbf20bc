-- ===== src/Kernel/Print/Conversions.antt =====
-- The unsigned and signed conversions of `PrintString` (src/kernel/graphics.c), case by case.
use pious_os.Base.{
  ℕ, ◌-◌, ◌%◌, ◌^◌, ◌<◌, ◌≡◌, refl, ap, ◌≢◌, ◌⊎◌, inl, inr, Option, some, List, [], ◌∷◌, ltb, ◌==◌,
  if◌then◌else◌, arith, lt→ltb, ge→ltb, ltb→lt, ltb→ge, Bool-cases, false,
}
use pious_os.Kernel.Print.Number.{
  Width, short, int, long, bits, half_range, unsigned, positive, negated, count_places,
  print_number, print_unsigned, print_signed, decimal_digit, least_text, long_signed, long_octal,
  long_unsigned, long_hex, long_hex_upper, short_signed, short_octal, short_unsigned, short_hex,
  short_hex_upper, int_signed, int_unsigned, int_hex, int_hex_upper,
}
use pious_os.Kernel.Print.Places.{count_places_stop}
use pious_os.Kernel.Print.Numerals.{
  IsNumeral, Prints, Digits, print_number-Prints, Digits-decimal, Digits-octal, Digits-lower,
  Digits-upper, unsigned-lt,
}

-- The counting loop sees its start only through the cast.
pub print_number-cast :
    (digit : ℕ → ℕ) (base : ℕ) (cast : ℕ → ℕ) (v u seen : ℕ)
    → cast v ≡ cast u
    → print_number digit base cast v seen ≡ print_number digit base cast u seen
unfolding print_number count_places
print_number-cast digit base cast v u seen e = rw e

pub unsigned-unsigned : (w : Width) (v : ℕ) → unsigned w v ≡ unsigned w (unsigned w v)
unsigned-unsigned short v = omega arith
unsigned-unsigned int v = omega arith
unsigned-unsigned long v = omega arith

unsigned_same : (w : Width) (u : ℕ) → u < 2 ^ bits w → unsigned w u ≡ u
unsigned_same short u h = omega arith
unsigned_same int u h = omega arith
unsigned_same long u h = omega arith

unsigned-lt-bits : (w : Width) (v : ℕ) → unsigned w v < 2 ^ bits w
unsigned-lt-bits short v = omega arith
unsigned-lt-bits int v = omega arith
unsigned-lt-bits long v = omega arith

pub print_unsigned-Prints :
    (digit : ℕ → ℕ) (base : ℕ) (w : Width) (v : ℕ)
    → Digits digit base
    → Prints base (unsigned w v) (print_unsigned digit base w v)
unfolding print_unsigned
print_unsigned-Prints digit base w v d =
    rw
      (print_number-cast digit base (unsigned w) v (unsigned w v) (unsigned w v)
        (unsigned-unsigned w v))
      (print_number-Prints digit base (unsigned w) (2 ^ bits w) (unsigned w v) d (unsigned_same w)
        (unsigned-lt-bits w v) (unsigned-lt w v))

-- Every unsigned conversion but `%o` prints its argument, cut to 64, 16 or 32 bits: the text reads back
-- as that number to its base, and has no leading zero.
pub unsigned_conversions :
    (v : ℕ)
    → Prints 8 (v % 2 ^ 64) (long_octal v)
      × Prints 10 (v % 2 ^ 64) (long_unsigned v)
      × Prints 16 (v % 2 ^ 64) (long_hex v)
      × Prints 16 (v % 2 ^ 64) (long_hex_upper v)
      × Prints 8 (v % 2 ^ 16) (short_octal v)
      × Prints 10 (v % 2 ^ 16) (short_unsigned v)
      × Prints 16 (v % 2 ^ 16) (short_hex v)
      × Prints 16 (v % 2 ^ 16) (short_hex_upper v)
      × Prints 10 (v % 2 ^ 32) (int_unsigned v)
      × Prints 16 (v % 2 ^ 32) (int_hex v)
      × Prints 16 (v % 2 ^ 32) (int_hex_upper v)
unfolding long_octal long_unsigned long_hex long_hex_upper short_octal short_unsigned short_hex
    short_hex_upper int_unsigned int_hex int_hex_upper
unsigned_conversions v = (
  print_unsigned-Prints _ 8 long v Digits-octal,
  print_unsigned-Prints _ 10 long v Digits-decimal,
  print_unsigned-Prints _ 16 long v Digits-lower,
  print_unsigned-Prints _ 16 long v Digits-upper,
  print_unsigned-Prints _ 8 short v Digits-octal,
  print_unsigned-Prints _ 10 short v Digits-decimal,
  print_unsigned-Prints _ 16 short v Digits-lower,
  print_unsigned-Prints _ 16 short v Digits-upper,
  print_unsigned-Prints _ 10 int v Digits-decimal,
  print_unsigned-Prints _ 16 int v Digits-lower,
  print_unsigned-Prints _ 16 int v Digits-upper,
)

positive_same : (w : Width) (u : ℕ) → u < half_range w → positive w u ≡ u
positive_same short u h = ground arith
positive_same int u h = ground arith
positive_same long u h = ground arith

half_lt : (w : Width) (u : ℕ) → u < half_range w → u < 2 ^ 64
half_lt short u h = omega arith
half_lt int u h = omega arith
half_lt long u h = omega arith

positive-unsigned : (w : Width) (v : ℕ) → positive w v ≡ positive w (unsigned w v)
positive-unsigned w v = ap (λ u. if ltb u (half_range w) then u else 0) (unsigned-unsigned w v)

positive_eq : (w : Width) (v : ℕ) → unsigned w v < half_range w → positive w v ≡ unsigned w v
positive_eq w v h = rw (lt→ltb (unsigned w v) (half_range w) h)

-- The number loops on a pattern with a clear sign bit.
signed_digits :
    (w : Width) (v : ℕ)
    → unsigned w v < half_range w
    → Prints 10 (unsigned w v) (print_number decimal_digit 10 (positive w) v (unsigned w v))
signed_digits w v h =
    rw
      (print_number-cast decimal_digit 10 (positive w) v (unsigned w v) (unsigned w v)
        (positive-unsigned w v))
      (print_number-Prints decimal_digit 10 (positive w) (half_range w) (unsigned w v)
        Digits-decimal (positive_same w) h (half_lt w (unsigned w v) h))

negated_lem :
    (w : Width) (v : ℕ)
    → half_range w < unsigned w v
    → (unsigned w (negated w v) < half_range w)
      × (unsigned w (negated w v) ≡ negated w v)
      × ((unsigned w (negated w v) == 0) ≡ false)
negated_lem short v h = ground arith
negated_lem int v h = ground arith
negated_lem long v h = ground arith

negated_least :
    (w : Width) (v : ℕ)
    → unsigned w v ≡ half_range w
    → (positive w (negated w v) ≡ 0) × ((unsigned w (negated w v) == 0) ≡ false)
negated_least short v e = rw e (refl, refl)
negated_least int v e = rw e (refl, refl)
negated_least long v e = rw e (refl, refl)

print_number_zero :
    (digit : ℕ → ℕ) (base : ℕ) (cast : ℕ → ℕ) (v seen : ℕ)
    → cast v ≡ 0
    → print_number digit base cast v seen ≡ some (48 ∷ [])
unfolding print_number
print_number_zero digit base cast v seen e = rw (count_places_stop 64 cast base v 0 e)

-- The argument of a signed conversion is not negative.
print_signed_positive :
    (w : Width) (least : List ℕ) (v : ℕ)
    → unsigned w v < half_range w
    → Prints 10 (unsigned w v) (print_signed w least v)
unfolding print_signed
print_signed_positive w least v h =
    rw (lt→ltb (unsigned w v) (half_range w) h) (signed_digits w v h)

-- It is negative, but not the least value.
print_signed_negative :
    (w : Width) (least : List ℕ) (v : ℕ)
    → half_range w < unsigned w v
    → (text : List ℕ) × (print_signed w least v ≡ some (45 ∷ text))
      × IsNumeral 10 (2 ^ bits w - unsigned w v) text
unfolding print_signed
print_signed_negative w least v h =
    let (low, same, nonzero) = negated_lem w v h in
    let (text, run, num) = signed_digits w (negated w v) low in
    (
      text,
      rw (ge→ltb (unsigned w v) (half_range w) (omega arith), nonzero, run) refl,
      rw same at num,
    )

-- The argument is the least value: its negation is negative again, and the digits are those of 0.
print_signed_least :
    (w : Width) (least : List ℕ) (v : ℕ)
    → unsigned w v ≡ half_range w
    → print_signed w least v ≡ some (45 ∷ 48 ∷ [])
unfolding print_signed
print_signed_least w least v e =
    let (zero_seen, nonzero) = negated_least w v e in
    let printed =
      print_number_zero decimal_digit 10 (positive w) (negated w v) (unsigned w (negated w v))
        zero_seen in
    rw (ge→ltb (unsigned w v) (half_range w) (omega arith), nonzero, printed)

-- `%hd`, `%d` or `%ld`
abbrev pub signed_conversion : Width → ℕ → Option (List ℕ)
signed_conversion short = short_signed
signed_conversion int = int_signed
signed_conversion long = long_signed

-- The two's complement number of the pattern, in decimal: its digits, or `-` and those of its negation.
abbrev pub PrintsSigned : Width → ℕ → Option (List ℕ) → Type 0
PrintsSigned w v r =
    ((unsigned w v < half_range w) × Prints 10 (unsigned w v) r)
    ⊎ ((half_range w < unsigned w v)
        × ((text : List ℕ) × (r ≡ some (45 ∷ text))
            × IsNumeral 10 (2 ^ bits w - unsigned w v) text))

print_signed_lem :
    (w : Width) (least : List ℕ) (v : ℕ)
    → unsigned w v ≢ half_range w
    → PrintsSigned w v (print_signed w least v)
print_signed_lem w least v ne = elim (Bool-cases (ltb (unsigned w v) (half_range w))) [
  | inl e ↦ inl (ltb→lt _ _ e, print_signed_positive w least v (ltb→lt _ _ e))
  | inr e ↦
      let above : half_range w < unsigned w v = omega (arith, ltb→ge _ _ e, ne) in
      inr (above, print_signed_negative w least v above)
]

-- For every argument but the least of its type, `%hd`, `%d` and `%ld` print its number: a decimal text
-- with no leading zero for one that is not negative, and `-` followed by the negation's for another.
pub signed_conversions :
    (w : Width) (v : ℕ) → unsigned w v ≢ half_range w → PrintsSigned w v (signed_conversion w v)
unfolding short_signed int_signed long_signed
signed_conversions short v ne = print_signed_lem short (least_text short) v ne
signed_conversions int v ne = print_signed_lem int (least_text int) v ne
signed_conversions long v ne = print_signed_lem long (least_text long) v ne

-- The loops print the least `short`, `int` and `long` as "-0", where the negation wraps around.
pub least_prints_minus_zero :
    (w : Width) (v : ℕ) → unsigned w v ≡ half_range w → signed_conversion w v ≡ some (45 ∷ 48 ∷ [])
unfolding short_signed int_signed long_signed
least_prints_minus_zero short v e = print_signed_least short (least_text short) v e
least_prints_minus_zero int v e = print_signed_least int (least_text int) v e
least_prints_minus_zero long v e = print_signed_least long (least_text long) v e
