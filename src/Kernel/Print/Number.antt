-- ===== src/Kernel/Print/Number.antt =====
-- The numeric conversions of `PrintString` (src/kernel/graphics.c): the characters that each case
-- hands to `PrintCharacter`, in order. A value is the 64-bit word `value.l`; `none` means that the
-- counting loop ran out of fuel, which `Places` rules out.
use pious_os.Base.{
  ℕ, zero, suc, ◌+◌, ◌-◌, ◌*◌, ◌/◌, ◌%◌, ◌^◌, Option, none, some, List, [], ◌∷◌, ltb, ◌==◌,
  if◌then◌else◌, ◌>>=◌, for_range,
}

-- `short`, `int` and `long` on the kernel's targets
pub data Width : Type 0 where
  short int long : Width

abbrev pub bits : Width → ℕ
bits short = 16
bits int = 32
bits long = 64

-- 2 ^ (bits - 1), the first pattern of a negative number
abbrev pub half_range : Width → ℕ
half_range short = 2 ^ 15
half_range int = 2 ^ 31
half_range long = 2 ^ 63

-- `(unsigned T)v`
abbrev pub unsigned : Width → ℕ → ℕ
unsigned w v = v % 2 ^ bits w

-- `(signed T)v` where that is positive, and 0 where it is not
abbrev pub positive : Width → ℕ → ℕ
positive w v = if ltb (unsigned w v) (half_range w) then unsigned w v else 0

-- `while((T)value_cpy.l > 0) { value_cpy.l = (T)value_cpy.l / base; places++; }`, with `places` an
-- `unsigned char`.
unfoldable pub count_places : ℕ → (ℕ → ℕ) → ℕ → ℕ → ℕ → Option ℕ
count_places zero cast base v places = none
count_places (suc fuel) cast base v places =
    let rest = count_places fuel cast base (cast v / base) ((places + 1) % 2 ^ 8) in
    if ltb 0 (cast v) then rest else some places

-- `divisor = 1; for(i = 1; i < places; i++) divisor *= base;`
unfoldable pub divisor : ℕ → ℕ → ℕ
divisor base places = for_range (places - 1) 1 (λ i d. d * base % 2 ^ 64) 1

-- `p + 48`, and `p + 87` (or `p + 55`) for the digits above 9
abbrev pub decimal_digit : ℕ → ℕ
decimal_digit p = p + 48

abbrev pub lower_digit : ℕ → ℕ
lower_digit p = if ltb 9 p then p + 87 else p + 48

abbrev pub upper_digit : ℕ → ℕ
upper_digit p = if ltb 9 p then p + 55 else p + 48

-- `while(places > 0) { p = ((T)value.l / divisor) % base; PrintCharacter(...); places--; }`
unfoldable pub print_places : (ℕ → ℕ) → ℕ → ℕ → ℕ → List ℕ
print_places digit base v zero = []
print_places digit base v (suc places) =
    digit (v / divisor base (suc places) % base) ∷ print_places digit base v places

-- more rounds than a 64-bit word has digits to the base 8
abbrev pub place_fuel : ℕ
place_fuel = 65

-- `(T)value.l` is `cast v` in the test of the first loop, and `seen` in the second.
unfoldable pub print_number : (ℕ → ℕ) → ℕ → (ℕ → ℕ) → ℕ → ℕ → Option (List ℕ)
print_number digit base cast v seen = do
  places ← count_places place_fuel cast base v 0
  some (if places == 0 then 48 ∷ [] else print_places digit base seen places)

unfoldable pub print_unsigned : (ℕ → ℕ) → ℕ → Width → ℕ → Option (List ℕ)
print_unsigned digit base w v = print_number digit base (unsigned w) v (unsigned w v)

-- `(unsigned long)((signed T)value.l * -1)`. For a `short` the product is an `int`; for an `int` or a
-- `long` it is computed modulo 2 ^ bits, where C leaves the overflow at the least value open,
-- and no more is said of what is printed for it than that it is drawn.
abbrev pub negated : Width → ℕ → ℕ
negated w v = 2 ^ bits w - unsigned w v

-- `PrintCharacter('-', ...)`, and the number without its sign; the text of the least value is printed
-- where the negated value is 0.
unfoldable pub print_signed : Width → List ℕ → ℕ → Option (List ℕ)
print_signed w least v =
    if ltb (unsigned w v) (half_range w)
    then print_number decimal_digit 10 (positive w) v (positive w v)
    else (if unsigned w (negated w v) == 0 then some (45 ∷ least) else do
      digits ← print_number decimal_digit 10 (positive w) (negated w v) (unsigned w (negated w v))
      some (45 ∷ digits))

-- "32768", "2147483648" and "9223372036854775808"
abbrev pub least_text : Width → List ℕ
least_text short = 51 ∷ 50 ∷ 55 ∷ 54 ∷ 56 ∷ []
least_text int = 50 ∷ 49 ∷ 52 ∷ 55 ∷ 52 ∷ 56 ∷ 51 ∷ 54 ∷ 52 ∷ 56 ∷ []
least_text long =
    57 ∷ 50 ∷ 50 ∷ 51 ∷ 51 ∷ 55 ∷ 50 ∷ 51 ∷ 54 ∷ 56 ∷ 53 ∷ 52 ∷ 55 ∷ 55 ∷ 53 ∷ 56 ∷ 48 ∷ 56 ∷ []

-- `%ld`, `%lo`, `%lu`, `%lx` and `%lX`
unfoldable pub long_signed : ℕ → Option (List ℕ)
long_signed = print_signed long (least_text long)

unfoldable pub long_octal : ℕ → Option (List ℕ)
long_octal = print_unsigned decimal_digit 8 long

unfoldable pub long_unsigned : ℕ → Option (List ℕ)
long_unsigned = print_unsigned decimal_digit 10 long

unfoldable pub long_hex : ℕ → Option (List ℕ)
long_hex = print_unsigned lower_digit 16 long

unfoldable pub long_hex_upper : ℕ → Option (List ℕ)
long_hex_upper = print_unsigned upper_digit 16 long

-- `%hd`, `%ho`, `%hu`, `%hx` and `%hX`
unfoldable pub short_signed : ℕ → Option (List ℕ)
short_signed = print_signed short (least_text short)

unfoldable pub short_octal : ℕ → Option (List ℕ)
short_octal = print_unsigned decimal_digit 8 short

unfoldable pub short_unsigned : ℕ → Option (List ℕ)
short_unsigned = print_unsigned decimal_digit 10 short

unfoldable pub short_hex : ℕ → Option (List ℕ)
short_hex = print_unsigned lower_digit 16 short

unfoldable pub short_hex_upper : ℕ → Option (List ℕ)
short_hex_upper = print_unsigned upper_digit 16 short

-- `%d`, `%o`, `%u`, `%x` and `%X`
unfoldable pub int_signed : ℕ → Option (List ℕ)
int_signed = print_signed int (least_text int)

-- The digits of `%o` are those of `(signed int)value.l`, converted to 64 bits for the division.
unfoldable pub int_octal : ℕ → Option (List ℕ)
int_octal v =
    let u = unsigned int v in
    print_number decimal_digit 8 (unsigned int) u
      (if ltb u (2 ^ 31) then u else u + 2 ^ 64 - 2 ^ 32)

unfoldable pub int_unsigned : ℕ → Option (List ℕ)
int_unsigned = print_unsigned decimal_digit 10 int

unfoldable pub int_hex : ℕ → Option (List ℕ)
int_hex = print_unsigned lower_digit 16 int

unfoldable pub int_hex_upper : ℕ → Option (List ℕ)
int_hex_upper = print_unsigned upper_digit 16 int
