-- ===== src/Kernel/Print/Format.antt =====
-- `PrintString` of src/kernel/graphics.c: the scan of the format, its arguments and the screen.
-- A string is the list of its bytes before the NUL. `none` is a fault: a read behind the NUL, an
-- argument that is not there, or a fault of `PrintCharacter` and `ScrollUp`.
use pious_os.Base.{
  ℕ, zero, suc, ◌+◌, ◌*◌, ◌%◌, ◌^◌, Bool, ◌||◌, Option, none, some, List, [], ◌∷◌, ◌++◌, ◌==◌,
  if◌then◌else◌, ◌>>=◌, length, for_range,
}
use pious_os.Kernel.Graphics.Screen.{Screen, cell, print_character, new_line}
use pious_os.Kernel.Print.Number.{
  long_signed, long_octal, long_unsigned, long_hex, long_hex_upper, short_signed, short_octal,
  short_unsigned, short_hex, short_hex_upper, int_signed, int_octal, int_unsigned, int_hex,
  int_hex_upper,
}

-- Floating point as `PrintString` uses it at one precision: `(float)d` or `d` itself.
pub record Precision (Double : Type 0) : Type 0 where
  pub is_negative : Double → Bool
  pub at_least_one : Double → Bool
  pub divide : Double → ℕ → Double
  pub multiply : Double → ℕ → Double
  pub truncate : Double → ℕ

-- The machine's floating point, which is not part of the repository.
pub record Floats : Type 1 where
  pub Double : Type 0
  pub negate : Double → Double
  pub single_precision : Precision Double
  pub double_precision : Precision Double

-- One round of the loop of `PrintString`: characters for `PrintCharacter`, or a line feed.
pub data Action : Type 0 where
  text : List ℕ → Action
  feed : Action

-- `while(*str_scanner != '\0')`: the first pass, which counts the arguments.
unfoldable pub takes_argument : ℕ → Bool
takes_argument c =
    c == b'c'
    || c == b'd'
    || c == b'i'
    || c == b'e'
    || c == b'E'
    || c == b'f'
    || c == b'g'
    || c == b'G'
    || c == b'o'
    || c == b's'
    || c == b'u'
    || c == b'x'
    || c == b'X'
    || c == b'p'
    || c == b'n'

unfoldable pub count_arguments : List ℕ → ℕ → Option ℕ
count_arguments [] n = some n
count_arguments (c ∷ []) n = if c == b'%' then none else some n
count_arguments (c ∷ d ∷ []) n =
    if c == b'%'
    then (if d == b'h' || d == b'l'
        then none
        else some (if takes_argument d then (n + 1) % 2 ^ 8 else n))
    else (if d == b'%' then none else some n)
count_arguments (c ∷ d ∷ e ∷ str) n =
    let long_form = count_arguments str ((n + 1) % 2 ^ 8) in
    let short_form = count_arguments (e ∷ str) (if takes_argument d then (n + 1) % 2 ^ 8 else n) in
    let plain = count_arguments (d ∷ e ∷ str) n in
    if c == b'%' then (if d == b'h' || d == b'l' then long_form else short_form) else plain

module _ (F : Floats) where
  open F use {Double, negate, single_precision, double_precision}

  -- `va_list` of the x86-64 calling convention: integers and doubles are fetched apart. A word is the
  -- argument's 64-bit slot.
  pub record VaList : Type 0 where
    pub words : List ℕ
    pub reals : List Double

  -- `while(value_cpy.d >= 1.0) { value_cpy.d /= 10; places++; }`
  unfoldable pub count_real_places : Precision Double → ℕ → Double → ℕ → Option ℕ
  count_real_places p zero v places = none
  count_real_places p (suc fuel) v places =
      let rest = count_real_places p fuel (p.divide v 10) ((places + 1) % 2 ^ 8) in
      if p.at_least_one v then rest else some places

  -- the digits before the point, from place `places` down
  unfoldable pub whole_digits : Precision Double → Double → ℕ → List ℕ
  whole_digits p v zero = []
  whole_digits p v (suc places) =
      (p.truncate (p.divide v (for_range places 1 (λ i d. d * 10 % 2 ^ 64) 1)) % 10 + 48)
      ∷ whole_digits p v places

  -- the four digits behind the point
  unfoldable pub fraction_digit : Precision Double → Double → ℕ → ℕ
  fraction_digit p v places =
      p.truncate (p.multiply v (for_range places 0 (λ i d. d * 10 % 2 ^ 64) 10)) % 10 + 48

  -- A double below 2 ^ 1024 has at most 309 places; an infinity has no end of them.
  unfoldable pub print_real : Precision Double → ℕ → Double → Option (List ℕ)
  print_real p fuel v = do
    let size = if p.is_negative v then negate v else v
    places ← count_real_places p fuel size 0
    some (
        (if p.is_negative v then b'-' ∷ [] else [])
        ++ ((if places == 0 then b'0' ∷ [] else whole_digits p size places)
            ++ b'.'
              ∷ fraction_digit p size 0
              ∷ fraction_digit p size 1
              ∷ fraction_digit p size 2
              ∷ fraction_digit p size 3
              ∷ []))

  abbrev real_fuel : ℕ
  real_fuel = 400

  -- `va_arg(valist, T)` for an integer type, and the conversion of it
  unfoldable pub with_word : (ℕ → Option (List ℕ)) → VaList → Option (List ℕ × VaList)
  with_word f args = elim args.words [
    | [] ↦ none
    | w ∷ ws ↦ do out ← f w; some (out, record args { words = ws })
  ]

  unfoldable pub with_real : (Double → Option (List ℕ)) → VaList → Option (List ℕ × VaList)
  with_real f args = elim args.reals [
    | [] ↦ none
    | d ∷ ds ↦ do out ← f d; some (out, record args { reals = ds })
  ]

  -- the `switch` behind `%l`
  unfoldable pub long_conversion : ℕ → VaList → Option (List ℕ × VaList)
  long_conversion c args =
      if c == b'd' || c == b'i'
      then with_word long_signed args
      else if c == b'o'
      then with_word long_octal args
      else if c == b'u'
      then with_word long_unsigned args
      else if c == b'x'
      then with_word long_hex args
      else if c == b'X'
      then with_word long_hex_upper args
      else some ([], args)

  -- the `switch` behind `%h`
  unfoldable pub short_conversion : ℕ → VaList → Option (List ℕ × VaList)
  short_conversion c args =
      if c == b'd' || c == b'i'
      then with_word short_signed args
      else if c == b'o'
      then with_word short_octal args
      else if c == b's' || c == b'u'
      then with_word short_unsigned args
      else if c == b'x'
      then with_word short_hex args
      else if c == b'X'
      then with_word short_hex_upper args
      else some ([], args)

  -- the `switch` behind `%`, but for its cases `l` and `h`
  unfoldable pub conversion : ℕ → VaList → Option (List ℕ × VaList)
  conversion c args =
      if c == b'%'
      then some (b'%' ∷ [], args)
      else if c == b'c'
      then with_word (λ w. some (w % 2 ^ 8 ∷ [])) args
      else if c == b'd' || c == b'i'
      then with_word int_signed args
      else if c == b'e' || c == b'E' || c == b'f'
      then with_real (print_real single_precision real_fuel) args
      else if c == b'g'
      then with_real (print_real double_precision real_fuel) args
      else if c == b'o'
      then with_word int_octal args
      else if c == b'u'
      then with_word int_unsigned args
      else if c == b'x'
      then with_word int_hex args
      else if c == b'X'
      then with_word int_hex_upper args
      else some ([], args)

  -- What stands behind `%`: the text, the rest of the format and of the arguments. Behind the NUL the
  -- source reads on.
  abbrev pub Round : Type 0
  Round = Action × List ℕ × VaList

  unfoldable pub prefixed : (ℕ → VaList → Option (List ℕ × VaList)) → List ℕ → VaList → Option Round
  prefixed conv [] args = none
  prefixed conv (c ∷ str) args = do (out, args') ← conv c args; some (text out, str, args')

  unfoldable pub directive : List ℕ → VaList → Option Round
  directive [] args = none
  directive (c ∷ str) args =
      if c == b'l'
      then prefixed long_conversion str args
      else if c == b'h'
      then prefixed short_conversion str args
      else prefixed conversion (c ∷ str) args

  -- one round of the loop, at the byte `c`
  unfoldable pub round : ℕ → List ℕ → VaList → Option Round
  round c str args =
      if c == b'%'
      then directive str args
      else if c == 10
      then some (feed, str, args)
      else some (text (c ∷ []), str, args)

-- The characters of one round, in order.
unfoldable pub print_characters : ℕ → ℕ → List ℕ → Screen → Option Screen
print_characters foreground background [] s = some s
print_characters foreground background (c ∷ cs) s =
    print_character c foreground background s >>= print_characters foreground background cs

unfoldable pub perform : ℕ → ℕ → Action → Screen → Option Screen
perform foreground background (text cs) s = print_characters foreground background cs s
perform foreground background feed s = new_line s

module _ (F : Floats) where
  -- `while(*str != '\0')`, on fuel: a round takes at least one byte.
  unfoldable pub print_loop : ℕ → ℕ → ℕ → List ℕ → VaList F → Screen → Option Screen
  print_loop fuel foreground background [] args s = some s
  print_loop zero foreground background (c ∷ str) args s = none
  print_loop (suc fuel) foreground background (c ∷ str) args s = do
    (act, str', args') ← round F c str args
    s' ← perform foreground background act s
    print_loop fuel foreground background str' args' s'

  -- Both passes, and the division by the size of a character between them. The first pass's count is not
  -- used, but it may read behind the NUL.
  unfoldable pub print_string : List ℕ → ℕ → ℕ → VaList F → Screen → Option Screen
  print_string str foreground background args s = do
    n ← count_arguments str 0
    if cell s.settings == 0 then none else print_loop (length str) foreground background str args s
