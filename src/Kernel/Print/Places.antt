-- ===== src/Kernel/Print/Places.antt =====
-- Positional notation behind the number loops of `PrintString` (src/kernel/graphics.c): how many
-- places a value has, the divisor of each place, and the digits read back.
use pious_os.Base.{
  ℕ, zero, suc, ◌+◌, ◌-◌, ◌*◌, ◌/◌, ◌%◌, ◌^◌, ◌≤◌, ◌<◌, ◌≡◌, refl, sym, ap, ◌∙◌, ◌⊎◌, inl, inr,
  some, List, [], ◌∷◌, for_range, arith, lt→ltb,
}
use native.Mathlib.Nat.{
  pow-suc, pow-zero, div-mul-le_self, div-add-mod', div-div-eq-div-mul, div-le_self, le_trans,
  div-lt_iff_lt-mul,
}
use pious_os.Kernel.Print.Number.{count_places, divisor, print_places}

-- `v` has `n` places to the base: `base ^ (n - 1) ≤ v < base ^ n`, and none for 0.
pub record HasPlaces (base v n : ℕ) : Type 0 where
  pub below : v < base ^ n
  pub leading : (n ≡ 0) ⊎ (base ^ n ≤ v * base)

pow-pos : (b n : ℕ) → 0 < b → 0 < b ^ n
pow-pos b zero h = rw pow-zero (omega arith)
pow-pos b (suc n) h = rw pow-suc (mul_pos h (pow-pos b n h))
  where
    mul_pos : {x y : ℕ} → 0 < x → 0 < y → 0 < y * x
    mul_pos p q = grind arith

lt_of_div : (v b p : ℕ) → 0 < b → v / b < p → v < p * b
lt_of_div v b p h q = (div-lt_iff_lt-mul h).0 q

mul_mono : {x y : ℕ} (b : ℕ) → x ≤ y → x * b ≤ y * b
mul_mono b h = grind arith

mul_base : (b v : ℕ) → 0 < v → b ≤ v * b
mul_base b v h = grind arith

HasPlaces-suc : (b v n : ℕ) → 0 < b → 0 < v → HasPlaces b (v / b) n → HasPlaces b v (suc n)
HasPlaces-suc b v n h pos c = record {
  below = rw pow-suc (lt_of_div v b (b ^ n) h c.below);
  leading = inr (
      rw pow-suc (elim c.leading [
        | inl e ↦ rw (e, pow-zero) (omega (arith, mul_base b v pos))
        | inr l ↦ mul_mono b (le_trans l (div-mul-le_self v b))
      ]));
}

HasPlaces-zero : (b : ℕ) → HasPlaces b 0 0
HasPlaces-zero b = record { below = rw pow-zero (omega arith); leading = inl refl }

div-lt : (b v p : ℕ) → 2 ≤ b → v < 2 * p → v / b < p
div-lt b v p h q = (div-lt_iff_lt-mul (omega arith)).1 (lt_le_trans q (twice h))
  where
    twice : 2 ≤ b → 2 * p ≤ p * b
    twice h = grind arith

    lt_le_trans : {x y z : ℕ} → x < y → y ≤ z → x < z
    lt_le_trans h k = omega arith

pub count_places_stop :
    (fuel : ℕ) (cast : ℕ → ℕ) (base v k : ℕ)
    → cast v ≡ 0
    → count_places (suc fuel) cast base v k ≡ some k
unfolding count_places
count_places_stop fuel cast base v k e = rw e

count_places_more :
    (fuel : ℕ) (cast : ℕ → ℕ) (base v k : ℕ)
    → 0 < cast v
    → count_places (suc fuel) cast base v k
      ≡ count_places fuel cast base (cast v / base) ((k + 1) % 2 ^ 8)
unfolding count_places
count_places_more fuel cast base v k h = rw (lt→ltb 0 (cast v) h)

-- On a value that the cast leaves alone, with fuel for its binary digits, the counting loop ends with
-- the number of places.
pub count_places_lem :
    (cast : ℕ → ℕ) (bound base : ℕ)
    → ((u : ℕ) → u < bound → cast u ≡ u)
    → 2 ≤ base
    → (fuel v k : ℕ) → v < bound
    → v < 2 ^ fuel
    → k + fuel < 2 ^ 8
    → (n : ℕ) × (count_places (suc fuel) cast base v k ≡ some (k + n)) × HasPlaces base v n
count_places_lem cast bound base same b zero v k vb vf kf =
    let e : v ≡ 0 = omega (arith, pow-zero 2, vf) in
    (
      0,
      count_places_stop zero cast base v k (same v vb ∙ e) ∙ ap some (omega arith),
      rw e (HasPlaces-zero base),
    )
count_places_lem cast bound base same b (suc fuel) zero k vb vf kf = (
  0,
  count_places_stop (suc fuel) cast base zero k (same 0 vb) ∙ ap some (omega arith),
  HasPlaces-zero base,
)
count_places_lem cast bound base same b (suc fuel) (suc v) k vb vf kf =
    let p : 2 ^ suc fuel ≡ 2 ^ fuel * 2 = pow-suc 2 fuel in
    let smaller : suc v / base < 2 ^ fuel = div-lt base (suc v) (2 ^ fuel) b (omega arith) in
    let (n, run, c) =
      count_places_lem cast bound base same b fuel (suc v / base) (k + 1)
        (omega (arith, div-le_self (suc v) base)) smaller (omega arith) in
    let next : (k + 1) % 2 ^ 8 ≡ k + 1 = omega arith in
    (
      suc n,
      count_places_more (suc fuel) cast base (suc v) k (rw (same (suc v) vb) (omega arith))
          ∙ rw (same (suc v) vb, next) (run ∙ ap some (omega arith)),
      HasPlaces-suc base (suc v) n (omega arith) (omega arith) c,
    )

-- The divisor's loop multiplies without wrapping.
times_loop :
    (b n i d : ℕ) → 0 < b → d * b ^ n < 2 ^ 64 → for_range n i (λ _ d. d * b % 2 ^ 64) d ≡ d * b ^ n
unfolding for_range
times_loop b zero i d h below = rw pow-zero (omega arith)
times_loop b (suc n) i d h below =
    let e : d * b ^ suc n ≡ d * b * b ^ n = rw pow-suc (shuffle d (b ^ n) b) in
    let small : d * b < 2 ^ 64 = le_lt_trans (le_mul (d * b) (pow-pos b n h)) (rw (← e) below) in
    let exact : d * b % 2 ^ 64 ≡ d * b = omega arith in
    rw exact (times_loop b n (i + 1) (d * b) h (rw (← e) below) ∙ sym e)
  where
    shuffle : (x y z : ℕ) → x * (y * z) ≡ x * z * y
    shuffle x y z = grind arith

    le_mul : (x : ℕ) {y : ℕ} → 0 < y → x ≤ x * y
    le_mul x h = grind arith

    le_lt_trans : {x y z : ℕ} → x ≤ y → y < z → x < z
    le_lt_trans p q = omega arith

pub divisor_lem : (b n : ℕ) → 0 < b → b ^ n < 2 ^ 64 → divisor b (suc n) ≡ b ^ n
unfolding divisor
divisor_lem b n h below =
    let e : suc n - 1 ≡ n = omega arith in rw e (times_loop b n 1 1 h (rw one (below)) ∙ one)
  where
    one : 1 * b ^ n ≡ b ^ n
    one = omega arith

-- Reading digits back: the reference for what was printed.
unfoldable pub read_digits : (ℕ → ℕ) → ℕ → ℕ → List ℕ → ℕ
read_digits value b acc [] = acc
read_digits value b acc (c ∷ cs) = read_digits value b (acc * b + value c) cs

mod_split : (v b p : ℕ) → 0 < b → 0 < p → v % (p * b) ≡ (v / p % b) * p + v % p
mod_split v b p h q =
    assemble v (v / (p * b)) (v / p) (v / p % b) (v % p) (v % (p * b)) p b (div-add-mod' v (p * b))
      (div-add-mod' v p) (rw (← div-div-eq-div-mul v p b) (div-add-mod' (v / p) b))
  where
    assemble :
        (v w q r m x p b : ℕ) → w * (p * b) + x ≡ v → q * p + m ≡ v → w * b + r ≡ q → x ≡ r * p + m
    assemble v w q r m x p b f g k = omega (arith, ap (λ (t : ℕ). t * p) k)

-- The digits from place `n` down stand for the value modulo `b ^ n`.
pub read_digits-print_places :
    (digit value : ℕ → ℕ) (b : ℕ)
    → 0 < b
    → ((p : ℕ) → p < b → value (digit p) ≡ p)
    → (n v acc : ℕ) → b ^ n < b * 2 ^ 64
    → read_digits value b acc (print_places digit b v n) ≡ acc * b ^ n + v % b ^ n
unfolding read_digits print_places
read_digits-print_places digit value b h inv zero v acc w = rw pow-zero (omega arith)
read_digits-print_places digit value b h inv (suc n) v acc w =
    let e : b ^ suc n ≡ b ^ n * b = pow-suc b n in
    let small : b ^ n < 2 ^ 64 = cancel (rw e at w) in
    let digit_lt : v / b ^ n % b < b = omega (arith, h) in
    rw (divisor_lem b n h small, inv _ digit_lt)
      (read_digits-print_places digit value b h inv n v (acc * b + v / b ^ n % b) (weaken h small)
        ∙ rw (e, mod_split v b (b ^ n) h (pow-pos b n h))
            (regroup acc b (v / b ^ n % b) (b ^ n) (v % b ^ n)))
  where
    cancel : {x y : ℕ} → x * b < b * y → x < y
    cancel l = grind arith

    weaken : {x y b : ℕ} → 0 < b → x < y → x < b * y
    weaken k l = grind arith

    regroup : (a b d p m : ℕ) → (a * b + d) * p + m ≡ a * (p * b) + (d * p + m)
    regroup a b d p m = omega arith
