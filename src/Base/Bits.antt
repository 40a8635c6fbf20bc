-- ===== src/Base/Bits.antt =====
-- Bit masks: `x | y` where the two have no bit in common.
use Prim.Native.Nat.{
  ℕ, zero, suc, ◌+◌, ◌*◌, ◌/◌, ◌%◌, ◌^◌, ◌≤◌, ◌<◌, max, bit_or, digits, bit_or-bitwise,
}
use mathlib.Core.Path.{◌≡◌, refl}
use native.Mathlib.Nat.{pow-suc}
use native.Mathlib.Omega.{arith}

-- The fuel of the digit recursion is the first operand: any that is as large gives the same number.
abbrev joined : ℕ → ℕ → ℕ → ℕ
joined fuel x y = digits (λ rest. rest) max fuel x y

joined-fuel : (x y f : ℕ) (g : ℕ) → x ≤ g → x ≤ f → joined f x y ≡ joined g x y
joined-fuel zero y zero zero hg hf = refl
joined-fuel zero y zero (suc g) hg hf = refl
joined-fuel zero y (suc f) zero hg hf = refl
joined-fuel zero y (suc f) (suc g) hg hf = refl
joined-fuel (suc x) y zero g hg hf = absurd (omega arith)
joined-fuel (suc x) y (suc f) zero hg hf = absurd (omega arith)
joined-fuel (suc x) y (suc f) (suc g) hg hf =
    let halves = joined-fuel (suc x / 2) (y / 2) f g (omega arith) (omega arith) in
    omega (arith, halves)

-- The lowest digit apart, the rest is the same operation on the halves.
pub bit_or_step : (x y : ℕ) → bit_or x y ≡ bit_or (x / 2) (y / 2) * 2 + max (x % 2) (y % 2)
bit_or_step zero y =
    let none_left = bit_or-bitwise 0 y in
    let none_left' = bit_or-bitwise 0 (y / 2) in omega (arith, none_left, none_left')
bit_or_step (suc x) y =
    let whole = bit_or-bitwise (suc x) y in
    let rest = bit_or-bitwise (suc x / 2) (y / 2) in
    let same = joined-fuel (suc x / 2) (y / 2) x (suc x / 2) (omega arith) (omega arith) in
    omega (arith, whole, rest, same)

bit_or-zero : (bound x : ℕ) → x ≤ bound → bit_or x 0 ≡ x
bit_or-zero bound zero small = refl
bit_or-zero zero (suc x) small = absurd (omega arith)
bit_or-zero (suc bound) (suc x) small =
    let halves = bit_or-zero bound (suc x / 2) (omega arith) in
    omega (arith, halves, bit_or_step (suc x) 0)

-- The step with the power of two a variable.
bit_or_double :
    (p a b : ℕ) → bit_or (p * a) (b / 2) ≡ p * a + b / 2 → bit_or (2 * p * a) b ≡ 2 * p * a + b
bit_or_double p a b h =
    let half : 2 * p * a / 2 ≡ p * a = omega arith in
    let even : 2 * p * a % 2 ≡ 0 = omega arith in rw (bit_or_step, half, even, h) (omega arith)

-- Or-ing `k` low bits into a multiple of `2 ^ k` adds them.
pub bit_or_low : (k a b : ℕ) → b < 2 ^ k → bit_or (2 ^ k * a) b ≡ 2 ^ k * a + b
bit_or_low zero a zero h = rw (bit_or-zero (1 * a) (1 * a) (omega arith)) (omega arith)
bit_or_low zero a (suc b) h = absurd (omega arith)
bit_or_low (suc k) a b h =
    let twice : 2 ^ suc k ≡ 2 * 2 ^ k = omega (arith, pow-suc 2 k) in
    rw twice (bit_or_double (2 ^ k) a b (bit_or_low k a (b / 2) (omega arith)))

-- A page's address with the bits 0 and 1.
pub bit_or_page : (a : ℕ) → bit_or (bit_or (4096 * a) 0x01) 0x02 ≡ 4096 * a + 3
bit_or_page a =
    let first : bit_or (4096 * a) 1 ≡ 4096 * a + 1 = bit_or_low 12 a 1 (omega arith) in
    let rest : bit_or (2048 * a) 1 ≡ 2048 * a + 1 = bit_or_low 11 a 1 (omega arith) in
    let half : (4096 * a + 1) / 2 ≡ 2048 * a = omega arith in
    let odd : (4096 * a + 1) % 2 ≡ 1 = omega arith in
    rw (first, bit_or_step (4096 * a + 1) 2, half, odd) (omega (arith, rest))
