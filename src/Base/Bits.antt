-- ===== src/Base/Bits.antt =====
-- `&` with a mask as arithmetic, at every width, from the digit recursion that the native
-- operation stands for.
use Prim.Native.Nat.{
  ℕ, zero, suc, ◌+◌, ◌-◌, ◌*◌, ◌/◌, ◌%◌, ◌^◌, ◌≤◌, ◌<◌, min, max, bit_and, bit_or, bit_xor, digits,
  bit_and-bitwise, bit_or-bitwise, bit_xor-bitwise, bitwise, differ,
}
use mathlib.Core.Path.{◌≡◌, refl, sym, ◌∙◌, ap}
use mathlib.Core.Bool.{Bool, true, ◌&&◌}
use native.Mathlib.Nat.{
  pow-suc, one-le-pow, div-div-eq-div-mul, div-add-mod, mod-lt, mod-eq_of_lt, mul-div_cancel_left,
  mul-one, add-mul-mod_self_right,
}
use native.Mathlib.Omega.{arith}

-- A test of the numbers below a bound, by evaluation.
unfoldable pub passes_below : ℕ → (ℕ → Bool) → Bool
passes_below zero test = true
passes_below (suc k) test = test k && passes_below k test

pub passes_below_sound :
    (bound : ℕ) (test : ℕ → Bool) (i : ℕ)
    → passes_below bound test ≡ true
    → i < bound
    → test i ≡ true
unfolding passes_below
passes_below_sound zero test i passed below = absurd (omega arith)
passes_below_sound (suc k) test i passed below = ground (arith, passes_below_sound k test i)

-- The three operations are one recursion on the binary digits of the first argument, on fuel;
-- `z` gives the rest of the second argument. The fuel counts for nothing once it is enough.
module _ (z : ℕ → ℕ) (f : ℕ → ℕ → ℕ) where
  enough_fuel : (n m a b : ℕ) → a ≤ n → a ≤ m → digits z f n a b ≡ digits z f m a b
  enough_fuel n m zero b p q = zero_digits n b ∙ sym (zero_digits m b)
    where
      zero_digits : (k : ℕ) (b : ℕ) → digits z f k zero b ≡ z b
      zero_digits zero b = refl
      zero_digits (suc k) b = refl
  enough_fuel zero m (suc a) b p q = absurd (omega arith)
  enough_fuel (suc n) zero (suc a) b p q = absurd (omega arith)
  enough_fuel (suc n) (suc m) (suc a) b p q =
      omega (arith, enough_fuel n m (suc a / 2) (b / 2) (omega arith) (omega arith))

  lowest_digit :
      (a b : ℕ)
      → bitwise z f (suc a) b ≡ bitwise z f (suc a / 2) (b / 2) * 2 + f (suc a % 2) (b % 2)
  lowest_digit a b =
      omega (arith, enough_fuel a (suc a / 2) (suc a / 2) (b / 2) (omega arith) (omega arith))

bit_and_step : (a b : ℕ) → bit_and a b ≡ bit_and (a / 2) (b / 2) * 2 + min (a % 2) (b % 2)
bit_and_step zero b = omega (arith, bit_and-bitwise 0 b, bit_and-bitwise 0 (b / 2))
bit_and_step (suc a) b = omega (
  arith,
  bit_and-bitwise (suc a) b,
  bit_and-bitwise (suc a / 2) (b / 2),
  lowest_digit (λ x. 0) min a b,
)

bit_or_step : (a b : ℕ) → bit_or a b ≡ bit_or (a / 2) (b / 2) * 2 + max (a % 2) (b % 2)
bit_or_step zero b = omega (arith, bit_or-bitwise 0 b, bit_or-bitwise 0 (b / 2))
bit_or_step (suc a) b = omega (
  arith,
  bit_or-bitwise (suc a) b,
  bit_or-bitwise (suc a / 2) (b / 2),
  lowest_digit (λ x. x) max a b,
)

bit_xor_step : (a b : ℕ) → bit_xor a b ≡ bit_xor (a / 2) (b / 2) * 2 + differ (a % 2) (b % 2)
bit_xor_step zero b = omega (arith, bit_xor-bitwise 0 b, bit_xor-bitwise 0 (b / 2))
bit_xor_step (suc a) b = omega (
  arith,
  bit_xor-bitwise (suc a) b,
  bit_xor-bitwise (suc a / 2) (b / 2),
  lowest_digit (λ x. x) differ a b,
)

pub bit_and-zero : (a : ℕ) → bit_and a 0 ≡ 0
bit_and-zero a = up_to a a (omega arith)
  where
    up_to : (top n : ℕ) → n ≤ top → bit_and n 0 ≡ 0
    up_to top zero small = refl
    up_to zero (suc k) small = absurd (omega arith)
    up_to (suc top) (suc k) small =
        omega (arith, bit_and_step (suc k) 0, up_to top (suc k / 2) (omega arith))

pub two_pow_suc : (k : ℕ) → 2 ^ suc k ≡ 2 * 2 ^ k
two_pow_suc k = omega (arith, pow-suc 2 k)

pub two_pow_pos : (k : ℕ) → 0 < 2 ^ k
two_pow_pos k = one-le-pow k 2 (omega arith)

-- The quotient and the remainder are the only such pair.
mod_unique : (n q a r : ℕ) → a ≡ q * n + r → r < n → a % n ≡ r
mod_unique n q a r e h =
    let e' : a ≡ r + q * n = omega arith in rw e' (add-mul-mod_self_right r q n ∙ mod-eq_of_lt h)

-- Dividing by a power of two one bit at a time, from either end.
pub half-div : (k a : ℕ) → a / 2 / 2 ^ k ≡ a / 2 ^ suc k
half-div k a = div-div-eq-div-mul a 2 (2 ^ k) ∙ ap (λ (t : ℕ). a / t) (sym (two_pow_suc k))

pub div-half : (k a : ℕ) → a / 2 ^ k / 2 ≡ a / 2 ^ suc k
div-half k a = div-div-eq-div-mul a (2 ^ k) 2 ∙ ap (λ (t : ℕ). a / t) (sym (pow-suc 2 k))

-- The lowest bit, and the rest, of a remainder by a power of two.
mod_two_pow_suc : (k a : ℕ) → a % 2 ^ suc k ≡ a / 2 % 2 ^ k * 2 + a % 2
mod_two_pow_suc k a =
    mod_unique (2 ^ suc k) (a / 2 / 2 ^ k) a (a / 2 % 2 ^ k * 2 + a % 2)
      (omega (
        arith,
        two_pow_suc k,
        div-add-mod (a / 2) (2 ^ k),
        ap (λ (t : ℕ). a / 2 / 2 ^ k * t) (two_pow_suc k),
      ))
      (omega (arith, two_pow_suc k, two_pow_pos k, mod-lt (a / 2) (two_pow_pos k)))

-- A mask of `k` low ones is the remainder by `2 ^ k`.
pub bit_and_low : (k a : ℕ) → bit_and a (2 ^ k - 1) ≡ a % 2 ^ k
bit_and_low zero a = omega (arith, bit_and-zero a)
bit_and_low (suc k) a =
    let e : (2 ^ suc k - 1) / 2 ≡ 2 ^ k - 1 = omega (arith, two_pow_suc k, two_pow_pos k) in
    let o : (2 ^ suc k - 1) % 2 ≡ 1 = omega (arith, two_pow_suc k, two_pow_pos k) in
    rw (bit_and_step a (2 ^ suc k - 1), e, o, bit_and_low k (a / 2), mod_two_pow_suc k a)
      (omega arith)

-- A mask whose `k` low bits are clear looks at the bits above them.
pub bit_and_high : (k a m : ℕ) → bit_and a (m * 2 ^ k) ≡ bit_and (a / 2 ^ k) m * 2 ^ k
bit_and_high zero a m = ground arith
bit_and_high (suc k) a m =
    let e : m * 2 ^ suc k / 2 ≡ m * 2 ^ k = omega (arith, ap (λ (t : ℕ). m * t) (two_pow_suc k)) in
    let o : m * 2 ^ suc k % 2 ≡ 0 = omega (arith, ap (λ (t : ℕ). m * t) (two_pow_suc k)) in
    rw (bit_and_step a (m * 2 ^ suc k), e, o, bit_and_high k (a / 2) m, half-div k a)
      (omega (arith, ap (λ (t : ℕ). bit_and (a / 2 ^ suc k) m * t) (two_pow_suc k)))

bit_or-zero_below : (n a : ℕ) → a ≤ n → bit_or a 0 ≡ a
bit_or-zero_below n zero h = refl
bit_or-zero_below zero (suc a) h = absurd (omega arith)
bit_or-zero_below (suc n) (suc a) h =
    omega (arith, bit_or_step (suc a) 0, bit_or-zero_below n (suc a / 2) (omega arith))

pub bit_or-zero : (a : ℕ) → bit_or a 0 ≡ a
bit_or-zero a = bit_or-zero_below a a (omega arith)

-- `|` of disjoint fields is their sum.
pub bit_or_fields : (k q r : ℕ) → r < 2 ^ k → bit_or (q * 2 ^ k) r ≡ q * 2 ^ k + r
bit_or_fields zero q r h = let e : r ≡ 0 = omega arith in rw e (ground (arith, bit_or-zero q))
bit_or_fields (suc k) q r h =
    let half : q * 2 ^ suc k ≡ 2 * (q * 2 ^ k) =
      omega (arith, ap (λ (t : ℕ). q * t) (two_pow_suc k)) in
    let down : q * 2 ^ suc k / 2 ≡ q * 2 ^ k = omega arith in
    let ih = bit_or_fields k q (r / 2) (omega (arith, two_pow_suc k)) in
    rw (bit_or_step (q * 2 ^ suc k) r, down, ih) (omega arith)

differ_zero : (a : ℕ) → differ a 0 ≡ a
differ_zero zero = refl
differ_zero (suc a) = refl

-- `^` with a mask whose `k` low bits are clear leaves those bits alone.
pub bit_xor_fields :
    (k q p r : ℕ) → r < 2 ^ k → bit_xor (q * 2 ^ k + r) (p * 2 ^ k) ≡ bit_xor q p * 2 ^ k + r
bit_xor_fields zero q p r h = let e : r ≡ 0 = omega arith in rw e (ground arith)
bit_xor_fields (suc k) q p r h =
    let two = two_pow_suc k in
    let down : (q * 2 ^ suc k + r) / 2 ≡ q * 2 ^ k + r / 2 =
      omega (arith, ap (λ (t : ℕ). q * t) two) in
    let down' : p * 2 ^ suc k / 2 ≡ p * 2 ^ k = omega (arith, ap (λ (t : ℕ). p * t) two) in
    let low : (q * 2 ^ suc k + r) % 2 ≡ r % 2 = omega (arith, ap (λ (t : ℕ). q * t) two) in
    let low' : p * 2 ^ suc k % 2 ≡ 0 = omega (arith, ap (λ (t : ℕ). p * t) two) in
    let ih = bit_xor_fields k q p (r / 2) (omega (arith, two)) in
    rw (bit_xor_step (q * 2 ^ suc k + r) (p * 2 ^ suc k), down, down', low, low', ih)
      (ground (arith, ap (λ (t : ℕ). bit_xor q p * t) two, differ_zero (r % 2)))

bit_or_div : (k a b : ℕ) → bit_or a b / 2 ^ k ≡ bit_or (a / 2 ^ k) (b / 2 ^ k)
bit_or_div zero a b = ground arith
bit_or_div (suc k) a b =
    let half : bit_or a b / 2 ≡ bit_or (a / 2) (b / 2) = omega (arith, bit_or_step a b) in
    rw (← half-div k (bit_or a b), half, bit_or_div k (a / 2) (b / 2), half-div k a, half-div k b)
      refl

-- A flag that was just set is set.
pub bit_or-IsSet : (k a : ℕ) → bit_and (bit_or a (2 ^ k)) (1 * 2 ^ k) ≡ 2 ^ k
bit_or-IsSet k a =
    let one : 2 ^ k / 2 ^ k ≡ 1 =
      ap (λ (t : ℕ). t / 2 ^ k) (sym (mul-one (2 ^ k))) ∙ mul-div_cancel_left 1 (two_pow_pos k) in
    let odd : bit_and (bit_or (a / 2 ^ k) 1) 1 ≡ 1 =
      omega (arith, bit_and_low 1 (bit_or (a / 2 ^ k) 1), bit_or_step (a / 2 ^ k) 1) in
    rw (bit_and_high k (bit_or a (2 ^ k)) 1, bit_or_div k a (2 ^ k), one, odd) (omega arith)
