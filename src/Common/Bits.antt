-- ===== src/Common/Bits.antt =====
-- Bit operations at variables: one equation for the lowest digit, and the masks of the program.
use Prim.Native.Nat.{
  ℕ, zero, suc, ◌+◌, ◌-◌, ◌*◌, ◌/◌, ◌%◌, ◌^◌, ◌≤◌, ◌<◌, min, ◌∣◌, bit_and, digits, bit_and-bitwise,
}
use mathlib.Core.Path.{◌≡◌, refl, ap, ◌∙◌}
use native.Mathlib.Nat.{
  pow-suc, one-le-pow, pow-le-pow_right, mod-lt, mod-eq_of_lt, div-add-mod, mul-add-mod_self_left,
  dvd_refl, dvd-mul_right_of_dvd,
}
use native.Mathlib.Omega.{arith}

-- More fuel than the first number changes nothing.
abbrev conj : ℕ → ℕ → ℕ → ℕ
conj fuel a b = digits (λ b. 0) min fuel a b

conj_more : (fuel a b : ℕ) → a ≤ fuel → conj (suc fuel) a b ≡ conj fuel a b
conj_more fuel zero b h = elim fuel as (λ k. conj (suc k) 0 b ≡ conj k 0 b) [
  | zero ↦ refl
  | suc k ↦ refl
]
conj_more zero (suc a) b h = absurd (omega arith)
conj_more (suc k) (suc a) b h = omega (arith, conj_more k (suc a / 2) (b / 2) (omega arith))

conj_extra : (extra a b : ℕ) → conj (extra + a) a b ≡ conj a a b
conj_extra zero a b = rw (zero_sum a)
  where
    zero_sum : (n : ℕ) → 0 + n ≡ n
    zero_sum n = omega arith
conj_extra (suc e) a b = rw (suc_sum e a) (conj_more (e + a) a b (omega arith) ∙ conj_extra e a b)
  where
    suc_sum : (m n : ℕ) → suc m + n ≡ suc (m + n)
    suc_sum m n = omega arith

conj_enough : (fuel a b : ℕ) → a ≤ fuel → conj fuel a b ≡ conj a a b
conj_enough fuel a b h =
    let e : fuel ≡ (fuel - a) + a = omega arith in rw e (conj_extra (fuel - a) a b)

pub bit_and_lowest : (a b : ℕ) → bit_and a b ≡ bit_and (a / 2) (b / 2) * 2 + min (a % 2) (b % 2)
bit_and_lowest zero b = omega (arith, bit_and-bitwise 0 b, bit_and-bitwise 0 (b / 2))
bit_and_lowest (suc a) b = omega (
  arith,
  bit_and-bitwise (suc a) b,
  bit_and-bitwise (suc a / 2) (b / 2),
  conj_enough a (suc a / 2) (b / 2) (omega arith),
)

nothing_set : (fuel a : ℕ) → a ≤ fuel → bit_and a 0 ≡ 0
nothing_set zero zero h = refl
nothing_set zero (suc a) h = absurd (omega arith)
nothing_set (suc k) a h = omega (arith, bit_and_lowest a 0, nothing_set k (a / 2) (omega arith))

-- The remainder by twice a number, from the one by the number.
pub mod_double : (p a : ℕ) → 0 < p → a % (2 * p) ≡ 2 * ((a / 2) % p) + a % 2
mod_double p a h =
    ap (λ (x : ℕ). x % (2 * p)) split
    ∙ mul-add-mod_self_left (2 * p) (a / 2 / p) (2 * ((a / 2) % p) + a % 2)
    ∙ mod-eq_of_lt (omega (arith, mod-lt (a / 2) h))
  where
    split : a ≡ 2 * p * (a / 2 / p) + (2 * ((a / 2) % p) + a % 2)
    split = omega (arith, div-add-mod (a / 2) p)

-- A mask of `k` ones keeps the remainder by `2 ^ k`.
pub bit_and-mask : (k a : ℕ) → bit_and a (2 ^ k - 1) ≡ a % 2 ^ k
bit_and-mask zero a = omega (arith, nothing_set a a (omega arith))
bit_and-mask (suc k) a = rw doubled (
    omega (
      arith,
      bit_and_lowest a (2 * 2 ^ k - 1),
      half,
      one-le-pow k 2 (omega arith),
      bit_and-mask k (a / 2),
      mod_double (2 ^ k) a (one-le-pow k 2 (omega arith)),
    ))
  where
    doubled : 2 ^ suc k ≡ 2 * 2 ^ k
    doubled = omega (arith, pow-suc 2 k)

    half : bit_and (a / 2) ((2 * 2 ^ k - 1) / 2) ≡ bit_and (a / 2) (2 ^ k - 1)
    half = ap (bit_and (a / 2)) (omega (arith, one-le-pow k 2 (omega arith)))

pow-dvd : (d k : ℕ) → 2 ^ k ∣ 2 ^ (d + k)
pow-dvd zero k = let e : 0 + k ≡ k = omega arith in rw e (dvd_refl (2 ^ k))
pow-dvd (suc d) k =
    let e : suc d + k ≡ suc (d + k) = omega arith in
    rw (e, pow-suc) (dvd-mul_right_of_dvd (2 ^ k) (pow-dvd d k) 2)

-- The powers of two below the range of a 32-bit counter.
pub pow_in_word : (k : ℕ) → k < 32 → (0 < 2 ^ k) × (2 ^ k ≤ 2 ^ 31) × (2 ^ k ∣ 2 ^ 32)
pow_in_word k h = (
  one-le-pow k 2 (omega arith),
  pow-le-pow_right (omega arith) {j = 31} (omega arith),
  rw exponent at (pow-dvd (32 - k) k),
)
  where
    exponent : 32 - k + k ≡ 32
    exponent = omega arith
