-- ===== src/Prelude/Words.antt =====
-- Machine words as native numbers: a mask of low ones is a remainder, whatever its width.
use Prim.Native.Nat.{ℕ, zero, suc, ◌+◌, ◌-◌, ◌*◌, ◌/◌, ◌%◌, ◌^◌, ◌≤◌, ◌<◌, min, bit_and, digits}
use Prim.Native.Nat.{bit_and-bitwise}
use mathlib.Core.Path.{◌≡◌, refl, ap, ◌∙◌}
use native.Mathlib.Nat.{two-pow-succ, one-le-pow, div-add-mod, mul-add-mod_self_left}
use native.Mathlib.Nat.{mod-eq_of_lt, mod-lt}
use native.Mathlib.Omega.{arith}

abbrev pub u16_mod : ℕ
u16_mod = 2 ^ 16

abbrev pub u32_mod : ℕ
u32_mod = 2 ^ 32

abbrev pub u64_mod : ℕ
u64_mod = 2 ^ 64

-- The digits of the smaller number, lowest first.
abbrev low_digits : ℕ → ℕ → ℕ → ℕ
low_digits = digits (λ b. zero) min

low_digits-zero : (n a : ℕ) → low_digits n a 0 ≡ 0
low_digits-zero zero a = refl
low_digits-zero (suc n) zero = refl
low_digits-zero (suc n) (suc a) = omega (arith, low_digits-zero n (suc a / 2))

-- One more binary digit of a remainder.
mod_double : (a m : ℕ) → 0 < m → a % (m + m) ≡ a / 2 % m * 2 + a % 2
mod_double a m h =
    ap (λ t. t % (m + m)) split
    ∙ mul-add-mod_self_left (m + m) (a / 2 / m) (a / 2 % m * 2 + a % 2)
    ∙ mod-eq_of_lt (omega (arith, mod-lt (a / 2) h))
  where
    split : a ≡ (m + m) * (a / 2 / m) + (a / 2 % m * 2 + a % 2)
    split = omega (arith, div-add-mod (a / 2) m)

pow_pos : (k : ℕ) → 0 < 2 ^ k
pow_pos k = one-le-pow k 2 (omega arith)

low_digits-mask : (k n a : ℕ) → a ≤ n → low_digits n a (2 ^ k - 1) ≡ a % 2 ^ k
low_digits-mask zero n a h = omega (arith, low_digits-zero n a)
low_digits-mask (suc k) zero a h = omega (arith, pow_pos (suc k))
low_digits-mask (suc k) (suc n) zero h = omega (arith, pow_pos (suc k))
low_digits-mask (suc k) (suc n) (suc a) h =
    rw (halves, odd, low_digits-mask k n (suc a / 2) (omega arith), two-pow-succ k)
      (omega (arith, mod_double (suc a) (2 ^ k) (pow_pos k)))
  where
    halves : (2 ^ suc k - 1) / 2 ≡ 2 ^ k - 1
    halves = omega (arith, two-pow-succ k, pow_pos k)

    odd : (2 ^ suc k - 1) % 2 ≡ 1
    odd = omega (arith, two-pow-succ k, pow_pos k)

pub bit_and-mask : (a k : ℕ) → bit_and a (2 ^ k - 1) ≡ a % 2 ^ k
bit_and-mask a k = bit_and-bitwise a (2 ^ k - 1) ∙ low_digits-mask k a a (omega arith)
