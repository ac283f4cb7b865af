-- ===== src/Common/Mask.antt =====
-- Masks: where `m` is a power of two, `n & (m - 1)` is `n % m`.
use Prim.Native.Nat.{bit_and, digits, min, bit_and-bitwise}
use native.Mathlib.Nat.{div-add-mod, div-div-eq-div-mul, mul_assoc, zero-mod}
use Prim.Native.Nat.{ℕ, zero, suc, ◌+◌, ◌-◌, ◌*◌, ◌/◌, ◌%◌, ◌^◌, ◌≤◌, ◌<◌}
use mathlib.Core.Path.{◌≡◌, refl, sym, ap, ◌∙◌}
use native.Mathlib.Omega.{arith}

pub pow_positive : (i : ℕ) → 0 < 2 ^ i
pow_positive zero = omega arith
pow_positive (suc i) = omega (arith, pow_positive i)

mask_half : (i : ℕ) → (2 ^ suc i - 1) / 2 ≡ 2 ^ i - 1
mask_half i = omega (arith, pow_positive i)

mask_odd : (i : ℕ) → (2 ^ suc i - 1) % 2 ≡ 1
mask_odd i = omega (arith, pow_positive i)

mod_step : (p a : ℕ) → (a / 2) % p * 2 + a % 2 ≡ a % (2 * p)
mod_step p a = ground (
  arith,
  div-add-mod a 2,
  div-add-mod (a / 2) p,
  div-add-mod a (2 * p),
  div-div-eq-div-mul a 2 p,
  mul_assoc 2 p (a / 2 / p),
)

mod_pow : (i a : ℕ) → a / 2 % 2 ^ i * 2 + a % 2 ≡ a % 2 ^ suc i
mod_pow i a = mod_step (2 ^ i) a ∙ ap (λ m. a % m) (double i)
  where
    double : (i : ℕ) → 2 * 2 ^ i ≡ 2 ^ suc i
    double i = omega arith

-- `bit_and` digit by digit, with a fuel.
abbrev ands : ℕ → ℕ → ℕ → ℕ
ands = digits (λ b. zero) min

ands-zero : (fuel a : ℕ) → ands fuel a 0 ≡ 0
ands-zero zero zero = refl
ands-zero zero (suc a) = refl
ands-zero (suc fuel) zero = refl
ands-zero (suc fuel) (suc a) = omega (arith, ands-zero fuel (suc a / 2))

digit : (a : ℕ) → min (a % 2) 1 ≡ a % 2
digit a = omega arith

ands_mask : (i fuel a : ℕ) → a ≤ fuel → ands fuel a (2 ^ i - 1) ≡ a % 2 ^ i
ands_mask i zero zero h = sym (zero-mod (2 ^ i))
ands_mask i zero (suc a) h = elim h [ ]
ands_mask i (suc fuel) zero h = sym (zero-mod (2 ^ i))
ands_mask zero (suc fuel) (suc a) h = omega (arith, ands-zero fuel (suc a / 2))
ands_mask (suc i) (suc fuel) (suc a) h =
    let rest = ands_mask i fuel (suc a / 2) (omega arith) in
    ap (λ m. ands fuel (suc a / 2) m * 2 + min (suc a % 2) ((2 ^ suc i - 1) % 2)) (mask_half i)
    ∙ (ap (λ m. ands fuel (suc a / 2) (2 ^ i - 1) * 2 + min (suc a % 2) m) (mask_odd i)
        ∙ omega (arith, digit (suc a), rest, mod_pow i (suc a)))

pub bit_and-pow : (i n : ℕ) → bit_and n (2 ^ i - 1) ≡ n % 2 ^ i
bit_and-pow i n = bit_and-bitwise n (2 ^ i - 1) ∙ ands_mask i n n (omega arith)
