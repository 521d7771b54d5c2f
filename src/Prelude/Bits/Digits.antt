-- ===== src/Prelude/Bits/Digits.antt =====
-- The native operations mean `bitwise`, a recursion on binary digits with a count of digits to go.
-- Here the count is dropped.
use Prim.Native.Nat.{
  ℕ, zero, suc, ◌+◌, ◌*◌, ◌/◌, ◌%◌, ◌^◌, ◌≤◌, ◌<◌, min, max, differ, digits, bitwise, bit_and,
  bit_or, bit_xor, bit_and-bitwise, bit_or-bitwise, bit_xor-bitwise,
}
use mathlib.Core.Path.{◌≡◌, refl, ap, ap₂, sym, ◌∙◌}
use native.Mathlib.Nat.{pow-suc, mul_comm, div-div-eq-div-mul, mod-eq-sub-mul-div, div-add-mod}
use native.Mathlib.Omega.{arith}

module _ (last : ℕ → ℕ) (digit : ℕ → ℕ → ℕ) where
  count_irrelevant :
      (i : ℕ) (x y j : ℕ) → x ≤ i → x ≤ j → digits last digit i x y ≡ digits last digit j x y
  count_irrelevant zero zero y zero h k = refl
  count_irrelevant (suc i) zero y (suc j) h k = refl
  count_irrelevant zero zero y (suc j) h k = refl
  count_irrelevant (suc i) zero y zero h k = refl
  count_irrelevant zero (suc x) y j h k = absurd (omega arith)
  count_irrelevant (suc i) (suc x) y zero h k = absurd (omega arith)
  count_irrelevant (suc i) (suc x) y (suc j) h k =
      omega (arith, count_irrelevant i (suc x / 2) (y / 2) j (omega arith) (omega arith))

  -- The digit in the lowest place, below those of the halves.
  lowest_place :
      (y x : ℕ)
      → digit (suc x % 2) (y % 2) + 2 * bitwise last digit (suc x / 2) (y / 2)
        ≡ bitwise last digit (suc x) y
  lowest_place y x =
      omega (arith, count_irrelevant x (suc x / 2) (y / 2) (suc x / 2) (omega arith) (omega arith))

differ_digits : (x y : ℕ) → x < 2 → y < 2 → differ x y ≡ (x + y) % 2
differ_digits zero y p q = omega arith
differ_digits (suc zero) zero p q = refl
differ_digits (suc zero) (suc zero) p q = refl
differ_digits (suc zero) (suc (suc y)) p q = absurd (omega arith)
differ_digits (suc (suc x)) y p q = absurd (omega arith)

pub bit_xor_step : (a b : ℕ) → bit_xor a b ≡ bit_xor (a / 2) (b / 2) * 2 + (a + b) % 2
bit_xor_step zero b = simp bit_xor-bitwise (omega arith)
bit_xor_step (suc a) b = omega (
  arith,
  bit_xor-bitwise (suc a) b,
  bit_xor-bitwise (suc a / 2) (b / 2),
  lowest_place (λ y. y) differ b a,
  differ_digits (suc a % 2) (b % 2) (omega arith) (omega arith),
)

pub bit_and_step : (x y : ℕ) → bit_and x y ≡ min (x % 2) (y % 2) + 2 * bit_and (x / 2) (y / 2)
bit_and_step zero y = simp bit_and-bitwise (omega arith)
bit_and_step (suc x) y = simp bit_and-bitwise (sym (lowest_place (λ c. 0) min y x))

pub bit_or_step : (x y : ℕ) → bit_or x y ≡ max (x % 2) (y % 2) + 2 * bit_or (x / 2) (y / 2)
bit_or_step zero y = simp bit_or-bitwise (omega arith)
bit_or_step (suc x) y = simp bit_or-bitwise (sym (lowest_place (λ c. c) max y x))

pub div-one : (x : ℕ) → x / 2 ^ 0 ≡ x
div-one x = omega arith

pub div_pow_suc : (k x : ℕ) → x / 2 ^ suc k ≡ x / 2 / 2 ^ k
div_pow_suc k x =
    ap (λ t. x / t) (pow-suc 2 k ∙ mul_comm (2 ^ k) 2) ∙ sym (div-div-eq-div-mul x 2 (2 ^ k))

pub mod_pow_suc : (k x : ℕ) → x % 2 ^ suc k ≡ x / 2 % 2 ^ k * 2 + x % 2
mod_pow_suc k x =
    let q : ℕ = x / 2 / 2 ^ k in
    let e : 2 ^ suc k * (x / 2 ^ suc k) ≡ 2 * (2 ^ k * q) =
      ap₂ ◌*◌ (pow-suc 2 k) (div_pow_suc k x) ∙ omega arith in
    omega (arith, e, mod-eq-sub-mul-div x (2 ^ suc k), div-add-mod (x / 2) (2 ^ k))
