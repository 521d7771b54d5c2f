-- ===== src/Prelude/Bits/Fields.antt =====
-- A mask of low ones is a remainder, and `|` of disjoint fields is a sum, at every width.
use Prim.Native.Nat.{ℕ, zero, suc, ◌+◌, ◌-◌, ◌*◌, ◌/◌, ◌%◌, ◌^◌, ◌≤◌, ◌<◌, min, bit_and, bit_or}
use mathlib.Core.Path.{◌≡◌, refl, ap, ◌∙◌}
use native.Mathlib.Nat.{pow-suc, one-le-pow}
use native.Mathlib.Omega.{arith}
use package.ssh_1_history.Prelude.Bits.Digits.{bit_and_step, bit_or_step, mod_pow_suc}

and-zero_fuel : (n a : ℕ) → a ≤ n → bit_and a 0 ≡ 0
and-zero_fuel n zero h = refl
and-zero_fuel zero (suc a) h = absurd (omega arith)
and-zero_fuel (suc n) (suc a) h =
    omega (arith, bit_and_step (suc a) 0, and-zero_fuel n (suc a / 2) (omega arith))

or-zero_fuel : (n a : ℕ) → a ≤ n → bit_or a 0 ≡ a
or-zero_fuel n zero h = refl
or-zero_fuel zero (suc a) h = absurd (omega arith)
or-zero_fuel (suc n) (suc a) h =
    omega (arith, bit_or_step (suc a) 0, or-zero_fuel n (suc a / 2) (omega arith))

pub and_mask : (k a : ℕ) → bit_and a (2 ^ k - 1) ≡ a % 2 ^ k
and_mask zero a = and-zero_fuel a a (omega arith) ∙ omega arith
and_mask (suc k) a =
    let one : 1 ≤ 2 ^ k = one-le-pow k 2 (omega arith) in
    let half : (2 ^ suc k - 1) / 2 ≡ 2 ^ k - 1 = omega (arith, pow-suc 2 k) in
    let s : bit_and a (2 ^ suc k - 1)
        ≡ min (a % 2) ((2 ^ suc k - 1) % 2) + 2 * bit_and (a / 2) (2 ^ k - 1) =
      bit_and_step a (2 ^ suc k - 1)
      ∙ ap (λ t. min (a % 2) ((2 ^ suc k - 1) % 2) + 2 * bit_and (a / 2) t) half in
    omega (arith, s, and_mask k (a / 2), mod_pow_suc k a, pow-suc 2 k)

pub or_fields : (k q r : ℕ) → r < 2 ^ k → bit_or (q * 2 ^ k) r ≡ q * 2 ^ k + r
or_fields zero q r h =
    let e : r ≡ 0 = omega arith in
    rw e (or-zero_fuel (q * 2 ^ 0) (q * 2 ^ 0) (omega arith) ∙ omega arith)
or_fields (suc k) q r h =
    let e : q * 2 ^ suc k ≡ 2 * (q * 2 ^ k) = omega (arith, ap (λ (t : ℕ). q * t) (pow-suc 2 k)) in
    let half : q * 2 ^ suc k / 2 ≡ q * 2 ^ k = omega (arith, e) in
    ground (
      arith,
      bit_or_step (q * 2 ^ suc k) r,
      half,
      e,
      or_fields k q (r / 2) (omega (arith, pow-suc 2 k)),
    )

zero-or_fuel : (n a : ℕ) → a ≤ n → bit_or 0 a ≡ a
zero-or_fuel n zero h = refl
zero-or_fuel zero (suc a) h = absurd (omega arith)
zero-or_fuel (suc n) (suc a) h =
    omega (arith, bit_or_step 0 (suc a), zero-or_fuel n (suc a / 2) (omega arith))

-- The same with the low field first.
pub or_fields_low : (k q r : ℕ) → r < 2 ^ k → bit_or r (q * 2 ^ k) ≡ r + q * 2 ^ k
or_fields_low zero q r h =
    let e : r ≡ 0 = omega arith in
    rw e (zero-or_fuel (q * 2 ^ 0) (q * 2 ^ 0) (omega arith) ∙ omega arith)
or_fields_low (suc k) q r h =
    let e : q * 2 ^ suc k ≡ 2 * (q * 2 ^ k) = omega (arith, ap (λ (t : ℕ). q * t) (pow-suc 2 k)) in
    let half : q * 2 ^ suc k / 2 ≡ q * 2 ^ k = omega (arith, e) in
    ground (
      arith,
      bit_or_step r (q * 2 ^ suc k),
      half,
      e,
      or_fields_low k q (r / 2) (omega (arith, pow-suc 2 k)),
    )
