-- ===== src/Prelude/Bits/Xor.antt =====
-- The laws of `^`.
use Prim.Native.Nat.{ℕ, zero, suc, ◌+◌, ◌*◌, ◌/◌, ◌%◌, ◌^◌, ◌≤◌, ◌<◌, bit_xor, bit_xor-bitwise}
use mathlib.Core.Path.{◌≡◌, refl, ap, ap₂, sym, ◌∙◌}
use native.Mathlib.Nat.{pow-suc}
use native.Mathlib.Omega.{arith}
use package.ssh_1_history.Prelude.Bits.Digits.{bit_xor_step, div_pow_suc, div-one}

pub xor-zero : (a : ℕ) → bit_xor 0 a ≡ a
xor-zero a = bit_xor-bitwise 0 a

xor_comm_fuel : (n a b : ℕ) → a + b ≤ n → bit_xor a b ≡ bit_xor b a
xor_comm_fuel zero zero zero h = refl
xor_comm_fuel zero zero (suc b) h = absurd (omega arith)
xor_comm_fuel zero (suc a) b h = absurd (omega arith)
xor_comm_fuel (suc n) zero zero h = refl
xor_comm_fuel (suc n) zero (suc b) h = omega (
  arith,
  bit_xor_step 0 (suc b),
  bit_xor_step (suc b) 0,
  xor_comm_fuel n 0 (suc b / 2) (omega arith),
)
xor_comm_fuel (suc n) (suc a) b h = omega (
  arith,
  bit_xor_step (suc a) b,
  bit_xor_step b (suc a),
  xor_comm_fuel n (suc a / 2) (b / 2) (omega arith),
)

pub xor_comm : (a b : ℕ) → bit_xor a b ≡ bit_xor b a
xor_comm a b = xor_comm_fuel (a + b) a b (omega arith)

xor_assoc_fuel : (n a b c : ℕ) → a ≤ n → bit_xor (bit_xor a b) c ≡ bit_xor a (bit_xor b c)
xor_assoc_fuel n zero b c h = rw (xor-zero b, xor-zero (bit_xor b c))
xor_assoc_fuel zero (suc a) b c h = absurd (omega arith)
xor_assoc_fuel (suc n) (suc a) b c h =
    let s : bit_xor (suc a) b ≡ bit_xor (suc a / 2) (b / 2) * 2 + (suc a + b) % 2 =
      bit_xor_step (suc a) b in
    let t : bit_xor b c ≡ bit_xor (b / 2) (c / 2) * 2 + (b + c) % 2 = bit_xor_step b c in
    let s2 : bit_xor (suc a) b / 2 ≡ bit_xor (suc a / 2) (b / 2) = omega (arith, s) in
    let t2 : bit_xor b c / 2 ≡ bit_xor (b / 2) (c / 2) = omega (arith, t) in
    let u : bit_xor (bit_xor (suc a) b) c
        ≡ bit_xor (bit_xor (suc a / 2) (b / 2)) (c / 2) * 2 + (bit_xor (suc a) b + c) % 2 =
      bit_xor_step (bit_xor (suc a) b) c
      ∙ ap (λ k. bit_xor k (c / 2) * 2 + (bit_xor (suc a) b + c) % 2) s2 in
    let v : bit_xor (suc a) (bit_xor b c)
        ≡ bit_xor (suc a / 2) (bit_xor (b / 2) (c / 2)) * 2 + (suc a + bit_xor b c) % 2 =
      bit_xor_step (suc a) (bit_xor b c)
      ∙ ap (λ k. bit_xor (suc a / 2) k * 2 + (suc a + bit_xor b c) % 2) t2 in
    omega (arith, s, t, u, v, xor_assoc_fuel n (suc a / 2) (b / 2) (c / 2) (omega arith))

pub xor_assoc : (a b c : ℕ) → bit_xor (bit_xor a b) c ≡ bit_xor a (bit_xor b c)
xor_assoc a b c = xor_assoc_fuel a a b c (omega arith)

xor_self_fuel : (n a : ℕ) → a ≤ n → bit_xor a a ≡ 0
xor_self_fuel n zero h = refl
xor_self_fuel zero (suc a) h = absurd (omega arith)
xor_self_fuel (suc n) (suc a) h =
    omega (arith, bit_xor_step (suc a) (suc a), xor_self_fuel n (suc a / 2) (omega arith))

pub xor_self : (a : ℕ) → bit_xor a a ≡ 0
xor_self a = xor_self_fuel a a (omega arith)

-- Masking twice by one value gives the first value back.
pub xor_cancel : (a b : ℕ) → bit_xor (bit_xor a b) b ≡ a
xor_cancel a b = xor_assoc a b b ∙ ap (λ k. bit_xor a k) (xor_self b) ∙ xor_comm a 0 ∙ xor-zero a

pub xor_div : (k a b : ℕ) → bit_xor a b / 2 ^ k ≡ bit_xor (a / 2 ^ k) (b / 2 ^ k)
xor_div zero a b = rw (div-one a, div-one b, div-one (bit_xor a b))
xor_div (suc k) a b =
    div_pow_suc k (bit_xor a b)
    ∙ ap (λ t. t / 2 ^ k) half
    ∙ xor_div k (a / 2) (b / 2)
    ∙ ap₂ bit_xor (sym (div_pow_suc k a)) (sym (div_pow_suc k b))
  where
    half : bit_xor a b / 2 ≡ bit_xor (a / 2) (b / 2)
    half = omega (arith, bit_xor_step a b)

pub xor-lt : (k a b : ℕ) → a < 2 ^ k → b < 2 ^ k → bit_xor a b < 2 ^ k
xor-lt zero zero zero p q = omega arith
xor-lt zero zero (suc b) p q = absurd (omega arith)
xor-lt zero (suc a) b p q = absurd (omega arith)
xor-lt (suc k) a b p q = omega (
  arith,
  pow-suc 2 k,
  bit_xor_step a b,
  xor-lt k (a / 2) (b / 2) (omega (arith, pow-suc 2 k)) (omega (arith, pow-suc 2 k)),
)

-- Fields that do not overlap add up.
pub xor_fields : (k q r : ℕ) → r < 2 ^ k → bit_xor (q * 2 ^ k) r ≡ q * 2 ^ k + r
xor_fields zero q r h =
    let e : r ≡ 0 = omega arith in
    rw e (xor_comm (q * 2 ^ 0) 0 ∙ xor-zero (q * 2 ^ 0) ∙ omega arith)
xor_fields (suc k) q r h =
    let e : q * 2 ^ suc k ≡ 2 * (q * 2 ^ k) = omega (arith, ap (λ (t : ℕ). q * t) (pow-suc 2 k)) in
    let half : q * 2 ^ suc k / 2 ≡ q * 2 ^ k = omega (arith, e) in
    let s : bit_xor (q * 2 ^ suc k) r ≡ bit_xor (q * 2 ^ k) (r / 2) * 2 + (q * 2 ^ suc k + r) % 2 =
      bit_xor_step (q * 2 ^ suc k) r
      ∙ ap (λ t. bit_xor t (r / 2) * 2 + (q * 2 ^ suc k + r) % 2) half in
    omega (arith, s, e, xor_fields k q (r / 2) (omega (arith, pow-suc 2 k)))
