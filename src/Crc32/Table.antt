-- ===== src/Crc32/Table.antt =====
-- The table of crc32.c against the shift register that it stands for: eight shifts of one bit with
-- the polynomial 0xedb88320 for each byte.
use Prim.Native.Nat.{bit_xor}
use ssh_1_history.Prelude.{
  ℕ, zero, suc, ◌+◌, ◌*◌, ◌/◌, ◌%◌, ◌^◌, ◌<◌, ◌≡◌, refl, sym, ap, ap₂, ◌∙◌, true, List, [], ◌∷◌,
  get_or, All, arith, ◌==◌, ==_iff, if◌then◌else◌,
}
use ssh_1_history.Prelude.Bits.{bit_xor_step}
use ssh_1_history.Prelude.Bits.Xor.{xor_comm, xor_assoc, xor-zero, xor_div, xor_fields}
use ssh_1_history.Prelude.Range.{all_below, all_below_sound}
use native.Mathlib.Nat.{pow-suc}
use ssh_1_history.Prelude.Bits.Fields.{and_mask}
use ssh_1_history.Crc32.{crc32_tab, crc32_update, crc32_from, crc32}

abbrev pub IsByte : ℕ → Type 0
IsByte c = c < 2 ^ 8

-- What is added to the register when the bit that leaves it is `b`.
abbrev pub feedback : ℕ → ℕ
feedback b = if b == 1 then 0xedb88320 else 0

unfoldable pub shift_bit : ℕ → ℕ
shift_bit x = bit_xor (x / 2) (feedback (x % 2))

unfoldable pub shift_bits : ℕ → ℕ → ℕ
shift_bits zero x = x
shift_bits (suc k) x = shift_bits k (shift_bit x)

unfoldable pub bitwise_from : ℕ → List ℕ → ℕ
bitwise_from r [] = r
bitwise_from r (c ∷ s) = bitwise_from (shift_bits 8 (bit_xor r c)) s

-- Both bits' feedback add up to the feedback of their sum.
feedback_add : (a b : ℕ) → feedback ((a + b) % 2) ≡ bit_xor (feedback (a % 2)) (feedback (b % 2))
feedback_add a b = go (a % 2) (b % 2) (omega arith) (omega arith) ((a + b) % 2) (omega arith)
  where
    go :
        (x y : ℕ)
        → x < 2
        → y < 2
        → (z : ℕ) → z ≡ (x + y) % 2
        → feedback z ≡ bit_xor (feedback x) (feedback y)
    go zero zero p q z e = rw e
    go zero (suc zero) p q z e = rw e
    go (suc zero) zero p q z e = rw e
    go (suc zero) (suc zero) p q z e = rw e
    go zero (suc (suc y)) p q z e = absurd (omega arith)
    go (suc zero) (suc (suc y)) p q z e = absurd (omega arith)
    go (suc (suc x)) y p q z e = absurd (omega arith)

-- Exchange of the middle terms of a sum of two sums.
pub xor_exchange :
    (a b c d : ℕ) → bit_xor (bit_xor a b) (bit_xor c d) ≡ bit_xor (bit_xor a c) (bit_xor b d)
xor_exchange a b c d =
    xor_assoc a b (bit_xor c d)
    ∙ ap (λ t. bit_xor a t)
        (sym (xor_assoc b c d) ∙ ap (λ t. bit_xor t d) (xor_comm b c) ∙ xor_assoc c b d)
    ∙ sym (xor_assoc a c (bit_xor b d))

pub shift_bit-xor : (a b : ℕ) → shift_bit (bit_xor a b) ≡ bit_xor (shift_bit a) (shift_bit b)
unfolding shift_bit
shift_bit-xor a b =
    ap₂ bit_xor half (ap feedback low ∙ feedback_add a b) ∙ xor_exchange (a / 2) (b / 2) _ _
  where
    half : bit_xor a b / 2 ≡ bit_xor (a / 2) (b / 2)
    half = omega (arith, bit_xor_step a b)

    low : bit_xor a b % 2 ≡ (a + b) % 2
    low = omega (arith, bit_xor_step a b)

pub shift_bits-xor :
    (k a b : ℕ) → shift_bits k (bit_xor a b) ≡ bit_xor (shift_bits k a) (shift_bits k b)
unfolding shift_bits
shift_bits-xor zero a b = refl
shift_bits-xor (suc k) a b =
    ap (shift_bits k) (shift_bit-xor a b) ∙ shift_bits-xor k (shift_bit a) (shift_bit b)

shift_bit_even : (m n : ℕ) → n ≡ 2 * m → shift_bit n ≡ m
unfolding shift_bit
shift_bit_even m n e =
    let half : n / 2 ≡ m = omega arith in
    let low : n % 2 ≡ 0 = omega arith in rw (half, low) (xor_comm m 0 ∙ xor-zero m)

-- Bits above the lowest `k` only move down.
shift_bits_high : (k q : ℕ) → shift_bits k (q * 2 ^ k) ≡ q
unfolding shift_bits
shift_bits_high zero q = omega arith
shift_bits_high (suc k) q =
    ap (shift_bits k) (
      shift_bit_even (q * 2 ^ k) (q * 2 ^ suc k)
        (omega (arith, ap (λ (t : ℕ). q * t) (pow-suc 2 k))))
    ∙ shift_bits_high k q

-- Eight shifts split into the bits that move down and the feedback of the lowest byte.
shift_bits_split : (x : ℕ) → shift_bits 8 x ≡ bit_xor (shift_bits 8 (x % 2 ^ 8)) (x / 2 ^ 8)
shift_bits_split x =
    ap (shift_bits 8) parts
    ∙ shift_bits-xor 8 (x / 2 ^ 8 * 2 ^ 8) (x % 2 ^ 8)
    ∙ xor_comm _ (shift_bits 8 (x % 2 ^ 8))
    ∙ ap (bit_xor (shift_bits 8 (x % 2 ^ 8))) (shift_bits_high 8 (x / 2 ^ 8))
  where
    parts : x ≡ bit_xor (x / 2 ^ 8 * 2 ^ 8) (x % 2 ^ 8)
    parts = omega (arith, xor_fields 8 (x / 2 ^ 8) (x % 2 ^ 8) (omega arith))

-- Every entry of the table is the byte's eight shifts.
table_checked : all_below 256 (λ i. get_or crc32_tab i 0 == shift_bits 8 i) ≡ true
unfolding all_below crc32_tab shift_bits shift_bit
table_checked = refl

pub table_entry : (i : ℕ) → i < 2 ^ 8 → get_or crc32_tab i 0 ≡ shift_bits 8 i
table_entry i h = (==_iff _ (shift_bits 8 i)).0 (all_below_sound 256 _ i table_checked h)

pub crc32_update-eq-shift_bits :
    (r c : ℕ) → IsByte c → crc32_update r c ≡ shift_bits 8 (bit_xor r c)
unfolding crc32_update
crc32_update-eq-shift_bits r c h =
    ap₂ bit_xor
      (ap (λ i. get_or crc32_tab i 0) (and_mask 8 (bit_xor r c))
        ∙ table_entry (bit_xor r c % 2 ^ 8) (omega arith))
      (sym (xor_div 8 r c ∙ ap (bit_xor (r / 2 ^ 8)) (omega arith) ∙ xor_comm _ 0 ∙ xor-zero _))
    ∙ sym (shift_bits_split (bit_xor r c))

-- From any register, the table-driven loop computes what the shift register computes, bit by bit,
-- over every sequence of bytes.
pub crc32_from-eq-bitwise_from :
    (r : ℕ) (s : List ℕ) → All IsByte s → crc32_from r s ≡ bitwise_from r s
unfolding crc32_from bitwise_from
crc32_from-eq-bitwise_from r [] h = refl
crc32_from-eq-bitwise_from r (c ∷ s) h =
    ap (λ t. crc32_from t s) (crc32_update-eq-shift_bits r c h.0)
    ∙ crc32_from-eq-bitwise_from (shift_bits 8 (bit_xor r c)) s h.1

-- `crc32`, which looks every byte up in its table, equals the bit-by-bit division by the
-- polynomial 0xedb88320 (reflected, register starting at 0), on every sequence of bytes.
pub crc32-eq-bitwise : (s : List ℕ) → All IsByte s → crc32 s ≡ bitwise_from 0 s
unfolding crc32
crc32-eq-bitwise s h = crc32_from-eq-bitwise_from 0 s h
