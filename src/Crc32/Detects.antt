-- ===== src/Crc32/Detects.antt =====
-- What the check sum detects: a step of the register loses nothing, so a change of one byte shows.
use Prim.Native.Nat.{bit_xor, bit_and}
use ssh_1_history.Prelude.{
  ℕ, zero, suc, ◌/◌, ◌%◌, ◌^◌, ◌<◌, ◌≡◌, ◌≢◌, sym, ap, ap₂, ◌∙◌, List, [], ◌∷◌, ◌++◌, All, arith,
}
use ssh_1_history.Prelude.Bits.Xor.{xor_div, xor-lt, xor_cancel, xor_comm, xor-zero}
use ssh_1_history.Prelude.Bits.Fields.{and_mask}
use ssh_1_history.Prelude.{get_or}
use ssh_1_history.Crc32.{crc32, crc32_tab, crc32_update, crc32_from}
use ssh_1_history.Crc32.Table.{
  IsByte, feedback, shift_bit, shift_bits, bitwise_from, crc32-eq-bitwise, table_entry,
}

abbrev pub IsWord : ℕ → Type 0
IsWord x = x < 2 ^ 32

feedback-lt : (b : ℕ) → feedback b < 2 ^ 32
feedback-lt b = ground arith

shift_bit-IsWord : (x : ℕ) → IsWord x → IsWord (shift_bit x)
unfolding shift_bit
shift_bit-IsWord x h = xor-lt 32 (x / 2) (feedback (x % 2)) (omega arith) (feedback-lt (x % 2))

-- The highest bit after a step is the lowest bit before it.
shift_bit_top : (x : ℕ) → IsWord x → shift_bit x / 2 ^ 31 ≡ x % 2
unfolding shift_bit
shift_bit_top x h =
    xor_div 31 (x / 2) (feedback (x % 2)) ∙ ap₂ bit_xor (omega arith) high ∙ xor-zero (x % 2)
  where
    high : feedback (x % 2) / 2 ^ 31 ≡ x % 2
    high = ground arith

shift_bit_undo : (x : ℕ) → bit_xor (shift_bit x) (feedback (x % 2)) ≡ x / 2
unfolding shift_bit
shift_bit_undo x = xor_cancel (x / 2) (feedback (x % 2))

shift_bit-injective : (x y : ℕ) → IsWord x → IsWord y → shift_bit x ≡ shift_bit y → x ≡ y
shift_bit-injective x y hx hy e =
    let low : x % 2 ≡ y % 2 =
      sym (shift_bit_top x hx) ∙ ap (λ t. t / 2 ^ 31) e ∙ shift_bit_top y hy in
    let high : x / 2 ≡ y / 2 =
      sym (shift_bit_undo x) ∙ ap₂ bit_xor e (ap feedback low) ∙ shift_bit_undo y in
    omega arith

shift_bits-IsWord : (k x : ℕ) → IsWord x → IsWord (shift_bits k x)
unfolding shift_bits
shift_bits-IsWord zero x h = h
shift_bits-IsWord (suc k) x h = shift_bits-IsWord k (shift_bit x) (shift_bit-IsWord x h)

shift_bits-injective : (k x y : ℕ) → IsWord x → IsWord y → shift_bits k x ≡ shift_bits k y → x ≡ y
unfolding shift_bits
shift_bits-injective zero x y hx hy e = e
shift_bits-injective (suc k) x y hx hy e = shift_bit-injective x y hx hy (
    shift_bits-injective k (shift_bit x) (shift_bit y) (shift_bit-IsWord x hx)
      (shift_bit-IsWord y hy) e)

-- One byte of the loop.
abbrev absorb : ℕ → ℕ → ℕ
absorb r c = shift_bits 8 (bit_xor r c)

absorb-IsWord : (r c : ℕ) → IsWord r → IsByte c → IsWord (absorb r c)
absorb-IsWord r c h k = shift_bits-IsWord 8 (bit_xor r c) (xor-lt 32 r c h (omega arith))

absorb-injective :
    (r c q d : ℕ)
    → IsWord r
    → IsByte c
    → IsWord q
    → IsByte d
    → absorb r c ≡ absorb q d
    → bit_xor r c ≡ bit_xor q d
absorb-injective r c q d h k h' k' =
    shift_bits-injective 8 (bit_xor r c) (bit_xor q d) (xor-lt 32 r c h (omega arith))
      (xor-lt 32 q d h' (omega arith))

bitwise_from-injective :
    (s : List ℕ) (r q : ℕ)
    → All IsByte s
    → IsWord r
    → IsWord q
    → bitwise_from r s ≡ bitwise_from q s
    → r ≡ q
unfolding bitwise_from
bitwise_from-injective [] r q hs hr hq e = e
bitwise_from-injective (c ∷ s) r q hs hr hq e =
    let same : bit_xor r c ≡ bit_xor q c = absorb-injective r c q c hr hs.0 hq hs.0 (
      bitwise_from-injective s (absorb r c) (absorb q c) hs.1 (absorb-IsWord r c hr hs.0)
        (absorb-IsWord q c hq hs.0) e) in
    sym (xor_cancel r c) ∙ ap (λ t. bit_xor t c) same ∙ xor_cancel q c

bitwise_from_change :
    (r : ℕ) (xs ys : List ℕ) (a b : ℕ)
    → IsWord r
    → All IsByte xs
    → All IsByte ys
    → IsByte a
    → IsByte b
    → bitwise_from r (xs ++ (a ∷ ys)) ≡ bitwise_from r (xs ++ (b ∷ ys))
    → a ≡ b
unfolding bitwise_from
bitwise_from_change r [] ys a b hr hx hy ha hb e =
    let same : bit_xor r a ≡ bit_xor r b = absorb-injective r a r b hr ha hr hb (
      bitwise_from-injective ys (absorb r a) (absorb r b) hy (absorb-IsWord r a hr ha)
        (absorb-IsWord r b hr hb) e) in
    sym (xor_cancel a r)
    ∙ ap (λ t. bit_xor t r) (xor_comm a r ∙ same ∙ xor_comm r b)
    ∙ xor_cancel b r
bitwise_from_change r (x ∷ xs) ys a b hr hx hy ha hb e =
    bitwise_from_change (absorb r x) xs ys a b (absorb-IsWord r x hr hx.0) hx.1 hy ha hb e

All-append-cons :
    (xs ys : List ℕ) (a : ℕ)
    → All IsByte xs
    → IsByte a
    → All IsByte ys
    → All IsByte (xs ++ (a ∷ ys))
All-append-cons [] ys a hx ha hy = (ha, hy)
All-append-cons (x ∷ xs) ys a hx ha hy = (hx.0, All-append-cons xs ys a hx.1 ha hy)

-- Two messages of bytes that differ in exactly one byte, wherever it stands, have different check
-- sums.
pub crc32_detects_byte :
    (xs ys : List ℕ) (a b : ℕ)
    → All IsByte xs
    → All IsByte ys
    → IsByte a
    → IsByte b
    → a ≢ b
    → crc32 (xs ++ (a ∷ ys)) ≢ crc32 (xs ++ (b ∷ ys))
crc32_detects_byte xs ys a b hx hy ha hb differs e =
    differs (bitwise_from_change 0 xs ys a b (omega arith) hx hy ha hb bits)
  where
    bits : bitwise_from 0 (xs ++ (a ∷ ys)) ≡ bitwise_from 0 (xs ++ (b ∷ ys))
    bits =
        sym (crc32-eq-bitwise (xs ++ (a ∷ ys)) (All-append-cons xs ys a hx ha hy))
        ∙ e
        ∙ crc32-eq-bitwise (xs ++ (b ∷ ys)) (All-append-cons xs ys b hx hb hy)

crc32_update-IsWord : (r c : ℕ) → IsWord r → IsWord (crc32_update r c)
unfolding crc32_update
crc32_update-IsWord r c h =
    let i : ℕ = bit_and (bit_xor r c) 0xff in
    let i_in : i < 2 ^ 8 = omega (arith, and_mask 8 (bit_xor r c)) in
    xor-lt 32 (get_or crc32_tab i 0) (r / 2 ^ 8)
      (rw (table_entry i i_in) (shift_bits-IsWord 8 i (omega arith))) (omega arith)

crc32_from-IsWord : (r : ℕ) (s : List ℕ) → IsWord r → IsWord (crc32_from r s)
unfolding crc32_from
crc32_from-IsWord r [] h = h
crc32_from-IsWord r (c ∷ s) h = crc32_from-IsWord (crc32_update r c) s (crc32_update-IsWord r c h)

-- The check sum fits 32 bits, as the four bytes that carry it need.
pub crc32-IsWord : (s : List ℕ) → IsWord (crc32 s)
unfolding crc32
crc32-IsWord s = crc32_from-IsWord 0 s (omega arith)
