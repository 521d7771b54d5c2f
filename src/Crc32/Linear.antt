-- ===== src/Crc32/Linear.antt =====
-- The check sum is linear: adding (exclusive or) two messages of one length adds their sums. This is
-- what a compensation attack on the encrypted stream uses, and what deattack.c looks for.
use Prim.Native.Nat.{bit_xor}
use ssh_1_history.Prelude.{ℕ, ◌≡◌, refl, sym, ap, ap₂, ◌∙◌, List, [], ◌∷◌, length, All, arith}
use ssh_1_history.Prelude.Bits.Xor.{xor-lt}
use ssh_1_history.Crc32.{crc32}
use ssh_1_history.Crc32.Table.{
  IsByte, shift_bits, shift_bits-xor, bitwise_from, crc32-eq-bitwise, xor_exchange,
}

-- The exclusive or of two messages, byte by byte.
unfoldable pub xor_bytes : List ℕ → List ℕ → List ℕ
xor_bytes [] ys = []
xor_bytes (x ∷ xs) [] = []
xor_bytes (x ∷ xs) (y ∷ ys) = bit_xor x y ∷ xor_bytes xs ys

xor_bytes-IsByte : (xs ys : List ℕ) → All IsByte xs → All IsByte ys → All IsByte (xor_bytes xs ys)
unfolding xor_bytes
xor_bytes-IsByte [] ys h k = tt
xor_bytes-IsByte (x ∷ xs) [] h k = tt
xor_bytes-IsByte (x ∷ xs) (y ∷ ys) h k = (xor-lt 8 x y h.0 k.0, xor_bytes-IsByte xs ys h.1 k.1)

bitwise_from-xor :
    (q r : ℕ) (xs ys : List ℕ)
    → length xs ≡ length ys
    → bitwise_from (bit_xor q r) (xor_bytes xs ys) ≡ bit_xor (bitwise_from q xs) (bitwise_from r ys)
unfolding bitwise_from xor_bytes
bitwise_from-xor q r [] [] e = refl
bitwise_from-xor q r [] (y ∷ ys) e = absurd (omega arith)
bitwise_from-xor q r (x ∷ xs) [] e = absurd (omega arith)
bitwise_from-xor q r (x ∷ xs) (y ∷ ys) e =
    ap (λ t. bitwise_from t (xor_bytes xs ys))
      (ap (shift_bits 8) (xor_exchange q r x y) ∙ shift_bits-xor 8 (bit_xor q x) (bit_xor r y))
    ∙ bitwise_from-xor (shift_bits 8 (bit_xor q x)) (shift_bits 8 (bit_xor r y)) xs ys (omega arith)

-- For byte sequences of equal length, the check sum of their exclusive or is the exclusive or of
-- their check sums.
pub crc32-xor :
    (xs ys : List ℕ)
    → All IsByte xs
    → All IsByte ys
    → length xs ≡ length ys
    → crc32 (xor_bytes xs ys) ≡ bit_xor (crc32 xs) (crc32 ys)
crc32-xor xs ys h k e =
    crc32-eq-bitwise (xor_bytes xs ys) (xor_bytes-IsByte xs ys h k)
    ∙ bitwise_from-xor 0 0 xs ys e
    ∙ sym (ap₂ bit_xor (crc32-eq-bitwise xs h) (crc32-eq-bitwise ys k))
