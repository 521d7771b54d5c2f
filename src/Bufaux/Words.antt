-- ===== src/Bufaux/Words.antt =====
-- The four bytes of a word give the word back.
use Prim.Native.Nat.{bit_or}
use ssh_1_history.Prelude.{ℕ, ◌+◌, ◌*◌, ◌/◌, ◌%◌, ◌^◌, ◌<◌, ◌≡◌, ◌∙◌, ap, [], ◌∷◌, arith}
use ssh_1_history.Prelude.Bits.Fields.{or_fields}
use ssh_1_history.Bufaux.{put_32bit, get_32bit}

-- Four bytes read as a number, the highest first.
pub get_32bit-sum :
    (a b c d : ℕ)
    → b < 2 ^ 8
    → c < 2 ^ 8
    → d < 2 ^ 8
    → get_32bit (a ∷ b ∷ c ∷ d ∷ []) ≡ a * 2 ^ 24 + b * 2 ^ 16 + c * 2 ^ 8 + d
unfolding get_32bit
get_32bit-sum a b c d hb hc hd =
    ap (λ t. bit_or (bit_or t (c * 2 ^ 8)) d) (or_fields 24 a (b * 2 ^ 16) (omega arith))
    ∙ ap (λ t. bit_or (bit_or t (c * 2 ^ 8)) d) high
    ∙ ap (λ t. bit_or t d) (or_fields 16 (a * 2 ^ 8 + b) (c * 2 ^ 8) (omega arith))
    ∙ ap (λ t. bit_or t d) middle
    ∙ or_fields 8 (a * 2 ^ 16 + b * 2 ^ 8 + c) d hd
    ∙ omega arith
  where
    high : a * 2 ^ 24 + b * 2 ^ 16 ≡ (a * 2 ^ 8 + b) * 2 ^ 16
    high = omega arith

    middle : (a * 2 ^ 8 + b) * 2 ^ 16 + c * 2 ^ 8 ≡ (a * 2 ^ 16 + b * 2 ^ 8 + c) * 2 ^ 8
    middle = omega arith

-- GET_32BIT of what PUT_32BIT stored is the value, for every value of 32 bits.
pub get_32bit-put_32bit : (v : ℕ) → v < 2 ^ 32 → get_32bit (put_32bit v) ≡ v
unfolding put_32bit
get_32bit-put_32bit v h =
    get_32bit-sum (v / 2 ^ 24 % 2 ^ 8) (v / 2 ^ 16 % 2 ^ 8) (v / 2 ^ 8 % 2 ^ 8) (v % 2 ^ 8)
      (omega arith) (omega arith) (omega arith)
    ∙ omega arith
