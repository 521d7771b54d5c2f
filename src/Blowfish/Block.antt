-- ===== src/Blowfish/Block.antt =====
-- Decryption runs the rounds of encryption backwards.
use Prim.Native.Nat.{bit_xor}
use ssh_1_history.Prelude.{ℕ, ◌≡◌, refl, ap, ap₂, ◌∙◌, List, [], ◌∷◌, ◌++◌, get_or}
use ssh_1_history.Prelude.Bits.Xor.{xor_cancel}
use ssh_1_history.Blowfish.{
  BlowfishContext, bf_f, round, two_rounds, rounds, encrypt_order, decrypt_order, encrypt, decrypt,
}

abbrev exchanged : ℕ × ℕ → ℕ × ℕ
exchanged y = (y.1, y.0)

-- The same rounds, last to first.
abbrev backwards : List (ℕ × ℕ) → List (ℕ × ℕ)
backwards [] = []
backwards (k ∷ ks) = backwards ks ++ (exchanged k ∷ [])

round-round : (c : BlowfishContext) (a b n : ℕ) → round c (round c a b n) b n ≡ a
unfolding round
round-round c a b n = xor_cancel a (bit_xor (bf_f c b) (get_or c.p n 0))

two_rounds_undone :
    (c : BlowfishContext) (k y : ℕ × ℕ)
    → two_rounds c (exchanged k) (exchanged (two_rounds c k y)) ≡ exchanged y
unfolding two_rounds
two_rounds_undone c (n, m) (yl, yr) =
    let first : round c (round c yl (round c yr yl n) m) (round c yr yl n) m ≡ yl =
      round-round c yl (round c yr yl n) m in
    ap₂ (λ a b. (a, b)) (ap (λ t. round c (round c yr yl n) t n) first ∙ round-round c yr yl n)
      first

rounds-append :
    (c : BlowfishContext) (ks js : List (ℕ × ℕ)) (y : ℕ × ℕ)
    → rounds c (ks ++ js) y ≡ rounds c js (rounds c ks y)
unfolding rounds
rounds-append c [] js y = refl
rounds-append c (k ∷ ks) js y = rounds-append c ks js (two_rounds c k y)

rounds_undone :
    (c : BlowfishContext) (ks : List (ℕ × ℕ)) (y : ℕ × ℕ)
    → rounds c (backwards ks) (exchanged (rounds c ks y)) ≡ exchanged y
unfolding rounds
rounds_undone c [] y = refl
rounds_undone c (k ∷ ks) y =
    rounds-append c (backwards ks) (exchanged k ∷ []) (exchanged (rounds c ks (two_rounds c k y)))
    ∙ ap (two_rounds c (exchanged k)) (rounds_undone c ks (two_rounds c k y))
    ∙ two_rounds_undone c k y

-- Whatever the tables hold, `blowfish_decrypt` of the two words that `blowfish_encrypt` makes of a
-- block gives the two words of the block back.
pub decrypt_block-encrypt :
    (c : BlowfishContext) (xl xr : ℕ) → decrypt c (encrypt c xl xr).0 (encrypt c xl xr).1 ≡ (xl, xr)
unfolding encrypt decrypt
decrypt_block-encrypt c xl xr =
    let y = rounds c encrypt_order (bit_xor xl (get_or c.p 0 0), xr) in
    ap (λ t. exchange_last (rounds c decrypt_order (t, y.0))) (xor_cancel y.1 (get_or c.p 17 0))
    ∙ ap exchange_last (rounds_undone c encrypt_order (bit_xor xl (get_or c.p 0 0), xr))
    ∙ ap (λ t. (t, xr)) (xor_cancel xl (get_or c.p 0 0))
  where
    exchange_last : ℕ × ℕ → ℕ × ℕ
    exchange_last r = (bit_xor r.1 (get_or c.p 0 0), r.0)
