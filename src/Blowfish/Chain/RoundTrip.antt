-- ===== src/Blowfish/Chain/RoundTrip.antt =====
-- The two chains undo one another.
use Prim.Native.Nat.{bit_or, bit_xor}
use ssh_1_history.Prelude.{
  drop-drop, true, append_assoc, length-drop, ℕ, zero, suc, ◌+◌, ◌*◌, ◌/◌, ◌%◌, ◌^◌, ◌<◌, ◌≤◌, ◌≡◌,
  ◌∙◌, refl, sym, ap, ap₂, List, [], ◌∷◌, ◌++◌, ok, length, drop, All, ◌==◌, arith,
}
use ssh_1_history.Prelude.Bits.Fields.{or_fields_low}
use ssh_1_history.Prelude.Bits.Xor.{xor_cancel, xor_comm, xor-lt}
use ssh_1_history.Bufaux.{byte}
use ssh_1_history.Blowfish.{BlowfishContext, encrypt, decrypt}
use ssh_1_history.Blowfish.Block.{decrypt_block-encrypt}
use ssh_1_history.Blowfish.Key.Range.{IsKeyed, Both, encrypt-Both}
use ssh_1_history.Blowfish.Chain.{
  get_32bit_lsb_first, put_32bit_lsb_first, put_words, get_words, xor_words, encrypt_blocks,
  decrypt_blocks, cbc_encrypt, cbc_decrypt,
}

abbrev pub Bytes : List ℕ → Type 0
Bytes = All (λ b. b < 2 ^ 8)

get_lsb-sum :
    (a b c d : ℕ) (rest : List ℕ)
    → a < 2 ^ 8
    → b < 2 ^ 8
    → c < 2 ^ 8
    → get_32bit_lsb_first (a ∷ b ∷ c ∷ d ∷ rest) ≡ a + b * 2 ^ 8 + c * 2 ^ 16 + d * 2 ^ 24
unfolding get_32bit_lsb_first
get_lsb-sum a b c d rest ha hb hc =
    ap (λ t. bit_or (bit_or t (c * 2 ^ 16)) (d * 2 ^ 24)) (or_fields_low 8 b a ha)
    ∙ ap (λ t. bit_or t (d * 2 ^ 24)) (or_fields_low 16 c (a + b * 2 ^ 8) (omega arith))
    ∙ or_fields_low 24 d (a + b * 2 ^ 8 + c * 2 ^ 16) (omega arith)

get_lsb-put :
    (v : ℕ) (rest : List ℕ) → v < 2 ^ 32 → get_32bit_lsb_first (put_32bit_lsb_first v ++ rest) ≡ v
unfolding put_32bit_lsb_first
get_lsb-put v rest h =
    get_lsb-sum (v % 2 ^ 8) (v / 2 ^ 8 % 2 ^ 8) (v / 2 ^ 16 % 2 ^ 8) (v / 2 ^ 24 % 2 ^ 8) rest
      (omega arith) (omega arith) (omega arith)
    ∙ omega arith

put_lsb-get :
    (a b c d : ℕ) (rest : List ℕ)
    → a < 2 ^ 8
    → b < 2 ^ 8
    → c < 2 ^ 8
    → d < 2 ^ 8
    → put_32bit_lsb_first (get_32bit_lsb_first (a ∷ b ∷ c ∷ d ∷ rest)) ≡ a ∷ b ∷ c ∷ d ∷ []
unfolding put_32bit_lsb_first
put_lsb-get a b c d rest ha hb hc hd =
    let s = get_lsb-sum a b c d rest ha hb hc in
    let a' : byte (get_32bit_lsb_first (a ∷ b ∷ c ∷ d ∷ rest)) ≡ a = omega (arith, s) in
    let b' : byte (get_32bit_lsb_first (a ∷ b ∷ c ∷ d ∷ rest) / 2 ^ 8) ≡ b = omega (arith, s) in
    let c' : byte (get_32bit_lsb_first (a ∷ b ∷ c ∷ d ∷ rest) / 2 ^ 16) ≡ c = omega (arith, s) in
    let d' : byte (get_32bit_lsb_first (a ∷ b ∷ c ∷ d ∷ rest) / 2 ^ 24) ≡ d = omega (arith, s) in
    rw (a', b', c', d') refl

get_lsb-bound : (xs : List ℕ) → Bytes xs → 4 ≤ length xs → get_32bit_lsb_first xs < 2 ^ 32
get_lsb-bound [] h l = absurd (omega arith)
get_lsb-bound (a ∷ []) h l = absurd (omega arith)
get_lsb-bound (a ∷ (b ∷ [])) h l = absurd (omega arith)
get_lsb-bound (a ∷ (b ∷ (c ∷ []))) h l = absurd (omega arith)
get_lsb-bound (a ∷ (b ∷ (c ∷ (d ∷ rest)))) (ha, (hb, (hc, (hd, h)))) l =
    omega (arith, get_lsb-sum a b c d rest ha hb hc)

put_lsb-front :
    (xs : List ℕ)
    → Bytes xs
    → 4 ≤ length xs
    → put_32bit_lsb_first (get_32bit_lsb_first xs) ++ drop 4 xs ≡ xs
put_lsb-front [] h l = absurd (omega arith)
put_lsb-front (a ∷ []) h l = absurd (omega arith)
put_lsb-front (a ∷ (b ∷ [])) h l = absurd (omega arith)
put_lsb-front (a ∷ (b ∷ (c ∷ []))) h l = absurd (omega arith)
put_lsb-front (a ∷ (b ∷ (c ∷ (d ∷ rest)))) (ha, (hb, (hc, (hd, h)))) l =
    ap (λ t. t ++ rest) (put_lsb-get a b c d rest ha hb hc hd)

Bytes-drop : (n : ℕ) (xs : List ℕ) → Bytes xs → Bytes (drop n xs)
Bytes-drop zero xs h = h
Bytes-drop (suc n) [] h = tt
Bytes-drop (suc n) (x ∷ xs) h = Bytes-drop n xs h.1

get_words-Both : (xs : List ℕ) → Bytes xs → 8 ≤ length xs → Both (get_words xs)
unfolding get_words
get_words-Both xs h l = (
  get_lsb-bound xs h (omega arith),
  get_lsb-bound (drop 4 xs) (Bytes-drop 4 xs h) (omega (arith, length-drop 4 xs)),
)

put_words-front :
    (xs : List ℕ) → Bytes xs → 8 ≤ length xs → put_words (get_words xs) ++ drop 8 xs ≡ xs
unfolding put_words get_words
put_words-front xs h l =
    append_assoc (put_32bit_lsb_first (get_32bit_lsb_first xs))
      (put_32bit_lsb_first (get_32bit_lsb_first (drop 4 xs))) (drop 8 xs)
    ∙ ap (λ t. put_32bit_lsb_first (get_32bit_lsb_first xs) ++ t)
        (ap (λ t. put_32bit_lsb_first (get_32bit_lsb_first (drop 4 xs)) ++ t)
            (sym (drop-drop 4 4 xs))
          ∙ put_lsb-front (drop 4 xs) (Bytes-drop 4 xs h) (omega (arith, length-drop 4 xs)))
    ∙ put_lsb-front xs h (omega arith)

get_words-put : (y : ℕ × ℕ) (rest : List ℕ) → Both y → get_words (put_words y ++ rest) ≡ y
unfolding put_words get_words put_32bit_lsb_first
get_words-put y rest h =
    ap₂ (λ a b. (a, b)) (get_lsb-put y.0 (put_32bit_lsb_first y.1 ++ rest) h.0)
      (get_lsb-put y.1 rest h.1)

drop-put_words : (y : ℕ × ℕ) (rest : List ℕ) → drop 8 (put_words y ++ rest) ≡ rest
unfolding put_words put_32bit_lsb_first
drop-put_words y rest = refl

xor_cancel_left : (a b : ℕ) → bit_xor a (bit_xor a b) ≡ b
xor_cancel_left a b = ap (bit_xor a) (xor_comm a b) ∙ xor_comm a (bit_xor b a) ∙ xor_cancel b a

xor_words-cancel : (x y : ℕ × ℕ) → xor_words x (xor_words x y) ≡ y
unfolding xor_words
xor_words-cancel x y = ap₂ (λ a b. (a, b)) (xor_cancel_left x.0 y.0) (xor_cancel_left x.1 y.1)

xor_words-Both : (x y : ℕ × ℕ) → Both x → Both y → Both (xor_words x y)
unfolding xor_words
xor_words-Both x y h k = (xor-lt 32 x.0 y.0 h.0 k.0, xor-lt 32 x.1 y.1 h.1 k.1)

decrypt_blocks-encrypt :
    (c : BlowfishContext) (n : ℕ) (iv : ℕ × ℕ) (src : List ℕ)
    → IsKeyed c
    → Both iv
    → Bytes src
    → length src ≡ n * 8
    → decrypt_blocks c n iv (encrypt_blocks c n iv src).0 ≡ (src, (encrypt_blocks c n iv src).1)
unfolding encrypt_blocks decrypt_blocks
decrypt_blocks-encrypt c zero iv [] k hi hs e = refl
decrypt_blocks-encrypt c zero iv (x ∷ xs) k hi hs e = absurd (omega arith)
decrypt_blocks-encrypt c (suc n) iv src k hi hs e =
    let w : Both (get_words src) = get_words-Both src hs (omega arith) in
    let x : ℕ × ℕ = xor_words iv (get_words src) in
    let out : ℕ × ℕ = encrypt c x.0 x.1 in
    let ho : Both out = encrypt-Both c x k (xor_words-Both iv (get_words src) hi w) in
    let r : List ℕ × (ℕ × ℕ) = encrypt_blocks c n out (drop 8 src) in
    let later =
      decrypt_blocks-encrypt c n out (drop 8 src) k ho (Bytes-drop 8 src hs)
        (omega (arith, length-drop 8 src)) in
    ap₂
      (λ d rest.
        let o = decrypt c d.0 d.1 in
        let t = decrypt_blocks c n d rest in (put_words (xor_words iv o) ++ t.0, t.1))
      (get_words-put out r.0 ho) (drop-put_words out r.0)
    ∙ ap₂ (λ o t. (put_words (xor_words iv o) ++ t.0, t.1)) (decrypt_block-encrypt c x.0 x.1) later
    ∙ ap (λ t. (t, r.1))
        (ap (λ y. put_words y ++ drop 8 src) (xor_words-cancel iv (get_words src))
          ∙ put_words-front src hs (omega arith))

length-encrypt_blocks :
    (c : BlowfishContext) (n : ℕ) (iv : ℕ × ℕ) (src : List ℕ)
    → length (encrypt_blocks c n iv src).0 ≡ n * 8
unfolding encrypt_blocks put_words put_32bit_lsb_first
length-encrypt_blocks c zero iv src = refl
length-encrypt_blocks c (suc n) iv src =
    let x : ℕ × ℕ = xor_words iv (get_words src) in
    omega (arith, length-encrypt_blocks c n (encrypt c x.0 x.1) (drop 8 src))

-- With the tables of a key and an initialization vector of eight bytes, blowfish_cbc_encrypt of whole
-- blocks of bytes succeeds, and blowfish_cbc_decrypt from the same context gives the blocks back
-- and ends in the same context.
pub cbc_decrypt-encrypt :
    (c : BlowfishContext) (src : List ℕ)
    → IsKeyed c
    → Bytes c.iv
    → length c.iv ≡ 8
    → Bytes src
    → length src % 8 ≡ 0
    → (dst : List ℕ) × (after : BlowfishContext) × (cbc_encrypt c src ≡ ok (dst, after))
      × (cbc_decrypt c dst ≡ ok (src, after))
unfolding cbc_encrypt cbc_decrypt
cbc_decrypt-encrypt c src k hv lv hs ls =
    let n : ℕ = length src / 8 in
    let iv : ℕ × ℕ = get_words c.iv in
    let r : List ℕ × (ℕ × ℕ) = encrypt_blocks c n iv src in
    let whole : (length src % 8 == 0) ≡ true = ground arith in
    let size = length-encrypt_blocks c n iv src in
    let whole' : (length r.0 % 8 == 0) ≡ true = ground (arith, size) in
    let count : length r.0 / 8 ≡ n = omega (arith, size) in
    let back =
      decrypt_blocks-encrypt c n iv src k (get_words-Both c.iv hv (omega arith)) hs (omega arith) in
    (r.0, record c { iv = put_words r.1 }, rw whole refl, rw (whole', count, back) refl)
