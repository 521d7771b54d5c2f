-- ===== src/Blowfish/Chain.antt =====
-- blowfish_cbc_encrypt and blowfish_cbc_decrypt, and the macros of getput.h for words with the lowest
-- byte first.
pub mod RoundTrip
use Prim.Native.Nat.{bit_or, bit_xor}
use ssh_1_history.Prelude.{
  ℕ, zero, suc, ◌+◌, ◌*◌, ◌/◌, ◌%◌, ◌^◌, List, [], ◌∷◌, ◌++◌, Result, ok, ◌>>=◌, ◌>>◌, guard,
  assertion_failed, get_or, length, drop, ◌==◌,
}
use ssh_1_history.Bufaux.{byte}
use ssh_1_history.Blowfish.{BlowfishContext, encrypt, decrypt}

-- GET_32BIT_LSB_FIRST
pub get_32bit_lsb_first : List ℕ → ℕ
get_32bit_lsb_first cp =
    bit_or (bit_or (bit_or (get_or cp 0 0) (get_or cp 1 0 * 2 ^ 8)) (get_or cp 2 0 * 2 ^ 16))
      (get_or cp 3 0 * 2 ^ 24)

-- PUT_32BIT_LSB_FIRST
pub put_32bit_lsb_first : ℕ → List ℕ
put_32bit_lsb_first v = byte v ∷ byte (v / 2 ^ 8) ∷ byte (v / 2 ^ 16) ∷ byte (v / 2 ^ 24) ∷ []

pub put_words : ℕ × ℕ → List ℕ
unfolding put_32bit_lsb_first
put_words y = put_32bit_lsb_first y.0 ++ put_32bit_lsb_first y.1

-- The words at the front of the source.
pub get_words : List ℕ → ℕ × ℕ
unfolding get_32bit_lsb_first
get_words src = (get_32bit_lsb_first src, get_32bit_lsb_first (drop 4 src))

pub xor_words : ℕ × ℕ → ℕ × ℕ → ℕ × ℕ
xor_words x y = (bit_xor x.0 y.0, bit_xor x.1 y.1)

-- The loops, with the number of blocks that are left, from the words `iv0` and `iv1`.
pub encrypt_blocks : BlowfishContext → ℕ → ℕ × ℕ → List ℕ → List ℕ × (ℕ × ℕ)
unfolding put_words get_words xor_words
encrypt_blocks c zero iv src = ([], iv)
encrypt_blocks c (suc n) iv src =
    let x = xor_words iv (get_words src) in
    let out = encrypt c x.0 x.1 in
    let r = encrypt_blocks c n out (drop 8 src) in (put_words out ++ r.0, r.1)

pub decrypt_blocks : BlowfishContext → ℕ → ℕ × ℕ → List ℕ → List ℕ × (ℕ × ℕ)
unfolding put_words get_words xor_words
decrypt_blocks c zero iv src = ([], iv)
decrypt_blocks c (suc n) iv src =
    let d = get_words src in
    let out = decrypt c d.0 d.1 in
    let r = decrypt_blocks c n d (drop 8 src) in (put_words (xor_words iv out) ++ r.0, r.1)

pub cbc_encrypt : BlowfishContext → List ℕ → Result (List ℕ × BlowfishContext)
unfolding encrypt_blocks
cbc_encrypt c src = do
  guard (length src % 8 == 0) assertion_failed
  let r = encrypt_blocks c (length src / 8) (get_words c.iv) src
  ok (r.0, record c { iv = put_words r.1 })

pub cbc_decrypt : BlowfishContext → List ℕ → Result (List ℕ × BlowfishContext)
unfolding decrypt_blocks
cbc_decrypt c src = do
  guard (length src % 8 == 0) assertion_failed
  let r = decrypt_blocks c (length src / 8) (get_words c.iv) src
  ok (r.0, record c { iv = put_words r.1 })
