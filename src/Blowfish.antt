-- ===== src/Blowfish.antt =====
-- blowfish.c: the block cipher Blowfish on blocks of two words of 32 bits, once its tables are set.
-- The functions are blowfish_encrypt and blowfish_decrypt without their prefix.
pub mod Block
pub mod Tables
pub mod Key
pub mod Chain
use Prim.Native.Nat.{bit_and, bit_xor}
use ssh_1_history.Prelude.{ℕ, ◌+◌, ◌/◌, ◌%◌, ◌^◌, List, [], ◌∷◌, get_or}

-- The tables S and P and the initialization vector.
pub record BlowfishContext : Type 0 where
  pub s : List ℕ
  pub p : List ℕ
  pub iv : List ℕ

-- `bf_F`, with the four bytes of `x` from the highest on.
pub bf_f : BlowfishContext → ℕ → ℕ
bf_f c x =
    let s0 = get_or c.s (bit_and (x / 2 ^ 24) 0xff) 0 in
    let s1 = get_or c.s (256 + bit_and (x / 2 ^ 16) 0xff) 0 in
    let s2 = get_or c.s (512 + bit_and (x / 2 ^ 8) 0xff) 0 in
    let s3 = get_or c.s (768 + bit_and x 0xff) 0 in (bit_xor ((s0 + s1) % 2 ^ 32) s2 + s3) % 2 ^ 32

-- `ROUND`: what `a` becomes.
pub round : BlowfishContext → ℕ → ℕ → ℕ → ℕ
round c a b n = bit_xor a (bit_xor (bf_f c b) (get_or c.p n 0))

-- `ROUND (yr, yl, n); ROUND (yl, yr, m);` on (yl, yr).
pub two_rounds : BlowfishContext → ℕ × ℕ → ℕ × ℕ → ℕ × ℕ
two_rounds c (n, m) (yl, yr) = let yr' = round c yr yl n in (round c yl yr' m, yr')

pub rounds : BlowfishContext → List (ℕ × ℕ) → ℕ × ℕ → ℕ × ℕ
rounds c [] y = y
rounds c (k ∷ ks) y = rounds c ks (two_rounds c k y)

abbrev pub encrypt_order : List (ℕ × ℕ)
encrypt_order = (1, 2) ∷ (3, 4) ∷ (5, 6) ∷ (7, 8) ∷ (9, 10) ∷ (11, 12) ∷ (13, 14) ∷ (15, 16) ∷ []

abbrev pub decrypt_order : List (ℕ × ℕ)
decrypt_order = (16, 15) ∷ (14, 13) ∷ (12, 11) ∷ (10, 9) ∷ (8, 7) ∷ (6, 5) ∷ (4, 3) ∷ (2, 1) ∷ []

pub encrypt : BlowfishContext → ℕ → ℕ → ℕ × ℕ
encrypt c xl xr =
    let (yl, yr) = rounds c encrypt_order (bit_xor xl (get_or c.p 0 0), xr) in
    (bit_xor yr (get_or c.p 17 0), yl)

pub decrypt : BlowfishContext → ℕ → ℕ → ℕ × ℕ
decrypt c xl xr =
    let (yl, yr) = rounds c decrypt_order (bit_xor xl (get_or c.p 17 0), xr) in
    (bit_xor yr (get_or c.p 0 0), yl)
