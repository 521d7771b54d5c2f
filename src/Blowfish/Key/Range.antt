-- ===== src/Blowfish/Key/Range.antt =====
-- The tables of a key have their sizes, and hold words of 32 bits.
use Prim.Native.Nat.{bit_xor}
use ssh_1_history.Prelude.{
  Result, Failure, undefined_behaviour, guard, not, false, ok, ◌>>=◌, ap, ◌*◌, ◌≤◌, ◌==◌, ℕ, zero,
  suc, ◌+◌, ◌%◌, ◌^◌, ◌<◌, ◌≡◌, refl, ◌∙◌, Bool, true, ◌&&◌, List, [], ◌∷◌, get_or, set, length,
  length-set, All, All-set, ltb, ltb→lt, arith,
}
use ssh_1_history.Prelude.Bits.Xor.{xor-lt}
use ssh_1_history.Bufaux.{get_32bit}
use ssh_1_history.Bufaux.Words.{get_32bit-sum}
use ssh_1_history.Blowfish.{
  BlowfishContext, bf_f, round, two_rounds, rounds, encrypt_order, encrypt,
}
use ssh_1_history.Blowfish.Tables.{blowfish_pbox, blowfish_sbox}
use ssh_1_history.Blowfish.Key.{key_word, store, mix_key, fill_p, fill_s, set_key}

abbrev pub IsWord : ℕ → Type 0
IsWord x = x < 2 ^ 32

pub record IsKeyed (c : BlowfishContext) : Type 0 where
  pub s_size : length c.s ≡ 1024
  pub p_size : length c.p ≡ 18
  pub s_words : All IsWord c.s
  pub p_words : All IsWord c.p

abbrev pub Both : ℕ × ℕ → Type 0
Both y = IsWord y.0 × IsWord y.1

get_or-All : (P : ℕ → Type 0) (xs : List ℕ) (i d : ℕ) → All P xs → P d → P (get_or xs i d)
get_or-All P [] i d h k = k
get_or-All P (x ∷ xs) zero d h k = h.0
get_or-All P (x ∷ xs) (suc i) d h k = get_or-All P xs i d h.1 k

round-IsWord : (c : BlowfishContext) (a b n : ℕ) → IsKeyed c → IsWord a → IsWord (round c a b n)
unfolding round bf_f
round-IsWord c a b n v h = xor-lt 32 a _ h (
    xor-lt 32 (bf_f c b) (get_or c.p n 0) (omega arith)
      (get_or-All IsWord c.p n 0 v.p_words (omega arith)))

rounds-Both :
    (c : BlowfishContext) (ks : List (ℕ × ℕ)) (y : ℕ × ℕ)
    → IsKeyed c
    → Both y
    → Both (rounds c ks y)
unfolding rounds two_rounds
rounds-Both c [] y v h = h
rounds-Both c ((n, m) ∷ ks) (yl, yr) v h =
    let r = round-IsWord c yr yl n v h.1 in
    rounds-Both c ks _ v (round-IsWord c yl (round c yr yl n) m v h.0, r)

pub encrypt-Both : (c : BlowfishContext) (d : ℕ × ℕ) → IsKeyed c → Both d → Both (encrypt c d.0 d.1)
unfolding encrypt
encrypt-Both c (xl, xr) v h =
    let p : (n : ℕ) → IsWord (get_or c.p n 0) =
      λ n. get_or-All IsWord c.p n 0 v.p_words (omega arith) in
    let start : IsWord (bit_xor xl (get_or c.p 0 0)) = xor-lt 32 xl _ h.0 (p 0) in
    let b = rounds-Both c encrypt_order (bit_xor xl (get_or c.p 0 0), xr) v (start, h.1) in
    (xor-lt 32 _ _ b.1 (p 17), b.0)

key_word-IsWord : (key : List ℕ) (j : ℕ) → All (λ c. c < 2 ^ 8) key → IsWord (key_word key j)
unfolding key_word get_32bit
key_word-IsWord key j bytes =
    let n = length key in
    let at : (i : ℕ) → get_or key i 0 < 2 ^ 8 =
      λ i. get_or-All (λ c. c < 2 ^ 8) key i 0 bytes (omega arith) in
    omega (
      arith,
      get_32bit-sum (get_or key j 0) (get_or key ((j + 1) % n) 0) (get_or key ((j + 2) % n) 0)
          (get_or key ((j + 3) % n) 0) (at _) (at _) (at _),
      at j,
      at ((j + 1) % n),
      at ((j + 2) % n),
      at ((j + 3) % n),
    )

-- A run that succeeds, with a result that satisfies `P`.
abbrev pub Holds {ℓ} : {A : Type ℓ} (P : A → Type 0) → Result A → Type ℓ
Holds {A = A} P m = (a : A) × (m ≡ ok a) × P a

Holds-bind :
    {A B : Type 0} (Q : A → Type 0) (P : B → Type 0) {m : Result A} {f : A → Result B}
    → Holds Q m
    → ((a : A) → Q a → Holds P (f a))
    → Holds P (m >>= f)
Holds-bind Q P {f = f} (a, e, h) k = let r = k a h in (r.0, ap (λ x. x >>= f) e ∙ r.1, r.2)

guard-Holds : (b : Bool) (e : Failure) → b ≡ true → Holds (λ u. Unit) (guard b e)
guard-Holds true e h = (tt, refl, tt)
guard-Holds false e h = absurd cc

store-words :
    (n : ℕ) (xs : List ℕ) (i v : ℕ)
    → i < n
    → length xs ≡ n
    → All IsWord xs
    → IsWord v
    → Holds (λ ys. (length ys ≡ n) × All IsWord ys) (store xs i v)
unfolding store
store-words n xs i v h size words w =
    let there : ltb i (length xs) ≡ true = ground (arith, size) in
    rw there (set xs i v, refl, (length-set xs i v ∙ size, All-set IsWord xs i v words w))

mix_key-words :
    (key : List ℕ) (left i j : ℕ) (p : List ℕ)
    → All (λ c. c < 2 ^ 8) key
    → i + left ≤ 18
    → length p ≡ 18
    → All IsWord p
    → Holds (λ q. (length q ≡ 18) × All IsWord q) (mix_key key left i j p)
unfolding mix_key
mix_key-words key zero i j p bytes room size h = (p, refl, (size, h))
mix_key-words key (suc left) i j p bytes room size h =
    let w : IsWord (bit_xor (get_or p i 0) (key_word key j)) =
      xor-lt 32 _ _ (get_or-All IsWord p i 0 h (omega arith)) (key_word-IsWord key j bytes) in
    Holds-bind _ _ (store-words 18 p i _ (omega (arith, room)) size h w) λ q k.
      mix_key-words key left (i + 1) ((j + 4) % length key) q bytes (omega (arith, room)) k.0 k.1

fill_p-IsKeyed :
    (left i : ℕ) (c : BlowfishContext) (d : ℕ × ℕ)
    → i + 2 * left ≤ 18
    → IsKeyed c
    → Both d
    → Holds (λ r. IsKeyed r.0 × Both r.1) (fill_p left i c d)
unfolding fill_p
fill_p-IsKeyed zero i c d room v h = ((c, d), refl, (v, h))
fill_p-IsKeyed (suc left) i c d room v h =
    let e = encrypt-Both c d v h in
    Holds-bind _ _ (store-words 18 c.p i _ (omega (arith, room)) v.p_size v.p_words e.0) λ p1 k.
      Holds-bind _ _ (store-words 18 p1 (i + 1) _ (omega (arith, room)) k.0 k.1 e.1) λ p2 l.
        fill_p-IsKeyed left (i + 2) (record c { p = p2 }) (encrypt c d.0 d.1) (omega (arith, room))
          (record { s_size = v.s_size; p_size = l.0; s_words = v.s_words; p_words = l.1 }) e

fill_s-IsKeyed :
    (left i : ℕ) (c : BlowfishContext) (d : ℕ × ℕ)
    → i + 2 * left ≤ 1024
    → IsKeyed c
    → Both d
    → Holds (λ r. IsKeyed r) (fill_s left i c d)
unfolding fill_s
fill_s-IsKeyed zero i c d room v h = (c, refl, v)
fill_s-IsKeyed (suc left) i c d room v h =
    let e = encrypt-Both c d v h in
    Holds-bind _ _ (store-words 1024 c.s i _ (omega (arith, room)) v.s_size v.s_words e.0) λ s1 k.
      Holds-bind _ _ (store-words 1024 s1 (i + 1) _ (omega (arith, room)) k.0 k.1 e.1) λ s2 l.
        fill_s-IsKeyed left (i + 2) (record c { s = s2 }) (encrypt c d.0 d.1) (omega (arith, room))
          (record { s_size = l.0; p_size = v.p_size; s_words = l.1; p_words = v.p_words }) e

-- Whether every entry is a word.
abbrev all_words : List ℕ → Bool
all_words [] = true
all_words (x ∷ xs) = ltb x (2 ^ 32) && all_words xs

all_words_sound : (xs : List ℕ) → all_words xs ≡ true → All IsWord xs
all_words_sound [] e = tt
all_words_sound (x ∷ xs) e = (ltb→lt x (2 ^ 32) (ground arith), all_words_sound xs (ground arith))

sbox_words : (all_words blowfish_sbox ≡ true) × (length blowfish_sbox ≡ 1024)
unfolding blowfish_sbox
sbox_words = (refl, refl)

-- For every key of bytes that is not empty, `blowfish_set_key` writes within its tables, and makes
-- tables of 1024 and 18 entries, all of them words of 32 bits, whatever the context held before.
pub set_key-IsKeyed :
    (c : BlowfishContext) (key : List ℕ)
    → All (λ b. b < 2 ^ 8) key
    → 0 < length key
    → (d : BlowfishContext) × (set_key c key ≡ ok d) × IsKeyed d
unfolding set_key
set_key-IsKeyed c key bytes some_bytes =
    let divides : not (length key == 0) ≡ true = ground (arith, some_bytes) in
    Holds-bind _ _ (guard-Holds (not (length key == 0)) undefined_behaviour divides) λ u _.
      Holds-bind _ _
        (mix_key-words key 18 0 0 blowfish_pbox bytes (omega arith) refl
          (all_words_sound blowfish_pbox refl))
        λ p k.
          Holds-bind _ _
            (fill_p-IsKeyed 9 0 (record c { s = blowfish_sbox; p = p }) (0, 0) (omega arith)
              (record {
                s_size = sbox_words.1;
                p_size = k.0;
                s_words = all_words_sound blowfish_sbox sbox_words.0;
                p_words = k.1;
              })
              (omega arith))
            λ r l. fill_s-IsKeyed 512 0 r.0 r.1 (omega arith) l.0 l.1
