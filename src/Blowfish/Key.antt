-- ===== src/Blowfish/Key.antt =====
-- `blowfish_set_key`: the tables that belong to a key.
pub mod Range
use Prim.Native.Nat.{bit_or, bit_xor}
use ssh_1_history.Prelude.{
  Result, ok, err, guard, undefined_behaviour, not, ◌>>=◌, ◌>>◌, ltb, ◌==◌, if◌then◌else◌, ℕ, zero,
  suc, ◌+◌, ◌*◌, ◌%◌, ◌^◌, List, [], ◌∷◌, get_or, set, length,
}
use ssh_1_history.Blowfish.{BlowfishContext, encrypt}
use ssh_1_history.Blowfish.Tables.{blowfish_pbox, blowfish_sbox}

-- `temp`: four bytes of the key from index `j` on, which goes round.
pub key_word : List ℕ → ℕ → ℕ
key_word key j =
    let n = length key in
    bit_or
      (bit_or (bit_or (get_or key j 0 * 2 ^ 24) (get_or key ((j + 1) % n) 0 * 2 ^ 16))
        (get_or key ((j + 2) % n) 0 * 2 ^ 8))
      (get_or key ((j + 3) % n) 0)

-- An assignment to a word of a table, which must be there.
pub store : List ℕ → ℕ → ℕ → Result (List ℕ)
store xs i v = if ltb i (length xs) then ok (set xs i v) else err undefined_behaviour

-- The first loop of the subkey generation from `i` on, with `left` rounds to go.
pub mix_key : List ℕ → ℕ → ℕ → ℕ → List ℕ → Result (List ℕ)
unfolding key_word store
mix_key key zero i j p = ok p
mix_key key (suc left) i j p = do
  p' ← store p i (bit_xor (get_or p i 0) (key_word key j))
  mix_key key left (i + 1) ((j + 4) % length key) p'

-- The loop over P, two words at a time.
pub fill_p : ℕ → ℕ → BlowfishContext → ℕ × ℕ → Result (BlowfishContext × (ℕ × ℕ))
unfolding store
fill_p zero i c last = ok (c, last)
fill_p (suc left) i c (data_l, data_r) = do
  let d = encrypt c data_l data_r
  p1 ← store c.p i d.0
  p2 ← store p1 (i + 1) d.1
  fill_p left (i + 2) (record c { p = p2 }) d

-- The two loops over S, two words at a time; the four boxes lie one behind the other.
pub fill_s : ℕ → ℕ → BlowfishContext → ℕ × ℕ → Result BlowfishContext
unfolding store
fill_s zero count c last = ok c
fill_s (suc left) count c (data_l, data_r) = do
  let d = encrypt c data_l data_r
  s1 ← store c.s count d.0
  s2 ← store s1 (count + 1) d.1
  fill_s left (count + 2) (record c { s = s2 }) d

-- The number of the key's bytes, `keybytes`, is a divisor; it is a `short`.
pub set_key : BlowfishContext → List ℕ → Result BlowfishContext
unfolding mix_key fill_p fill_s
set_key c key = do
  guard (not (length key == 0)) undefined_behaviour
  p ← mix_key key 18 0 0 blowfish_pbox
  (d, last) ← fill_p 9 0 (record c { s = blowfish_sbox; p = p }) (0, 0)
  fill_s 512 0 d last
