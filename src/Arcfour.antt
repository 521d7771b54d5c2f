-- ===== src/Arcfour.antt =====
-- arcfour.c: the stream cipher RC4. The state is an array of 256 bytes and two indices.
pub mod Stream
pub mod Permutation
use Prim.Native.Nat.{bit_and, bit_xor}
use ssh_1_history.Prelude.{
  ℕ, zero, suc, ◌+◌, List, [], ◌∷◌, Result, ok, err, assertion_failed, length, get_or, set, leb,
  ltb, if◌then◌else◌,
}

pub record ArcfourContext : Type 0 where
  pub state : List ℕ
  pub x : ℕ
  pub y : ℕ

-- Both loops exchange two entries: entry `j` gets the old entry `i`, then entry `i` the old `j`.
pub swap : List ℕ → ℕ → ℕ → List ℕ
swap s i j = set (set s j (get_or s i 0)) i (get_or s j 0)

-- `n` numbers from `c` on.
pub count_up : ℕ → ℕ → List ℕ
count_up zero c = []
count_up (suc n) c = c ∷ count_up n (c + 1)

-- The key loop of `arcfour_init` from `counter` on, with `left` rounds to go.
pub key_loop : List ℕ → ℕ → ℕ → ℕ → ℕ → List ℕ → List ℕ
unfolding swap
key_loop key zero counter keyindex stateindex state = state
key_loop key (suc left) counter keyindex stateindex state =
    let t = get_or state counter 0 in
    let j = bit_and (stateindex + get_or key keyindex 0 + t) 0xff in
    let k = keyindex + 1 in
    key_loop key left (counter + 1) (if leb (length key) k then 0 else k) j (swap state counter j)

pub init : List ℕ → Result ArcfourContext
init key =
    if ltb 0 (length key)
    then ok (record { state = key_loop key 256 0 0 0 (count_up 256 0); x = 0; y = 0 })
    else err assertion_failed

pub next_byte : ArcfourContext → ℕ × ArcfourContext
unfolding swap
next_byte ctx =
    let x = bit_and (ctx.x + 1) 0xff in
    let sx = get_or ctx.state x 0 in
    let y = bit_and (sx + ctx.y) 0xff in
    let sy = get_or ctx.state y 0 in
    let state = swap ctx.state x y in
    (get_or state (bit_and (sx + sy) 0xff) 0, record { state = state; x = x; y = y })

pub encrypt : ArcfourContext → List ℕ → List ℕ × ArcfourContext
encrypt ctx [] = ([], ctx)
encrypt ctx (c ∷ src) =
    let (k, ctx') = next_byte ctx in
    let (dest, last) = encrypt ctx' src in (bit_xor c k ∷ dest, last)

pub decrypt : ArcfourContext → List ℕ → List ℕ × ArcfourContext
unfolding encrypt
decrypt ctx src = encrypt ctx src
