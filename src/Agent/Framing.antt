-- ===== src/Agent/Framing.antt =====
-- A message with its length in front: what the agent and the client read of it.
use ssh_1_history.Prelude.{
  ℕ, ◌+◌, ◌*◌, ◌^◌, ◌≤◌, ◌≡◌, refl, false, List, ◌∷◌, some, ok, length, take, drop, take-all, ltb,
  leb, ◌==◌, arith,
}
use ssh_1_history.Bufaux.{put_32bit, get_32bit}
use ssh_1_history.Bufaux.Words.{get_32bit-put_32bit}
use ssh_1_history.Agent.Client.{framed, read_reply, reply_bytes, read_listing}

pub take-framed : (msg : List ℕ) → take 4 (framed msg) ≡ put_32bit (length msg)
unfolding framed put_32bit
take-framed msg = refl

pub drop-framed : (msg : List ℕ) → drop 4 (framed msg) ≡ msg
unfolding framed put_32bit
drop-framed msg = refl

pub length-framed : (msg : List ℕ) → length (framed msg) ≡ 4 + length msg
unfolding framed put_32bit
length-framed msg = omega arith

pub get_32bit-framed :
    (msg : List ℕ) → length msg ≤ 30 * 1024 → get_32bit (take 4 (framed msg)) ≡ length msg
get_32bit-framed msg h = rw (take-framed msg) (get_32bit-put_32bit (length msg) (omega arith))

-- A reply that is there in full and not too long is read.
pub read_reply-framed :
    (msg : List ℕ) → length msg ≤ 30 * 1024 → read_reply (framed msg) ≡ ok (some msg)
unfolding read_reply reply_bytes
read_reply-framed msg h =
    let there : ltb (length (framed msg)) 4 ≡ false = ground (arith, length-framed msg) in
    let small : ltb (30 * 1024) (length msg) ≡ false = ground arith in
    let positive : leb (2 ^ 31) (length msg) ≡ false = ground arith in
    let whole : ltb (length msg) (length msg) ≡ false = ground arith in
    rw (there, get_32bit-framed msg h, small, positive, drop-framed msg, whole, take-all msg) refl

pub read_listing-framed :
    (t : ℕ) (msg : List ℕ)
    → length (t ∷ msg) ≤ 30 * 1024
    → read_listing (framed (t ∷ msg)) ≡ ok (some (t ∷ msg))
unfolding read_listing
read_listing-framed t msg h =
    let there : ltb (length (framed (t ∷ msg))) 4 ≡ false =
      ground (arith, length-framed (t ∷ msg)) in
    let some_bytes : (length (t ∷ msg) == 0) ≡ false = ground arith in
    let small : ltb (30 * 1024) (length (t ∷ msg)) ≡ false = ground arith in
    let whole : ltb (length (framed (t ∷ msg))) (4 + length (t ∷ msg)) ≡ false =
      ground (arith, length-framed (t ∷ msg)) in
    rw
      (
        there,
        get_32bit-framed (t ∷ msg) h,
        some_bytes,
        small,
        whole,
        drop-framed (t ∷ msg),
        take-all (t ∷ msg),
      )
      refl
