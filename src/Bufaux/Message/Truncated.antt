-- ===== src/Bufaux/Message/Truncated.antt =====
-- A message that has not arrived whole cannot be read: it ends the process with `too_many_bytes`.
use ssh_1_history.Prelude.{
  false, ℕ, ◌+◌, ◌-◌, ◌*◌, ◌≤◌, ◌<◌, ◌≡◌, refl, ap, List, [], ◌∷◌, ◌++◌, map, err, too_many_bytes,
  length, take, length-take, length-append, take-append_short, take-append_long, ltb, lt→ltb,
  not-ltb→le, ltb→lt, arith, All, Bool-cases, inl, inr,
}
use ssh_1_history.Buffer.Queue
use ssh_1_history.Buffer.Queue.{Queue}
use ssh_1_history.Bufaux.{put_32bit, get_int, get_string, get_char}
use ssh_1_history.Bufaux.Message.{
  Item, char, int, string, kind, Fits, put_items, get_item, get_items, encoding, encodings,
  put_items-encodings, get_item-encoding, get_int-front,
}

get-short : (n : ℕ) (q : Queue) → length q < n → Queue.get q n ≡ err too_many_bytes
unfolding Queue.get
get-short n q h = rw (lt→ltb (length q) n h)

get_int-short : (q : Queue) → length q < 4 → get_int q ≡ err too_many_bytes
unfolding get_int
get_int-short q h = rw (get-short 4 q h)

length-put_32bit : (v : ℕ) → length (put_32bit v) ≡ 4
unfolding put_32bit
length-put_32bit v = refl

-- The first `k` bytes of a string item, with `k` too small for all of it.
get_string-short :
    (s : List ℕ) (k : ℕ)
    → length s ≤ 256 * 1024
    → k < 4 + length s
    → get_string (take k (put_32bit (length s) ++ s)) ≡ err too_many_bytes
unfolding get_string
get_string-short s k h short = elim (Bool-cases (ltb k 4)) [
  | inl head ↦ rw (
      get_int-short (take k (put_32bit (length s) ++ s))
        (omega (arith, length-take k (put_32bit (length s) ++ s), ltb→lt k 4 head)))
  | inr body ↦
      let le : length (put_32bit (length s)) ≤ k =
        omega (arith, not-ltb→le k 4 body, length-put_32bit (length s)) in
      let within : ltb (256 * 1024) (length s) ≡ false = ground arith in
      rw
        (
          take-append_long k (put_32bit (length s)) s le,
          get_int-front (length s) (take (k - length (put_32bit (length s))) s) (omega arith),
          within,
        )
        (get-short (length s) _ (
          omega (
            arith,
            length-take (k - length (put_32bit (length s))) s,
            length-put_32bit (length s),
            not-ltb→le k 4 body,
          )))
]

get_item-short :
    (x : Item) (k : ℕ)
    → Fits x
    → k < length (encoding x)
    → get_item (take k (encoding x)) (kind x) ≡ err too_many_bytes
unfolding get_item get_char
get_item-short (char c) k h short =
    rw (get-short 1 (take k (encoding (char c))) (omega (arith, length-take k (encoding (char c)))))
get_item-short (int v) k h short = rw (
    get_int-short (take k (put_32bit v))
      (omega (arith, length-take k (put_32bit v), length-put_32bit v)))
get_item-short (string s) k h short = rw (
    get_string-short s k h
      (omega (arith, length-append (put_32bit (length s)) s, length-put_32bit (length s))))

get_items-short :
    (xs : List Item) (k : ℕ)
    → All Fits xs
    → k < length (encodings xs)
    → get_items (take k (encodings xs)) (map kind xs) ≡ err too_many_bytes
unfolding get_items
get_items-short [] k h short = absurd (omega arith)
get_items-short (x ∷ xs) k h short = elim (Bool-cases (ltb k (length (encoding x)))) [
  | inl inside ↦
      let lt : k < length (encoding x) = ltb→lt k _ inside in
      rw (take-append_short k (encoding x) (encodings xs) (omega arith), get_item-short x k h.0 lt)
  | inr beyond ↦
      let le : length (encoding x) ≤ k = not-ltb→le k _ beyond in
      rw (
        take-append_long k (encoding x) (encodings xs) le,
        get_item-encoding x _ h.0,
        get_items-short xs (k - length (encoding x)) h.1
            (omega (arith, length-append (encoding x) (encodings xs))),
      )
]

-- If the bytes of a message of items that fit the wire are cut off anywhere before their end,
-- reading the message back fails with `too_many_bytes`, and no value is made up.
pub get_items_truncated :
    (xs : List Item) (k : ℕ)
    → All Fits xs
    → k < length (put_items [] xs)
    → get_items (take k (put_items [] xs)) (map kind xs) ≡ err too_many_bytes
get_items_truncated xs k h short =
    rw (put_items-encodings [] xs)
      (get_items-short xs k h (omega (arith, ap length (put_items-encodings [] xs))))
