-- ===== src/Bufaux/Message.antt =====
-- A message is a sequence of characters, integers and strings, put into a buffer and read back.
pub mod Truncated
use ssh_1_history.Prelude.{
  ℕ, zero, suc, ◌+◌, ◌*◌, ◌^◌, ◌≤◌, ◌<◌, ◌≡◌, refl, sym, ap, ◌∙◌, true, false, List, [], ◌∷◌, ◌++◌,
  append-nil, append_assoc, map, Result, ok, err, ◌>>=◌, too_many_bytes, length, take, drop,
  length-append, take-append, drop-append, ltb, arith, lt→ltb, if◌then◌else◌, All,
}
use ssh_1_history.Buffer.Queue
use ssh_1_history.Buffer.Queue.{Queue}
use ssh_1_history.Bufaux.{
  byte, put_32bit, get_32bit, put_int, get_int, put_string, get_string, put_char, get_char,
}
use ssh_1_history.Bufaux.Words.{get_32bit-put_32bit}

pub data Item : Type 0 where
  char : ℕ → Item
  int : ℕ → Item
  string : List ℕ → Item

pub data Kind : Type 0 where
  a_char an_int a_string : Kind

abbrev pub kind : Item → Kind
kind (char c) = a_char
kind (int v) = an_int
kind (string s) = a_string

pub put_item : Queue → Item → Queue
put_item q (char c) = put_char q c
put_item q (int v) = put_int q v
put_item q (string s) = put_string q s

pub get_item : Queue → Kind → Result (Item × Queue)
get_item q a_char = get_char q >>= λ r. ok (char r.0, r.1)
get_item q an_int = get_int q >>= λ r. ok (int r.0, r.1)
get_item q a_string = get_string q >>= λ r. ok (string r.0, r.1)

pub put_items : Queue → List Item → Queue
put_items q [] = q
put_items q (x ∷ xs) = put_items (put_item q x) xs

pub get_items : Queue → List Kind → Result (List Item × Queue)
get_items q [] = ok ([], q)
get_items q (k ∷ ks) = get_item q k >>= λ r. get_items r.1 ks >>= λ s. ok (r.0 ∷ s.0, s.1)

-- What fits the wire: a byte, 32 bits, a string within the reader's limit.
abbrev pub Fits : Item → Type 0
Fits (char c) = c < 2 ^ 8
Fits (int v) = v < 2 ^ 32
Fits (string s) = length s ≤ 256 * 1024

-- Reading the `n` bytes at the front.
pub get-front :
    (n : ℕ) (xs rest : List ℕ) → n ≡ length xs → Queue.get (xs ++ rest) n ≡ ok (xs, rest)
unfolding Queue.get
get-front n xs rest e =
    let enough : ltb (length (xs ++ rest)) n ≡ false = ground (arith, length-append xs rest) in
    rw (enough, take-append n xs rest e, drop-append n xs rest e)

pub get_int-front :
    (v : ℕ) (rest : List ℕ) → v < 2 ^ 32 → get_int (put_32bit v ++ rest) ≡ ok (v, rest)
unfolding get_int
get_int-front v rest h =
    rw (get-front 4 (put_32bit v) rest (unfold put_32bit in refl), get_32bit-put_32bit v h)

pub get_string-front :
    (s rest : List ℕ)
    → length s ≤ 256 * 1024
    → get_string (put_32bit (length s) ++ (s ++ rest)) ≡ ok (s, rest)
unfolding get_string
get_string-front s rest h =
    let short : ltb (256 * 1024) (length s) ≡ false = ground arith in
    rw (get_int-front (length s) (s ++ rest) (omega arith), short)
      (get-front (length s) s rest refl)

abbrev pub encoding : Item → List ℕ
encoding (char c) = byte c ∷ []
encoding (int v) = put_32bit v
encoding (string s) = put_32bit (length s) ++ s

abbrev pub encodings : List Item → List ℕ
encodings [] = []
encodings (x ∷ xs) = encoding x ++ encodings xs

put_item-encoding : (q : Queue) (x : Item) → put_item q x ≡ q ++ encoding x
unfolding put_item put_char put_string put_int Queue.append
put_item-encoding q (char c) = refl
put_item-encoding q (int v) = refl
put_item-encoding q (string s) = append_assoc q (put_32bit (length s)) s

pub put_items-encodings : (q : Queue) (xs : List Item) → put_items q xs ≡ q ++ encodings xs
unfolding put_items
put_items-encodings q [] = sym (append-nil q)
put_items-encodings q (x ∷ xs) =
    put_items-encodings (put_item q x) xs
    ∙ ap (λ t. t ++ encodings xs) (put_item-encoding q x)
    ∙ append_assoc q (encoding x) (encodings xs)

pub get_item-encoding :
    (x : Item) (rest : List ℕ) → Fits x → get_item (encoding x ++ rest) (kind x) ≡ ok (x, rest)
unfolding get_item get_char
get_item-encoding (char c) rest h =
    let same : byte c ≡ c = omega arith in rw (get-front 1 (byte c ∷ []) rest refl, same)
get_item-encoding (int v) rest h = rw (get_int-front v rest h)
get_item-encoding (string s) rest h =
    rw (append_assoc (put_32bit (length s)) s rest, get_string-front s rest h)

get_items-encodings :
    (xs : List Item) (rest : List ℕ)
    → All Fits xs
    → get_items (encodings xs ++ rest) (map kind xs) ≡ ok (xs, rest)
unfolding get_items
get_items-encodings [] rest h = refl
get_items-encodings (x ∷ xs) rest h = rw (
  append_assoc (encoding x) (encodings xs) rest,
  get_item-encoding x (encodings xs ++ rest) h.0,
  get_items-encodings xs rest h.1,
)

-- Items that fit the wire and are put into an empty buffer one after the other are read back, in
-- the same order and with the same values, by the calls of their kinds, and leave the bytes that
-- follow them.
pub get_items-put_items :
    (xs : List Item) (rest : List ℕ)
    → All Fits xs
    → get_items (put_items [] xs ++ rest) (map kind xs) ≡ ok (xs, rest)
get_items-put_items xs rest h = rw (put_items-encodings [] xs) (get_items-encodings xs rest h)
