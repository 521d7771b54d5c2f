-- ===== src/Bufaux.antt =====
-- bufaux.c and the msb-first macros of getput.h: integers, strings and characters in a buffer. The
-- buffer is the queue of its bytes, as `Buffer.Run` justifies. The functions are buffer_put_int,
-- buffer_get_int, ... without their prefix; an `unsigned int` has 32 bits.
pub mod Words
pub mod Message
pub mod MpInt
pub mod Reads
use Prim.Native.Nat.{bit_or}
use ssh_1_history.Prelude.{
  ℕ, ◌*◌, ◌/◌, ◌%◌, ◌^◌, List, [], ◌∷◌, Result, ok, err, ◌>>=◌, bad_string_length, length, get_or,
  ltb, if◌then◌else◌,
}
use ssh_1_history.Buffer.Queue
use ssh_1_history.Buffer.Queue.{Queue}

-- Conversion to `char`.
abbrev pub byte : ℕ → ℕ
byte x = x % 2 ^ 8

-- PUT_32BIT
unfoldable pub put_32bit : ℕ → List ℕ
put_32bit v = byte (v / 2 ^ 24) ∷ byte (v / 2 ^ 16) ∷ byte (v / 2 ^ 8) ∷ byte v ∷ []

-- GET_32BIT
unfoldable pub get_32bit : List ℕ → ℕ
get_32bit cp =
    bit_or
      (bit_or (bit_or (get_or cp 0 0 * 2 ^ 24) (get_or cp 1 0 * 2 ^ 16)) (get_or cp 2 0 * 2 ^ 8))
      (get_or cp 3 0)

unfoldable pub put_int : Queue → ℕ → Queue
put_int q value = Queue.append q (put_32bit value)

unfoldable pub get_int : Queue → Result (ℕ × Queue)
get_int q = do (buf, r) ← Queue.get q 4; ok (get_32bit buf, r)

-- The caller's `len` is the length of the list.
unfoldable pub put_string : Queue → List ℕ → Queue
unfolding put_int
put_string q bytes = Queue.append (put_int q (length bytes)) bytes

-- The bytes returned are followed by a null character that is not counted and not shown here.
unfoldable pub get_string : Queue → Result (List ℕ × Queue)
get_string q = do
  (n, r) ← get_int q
  if ltb (256 * 1024) n then err (bad_string_length n) else Queue.get r n

unfoldable pub put_char : Queue → ℕ → Queue
put_char q value = Queue.append q (byte value ∷ [])

unfoldable pub get_char : Queue → Result (ℕ × Queue)
get_char q = do (buf, r) ← Queue.get q 1; ok (get_or buf 0 0, r)
