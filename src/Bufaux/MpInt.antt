-- ===== src/Bufaux/MpInt.antt =====
-- buffer_put_mp_int and buffer_get_mp_int of bufaux.c: integers of multiple precision in a buffer.
-- The integers are those of the gmp library, which is an interface. Hexadecimal digits are the
-- numbers 0 to 15.
pub mod RoundTrip
pub mod Instances
use ssh_1_history.Prelude.{
  ℕ, zero, suc, ◌+◌, ◌*◌, ◌/◌, ◌%◌, ◌^◌, ◌≡◌, ◌<◌, ◌↔◌, Bool, true, false, not, undefined_behaviour,
  List, [], ◌∷◌, Option, none, some, Result, ok, err, ◌>>=◌, ◌>>◌, guard, assertion_failed, length,
  get_or, All, ◌==◌,
}
use ssh_1_history.Buffer.Queue
use ssh_1_history.Buffer.Queue.{Queue}
use ssh_1_history.Bufaux.{byte}

-- What bufaux.c uses of gmp, and what its documentation says of it. `set_str` of a string that is no
-- number is `none` and leaves the variable as it is; the size in a base that is a power of 2 is
-- exact, and 1 for zero.
pub record Gmp : Type 1 where
  pub Mpz : Type 0
  pub init : Mpz
  pub get_str : Mpz → List ℕ
  pub set_str : List ℕ → Option Mpz
  pub sizeinbase_2 : Mpz → ℕ
  pub sizeinbase_16 : Mpz → ℕ
  -- mpz_cmp (a, b) == 0
  pub same : Mpz → Mpz → Bool
  pub get_str-digits : (v : Mpz) → All (λ d. d < 16) (get_str v)
  pub length-get_str : (v : Mpz) → length (get_str v) ≡ sizeinbase_16 v
  pub sizeinbase_positive : (v : Mpz) → 0 < sizeinbase_2 v
  pub sizeinbase_exact : (v : Mpz) → sizeinbase_16 v ≡ (sizeinbase_2 v + 3) / 4
  pub set_str-get_str : (v : Mpz) → set_str (get_str v) ≡ some v
  pub set_str_leading : (d : ℕ) (ds : List ℕ) → set_str (0 ∷ d ∷ ds) ≡ set_str (d ∷ ds)
  pub same_iff : (a b : Mpz) → (same a b ≡ true) ↔ (a ≡ b)

-- PUT_16BIT
unfoldable pub put_16bit : ℕ → List ℕ
put_16bit v = byte (v / 2 ^ 8) ∷ byte v ∷ []

-- GET_16BIT
pub get_16bit : List ℕ → ℕ
get_16bit cp = get_or cp 0 0 * 2 ^ 8 + get_or cp 1 0

-- The loop that converts two digits a time.
unfoldable pub pack : List ℕ → List ℕ
pack [] = []
pack (d ∷ []) = d ∷ []
pack (h ∷ (l ∷ ds)) = (h * 16 + l) ∷ pack ds

-- An odd digit comes first, on its own.
unfoldable pub to_bytes : Bool → List ℕ → List ℕ
to_bytes true [] = []
to_bytes true (d ∷ ds) = d ∷ pack ds
to_bytes false ds = pack ds

-- The loop that reads `n` bytes as two digits each.
unfoldable pub read_hex : ℕ → Queue → Result (List ℕ × Queue)
read_hex zero q = ok ([], q)
read_hex (suc n) q = do
  (b, r) ← Queue.get q 1
  (ds, t) ← read_hex n r
  ok (get_or b 0 0 / 16 ∷ get_or b 0 0 % 16 ∷ ds, t)

value_or : {A : Type 0} → A → Option A → A
value_or a none = a
value_or a (some b) = b

module _ (g : Gmp) where
  pub put_mp_int : Queue → g.Mpz → Result Queue
  unfolding to_bytes put_16bit
  put_mp_int q value = do
    let bits = g.sizeinbase_2 value
    let buf = to_bytes (g.sizeinbase_16 value % 2 == 1) (g.get_str value)
    guard (length buf == (bits + 7) / 8) assertion_failed
    ok (Queue.append (Queue.append q (put_16bit bits)) buf)

  -- `value` is what the variable held before; every caller has just initialized it. For no bits, the
  -- block for the digits is not written, and read all the same.
  unfoldable pub get_mp_int : Queue → g.Mpz → Result (g.Mpz × Queue)
  unfolding read_hex get_16bit value_or
  get_mp_int q value = do
    (buf, r) ← Queue.get q 2
    guard (not (get_16bit buf == 0)) undefined_behaviour
    (hex, t) ← read_hex ((get_16bit buf + 7) / 8) r
    ok (value_or value (g.set_str hex), t)
