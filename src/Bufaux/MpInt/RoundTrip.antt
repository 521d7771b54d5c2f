-- ===== src/Bufaux/MpInt/RoundTrip.antt =====
-- An integer of multiple precision is read back as it was put.
use ssh_1_history.Prelude.{
  ℕ, suc, ◌+◌, ◌*◌, ◌/◌, ◌%◌, ◌^◌, ◌≡◌, ◌<◌, refl, sym, ap, subst, ◌∙◌, true, false, List, [], ◌∷◌,
  ◌++◌, append_assoc, some, ok, length, All, ◌==◌, ==_iff, arith, Bool-cases, inl, inr,
}
use ssh_1_history.Buffer.Queue
use ssh_1_history.Buffer.Queue.{Queue}
use ssh_1_history.Bufaux.Message.{get-front}
use ssh_1_history.Bufaux.MpInt.{
  Gmp, put_16bit, get_16bit, pack, to_bytes, read_hex, value_or, put_mp_int, get_mp_int,
}

abbrev Digit : ℕ → Type 0
Digit d = d < 16

-- The digits of some bytes.
abbrev unpack : List ℕ → List ℕ
unpack [] = []
unpack (b ∷ bs) = b / 16 ∷ b % 16 ∷ unpack bs

read_hex-unpack : (bs rest : List ℕ) → read_hex (length bs) (bs ++ rest) ≡ ok (unpack bs, rest)
unfolding read_hex
read_hex-unpack [] rest = refl
read_hex-unpack (b ∷ bs) rest = rw (get-front 1 (b ∷ []) (bs ++ rest) refl, read_hex-unpack bs rest)

-- An even number of digits.
record Packed (ds : List ℕ) : Type 0 where
  size : length (pack ds) * 2 ≡ length ds
  back : unpack (pack ds) ≡ ds

pack-Packed : (ds : List ℕ) → All Digit ds → length ds % 2 ≡ 0 → Packed ds
unfolding pack
pack-Packed [] h e = record { size = refl; back = refl }
pack-Packed (d ∷ []) h e = absurd (omega arith)
pack-Packed (a ∷ (b ∷ ds)) h e =
    let p = pack-Packed ds h.1.1 (omega arith) in
    let high : (a * 16 + b) / 16 ≡ a = omega (arith, h.0, h.1.0) in
    let low : (a * 16 + b) % 16 ≡ b = omega (arith, h.0, h.1.0) in
    record { size = omega (arith, p.size); back = rw (high, low, p.back) }

module _ (g : Gmp) where
  -- The bytes of `value` and what their digits are worth.
  record Spelled (value : g.Mpz) (buf : List ℕ) : Type 0 where
    size : length buf ≡ (g.sizeinbase_2 value + 7) / 8
    worth : g.set_str (unpack buf) ≡ some value

  to_bytes-Spelled :
      (value : g.Mpz) (ds : List ℕ)
      → g.get_str value ≡ ds
      → Spelled value (to_bytes (g.sizeinbase_16 value % 2 == 1) ds)
  unfolding to_bytes
  to_bytes-Spelled value [] e =
      let n : g.sizeinbase_16 value ≡ 0 = sym (g.length-get_str value) ∙ ap length e in
      let even : (g.sizeinbase_16 value % 2 == 1) ≡ false = ground arith in
      rw even (record {
        size = unfold pack in omega (arith, n, g.sizeinbase_exact value);
        worth = unfold pack in ap g.set_str (sym e) ∙ g.set_str-get_str value;
      })
  to_bytes-Spelled value (d ∷ ds) e =
      let n : g.sizeinbase_16 value ≡ suc (length ds) =
        sym (g.length-get_str value) ∙ ap length e in
      let small : All Digit (d ∷ ds) = subst (All Digit) e (g.get_str-digits value) in
      elim (Bool-cases (g.sizeinbase_16 value % 2 == 1)) [
        | inl odd ↦
            let p = pack-Packed ds small.1 (ground (arith, n)) in
            let zero_first : d / 16 ≡ 0 = omega (arith, small.0) in
            let itself : d % 16 ≡ d = omega (arith, small.0) in
            rw odd (record {
              size = omega (arith, n, p.size, g.sizeinbase_exact value);
              worth =
                  rw (zero_first, itself, p.back)
                    (g.set_str_leading d ds ∙ ap g.set_str (sym e) ∙ g.set_str-get_str value);
            })
        | inr even ↦
            let p = pack-Packed (d ∷ ds) small (ground (arith, n)) in
            rw even (record {
              size = omega (arith, n, p.size, g.sizeinbase_exact value);
              worth = rw p.back (ap g.set_str (sym e) ∙ g.set_str-get_str value);
            })
      ]

  -- The bytes that `buffer_put_mp_int` appends for `value`.
  abbrev pub mp_bytes : g.Mpz → List ℕ
  mp_bytes value =
      put_16bit (g.sizeinbase_2 value)
      ++ to_bytes (g.sizeinbase_16 value % 2 == 1) (g.get_str value)

  -- `buffer_put_mp_int` never fails its assertion, and appends.
  pub put_mp_int-ok : (q : Queue) (value : g.Mpz) → put_mp_int g q value ≡ ok (q ++ mp_bytes value)
  unfolding put_mp_int Queue.append
  put_mp_int-ok q value =
      let s = to_bytes-Spelled value (g.get_str value) refl in
      let fits : (length (to_bytes (g.sizeinbase_16 value % 2 == 1) (g.get_str value))
            == (g.sizeinbase_2 value + 7) / 8)
          ≡ true =
        (==_iff _ _).1 s.size in
      rw
        (
          fits,
          append_assoc q (put_16bit (g.sizeinbase_2 value))
              (to_bytes (g.sizeinbase_16 value % 2 == 1) (g.get_str value)),
        )
        refl

  -- An integer of less than 2 ^ 16 bits at the front of a buffer is read as it was put.
  pub get_mp_int-mp_bytes :
      (value old : g.Mpz) (rest : List ℕ)
      → g.sizeinbase_2 value < 2 ^ 16
      → get_mp_int g (mp_bytes value ++ rest) old ≡ ok (value, rest)
  unfolding get_mp_int get_16bit put_16bit value_or
  get_mp_int-mp_bytes value old rest small =
      let bits : ℕ = g.sizeinbase_2 value in
      let buf : List ℕ = to_bytes (g.sizeinbase_16 value % 2 == 1) (g.get_str value) in
      let s = to_bytes-Spelled value (g.get_str value) refl in
      let count : (bits / 2 ^ 8 % 2 ^ 8 * 2 ^ 8 + bits % 2 ^ 8 + 7) / 8 ≡ length buf =
        omega (arith, s.size) in
      let some_bits : (bits / 2 ^ 8 % 2 ^ 8 * 2 ^ 8 + bits % 2 ^ 8 == 0) ≡ false =
        ground (arith, g.sizeinbase_positive value) in
      rw
        (
          append_assoc (put_16bit bits) buf rest,
          get-front 2 (put_16bit bits) (buf ++ rest) refl,
          some_bits,
          count,
          read_hex-unpack buf rest,
          s.worth,
        )
        refl
