-- ===== src/Cipher.antt =====
-- What packet.c needs of cipher.c and of the zlib streams behind compress.c, as interfaces, and the
-- numbers of cipher.h.
pub mod Instances
use ssh_1_history.Prelude.{ℕ, ◌%◌, ◌^◌, ◌<◌, ◌≡◌, List, Option, some, length, All}

abbrev pub ssh_cipher_none : ℕ
ssh_cipher_none = 0

abbrev pub ssh_cipher_idea : ℕ
ssh_cipher_idea = 1

abbrev pub IsByte : ℕ → Type 0
IsByte c = c < 2 ^ 8

-- A cipher in its two directions. `Synced s r` says that `r` decrypts what `s` encrypts next; it
-- holds again after each message of whole blocks.
pub record Cipher : Type 1 where
  pub Context : Type 0
  pub type : Context → ℕ
  pub idea_iv : Context → List ℕ
  pub encrypt : Context → List ℕ → List ℕ × Context
  pub decrypt : Context → List ℕ → List ℕ × Context
  pub Synced : Context → Context → Type 0
  pub length-encrypt : (s : Context) (src : List ℕ) → length (encrypt s src).0 ≡ length src
  pub decrypt-encrypt :
      (s r : Context) (src : List ℕ)
      → Synced s r
      → length src % 8 ≡ 0
      → All IsByte src
      → ((decrypt r (encrypt s src).0).0 ≡ src)
        × Synced (encrypt s src).1 (decrypt r (encrypt s src).0).1

-- The two zlib streams of compress.c. zlib is not modelled: that `deflate` with
-- a flush puts out bytes for every input, and that `inflate` undoes it on streams that have run in
-- step, is what its documentation promises. `none` is an error of `inflate`, on which
-- compress.c calls `fatal`.
pub record Codec : Type 1 where
  pub Deflate : Type 0
  pub Inflate : Type 0
  pub compress : Deflate → List ℕ → List ℕ × Deflate
  pub uncompress : Inflate → List ℕ → Option (List ℕ × Inflate)
  pub Synced : Deflate → Inflate → Type 0
  pub compress-IsByte :
      (o : Deflate) (src : List ℕ) → All IsByte src → All IsByte (compress o src).0
  pub compress_some : (o : Deflate) (src : List ℕ) → 0 < length (compress o src).0
  pub uncompress-compress :
      (o : Deflate) (i : Inflate) (src : List ℕ)
      → Synced o i
      → (j : Inflate) × (uncompress i (compress o src).0 ≡ some (src, j))
        × Synced (compress o src).1 j

-- The generator of random.c, which packet.c draws padding from.
pub record Generator : Type 1 where
  pub State : Type 0
  pub get_byte : State → ℕ × State
  pub get_byte-IsByte : (g : State) → IsByte (get_byte g).0
