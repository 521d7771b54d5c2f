-- ===== src/Tests/Ciphers.antt =====
-- Blowfish at a concrete key.
use ssh_1_history.Prelude.{ℕ, ◌≡◌, refl, List, [], ◌∷◌, ok, replicate, arith}
use ssh_1_history.Blowfish.{BlowfishContext}
use ssh_1_history.Blowfish.Key.{set_key}
use ssh_1_history.Blowfish.Chain.{cbc_encrypt, cbc_decrypt}
use ssh_1_history.Blowfish.Chain.RoundTrip.{cbc_decrypt-encrypt}
use ssh_1_history.Blowfish.Key.Range.{IsKeyed, set_key-IsKeyed}

abbrev unset : BlowfishContext
unset = record { s = []; p = []; iv = [] }

abbrev secret : List ℕ
secret = 0x73 ∷ 0x65 ∷ 0x63 ∷ []

set_key-IsKeyed_example : (d : BlowfishContext) × (set_key unset secret ≡ ok d) × IsKeyed d
set_key-IsKeyed_example = set_key-IsKeyed unset secret (omega arith) (omega arith)

abbrev keyed : BlowfishContext
keyed = record (set_key-IsKeyed unset secret (omega arith) (omega arith)).0 { iv = replicate 8 0 }

keyed-IsKeyed : IsKeyed keyed
keyed-IsKeyed =
    let k = (set_key-IsKeyed unset secret (omega arith) (omega arith)).2 in
    record { s_size = k.s_size; p_size = k.p_size; s_words = k.s_words; p_words = k.p_words }

cbc_decrypt-encrypt_example :
    (dst : List ℕ) × (after : BlowfishContext) × (cbc_encrypt keyed (replicate 16 7)
      ≡ ok (dst, after))
    × (cbc_decrypt keyed dst ≡ ok (replicate 16 7, after))
cbc_decrypt-encrypt_example =
    cbc_decrypt-encrypt keyed (replicate 16 7) keyed-IsKeyed (omega arith) refl (omega arith) refl
