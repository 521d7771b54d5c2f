-- ===== src/Arcfour/Stream.antt =====
-- Both directions use one key stream, so equal contexts cancel out.
use ssh_1_history.Prelude.{ℕ, ◌≡◌, refl, ap₂, List, [], ◌∷◌, length, arith}
use ssh_1_history.Prelude.Bits.Xor.{xor_cancel}
use ssh_1_history.Arcfour.{ArcfourContext, next_byte, encrypt, decrypt}

pub length-encrypt : (ctx : ArcfourContext) (src : List ℕ) → length (encrypt ctx src).0 ≡ length src
unfolding encrypt
length-encrypt ctx [] = refl
length-encrypt ctx (c ∷ src) = omega (arith, length-encrypt (next_byte ctx).1 src)

-- Decrypting in the context that encrypted gives the plaintext back, and both sides end in the same
-- context, so the next message decrypts as well.
pub decrypt-encrypt :
    (ctx : ArcfourContext) (src : List ℕ)
    → decrypt ctx (encrypt ctx src).0 ≡ (src, (encrypt ctx src).1)
unfolding decrypt encrypt
decrypt-encrypt ctx [] = refl
decrypt-encrypt ctx (c ∷ src) =
    let (k, ctx') = next_byte ctx in
    ap₂ (λ p (r : List ℕ × ArcfourContext). (p ∷ r.0, r.1)) (xor_cancel c k)
      (decrypt-encrypt ctx' src)
