-- ===== src/Cipher/Instances.antt =====
-- Implementations of the interfaces: the cipher `none` of cipher.c, which copies, and arcfour.
use ssh_1_history.Prelude.{ℕ, ◌≡◌, refl, sym, ap, ◌∙◌, List, []}
use ssh_1_history.Arcfour
use ssh_1_history.Arcfour.{ArcfourContext}
use ssh_1_history.Arcfour.Stream.{decrypt-encrypt, length-encrypt}
use ssh_1_history.Cipher.{Cipher, ssh_cipher_none}

abbrev pub ssh_cipher_arcfour : ℕ
ssh_cipher_arcfour = 5

abbrev pub cipher_none : Cipher
cipher_none = record {
  Context = Unit;
  type = λ ctx. ssh_cipher_none;
  idea_iv = λ ctx. [];
  encrypt = λ ctx src. (src, ctx);
  decrypt = λ ctx src. (src, ctx);
  Synced = λ s r. Unit;
  length-encrypt = λ s src. refl;
  decrypt-encrypt = λ s r src synced blocks bytes. (refl, tt);
}

-- The contexts of the two sides are in step when they are equal.
abbrev pub cipher_arcfour : Cipher
cipher_arcfour = record {
  Context = ArcfourContext;
  type = λ ctx. ssh_cipher_arcfour;
  idea_iv = λ ctx. [];
  encrypt = Arcfour.encrypt;
  decrypt = Arcfour.decrypt;
  Synced = λ s r. s ≡ r;
  length-encrypt = length-encrypt;
  decrypt-encrypt = λ s r src same blocks bytes. arcfour_step s r src same;
}
  where
    arcfour_step :
        (s r : ArcfourContext) (src : List ℕ)
        → s ≡ r
        → ((Arcfour.decrypt r (Arcfour.encrypt s src).0).0 ≡ src)
          × ((Arcfour.encrypt s src).1 ≡ (Arcfour.decrypt r (Arcfour.encrypt s src).0).1)
    arcfour_step s r src same =
        let e : Arcfour.decrypt r (Arcfour.encrypt s src).0 ≡ (src, (Arcfour.encrypt s src).1) =
          ap (λ t. Arcfour.decrypt t (Arcfour.encrypt s src).0) (sym same)
          ∙ decrypt-encrypt s src in
        (ap (λ r. r.0) e, sym (ap (λ r. r.1) e))
