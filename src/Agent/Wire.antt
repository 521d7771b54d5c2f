-- ===== src/Agent/Wire.antt =====
-- The bytes of an identity in the messages between the client and the agent.
use ssh_1_history.Prelude.{
  ℕ, zero, suc, ◌*◌, ◌^◌, ◌<◌, ◌≤◌, ◌≡◌, refl, List, [], ◌∷◌, ◌++◌, append_assoc, append-nil, map,
  some, ok, length, All, arith,
}
use ssh_1_history.Buffer.Queue
use ssh_1_history.Buffer.Queue.{Queue}
use ssh_1_history.Bufaux
use ssh_1_history.Bufaux.{byte, put_32bit}
use ssh_1_history.Bufaux.MpInt.{Gmp, get_mp_int}
use ssh_1_history.Bufaux.MpInt.RoundTrip.{mp_bytes, put_mp_int-ok, get_mp_int-mp_bytes}
use ssh_1_history.Bufaux.Message.{get_int-front, get_string-front}
use ssh_1_history.Agent.Code
use ssh_1_history.Agent.{Identity, get_identity, until_null, put_identities}
use ssh_1_history.Agent.Client.{
  PublicKey, get_next_identity, get_more_identities, add_message, remove_message,
}

abbrev pub string_bytes : List ℕ → List ℕ
string_bytes s = put_32bit (length s) ++ s

abbrev pub Short : (g : Gmp) → g.Mpz → Type 0
Short g v = g.sizeinbase_2 v < 2 ^ 16

get_mp :
    (g : Gmp) (v : g.Mpz) (rest : List ℕ)
    → Short g v
    → get_mp_int g (mp_bytes g v ++ rest) g.init ≡ ok (v, rest)
get_mp g v rest h = get_mp_int-mp_bytes g v g.init rest h

get_comment :
    (s rest : List ℕ)
    → length s ≤ 256 * 1024
    → Bufaux.get_string (string_bytes s ++ rest) ≡ ok (s, rest)
get_comment s rest h = rw (append_assoc (put_32bit (length s)) s rest) (get_string-front s rest h)

length-until_null : (cs : List ℕ) → length (until_null cs) ≤ length cs
unfolding until_null
length-until_null [] = omega arith
length-until_null (zero ∷ cs) = omega arith
length-until_null (suc c ∷ cs) = omega (arith, length-until_null cs)

pub remove_message-bytes :
    (g : Gmp) (bits : ℕ) (e n : g.Mpz)
    → remove_message g bits e n
      ≡ ok (byte Code.remove_rsa_identity ∷ (put_32bit bits ++ (mp_bytes g e ++ mp_bytes g n)))
unfolding remove_message Bufaux.put_char Bufaux.put_int Queue.append
remove_message-bytes g bits e n = simp (put_mp_int-ok g, append_assoc) refl

module _ {g : Gmp} where
  -- An identity whose parts fit the encodings.
  pub record FitsWire (k : Identity g) : Type 0 where
    pub bits : k.bits < 2 ^ 32
    pub n : Short g k.n
    pub e : Short g k.e
    pub d : Short g k.d
    pub u : Short g k.u
    pub p : Short g k.p
    pub q : Short g k.q
    pub comment : length k.comment ≤ 256 * 1024

  -- The seven numbers and the comment of an identity.
  abbrev pub identity_bytes : Identity g → List ℕ
  identity_bytes k =
      put_32bit k.bits
      ++ (mp_bytes g k.n
          ++ (mp_bytes g k.e
              ++ (mp_bytes g k.d
                  ++ (mp_bytes g k.u
                      ++ (mp_bytes g k.p ++ (mp_bytes g k.q ++ string_bytes k.comment))))))

  -- The part of it that is public, with the comment up to a null.
  abbrev pub public_bytes : Identity g → List ℕ
  public_bytes k =
      put_32bit k.bits
      ++ (mp_bytes g k.e ++ (mp_bytes g k.n ++ string_bytes (until_null k.comment)))

  pub get_identity-bytes :
      (k : Identity g) (rest : List ℕ)
      → FitsWire k
      → get_identity (identity_bytes k ++ rest) ≡ ok (k, rest)
  unfolding get_identity
  get_identity-bytes k rest f =
      rw
        (
          nested,
          get_int-front k.bits _ f.bits,
          get_mp g k.n _ f.n,
          get_mp g k.e _ f.e,
          get_mp g k.d _ f.d,
          get_mp g k.u _ f.u,
          get_mp g k.p _ f.p,
          get_mp g k.q _ f.q,
          get_comment k.comment rest f.comment,
        )
        refl
    where
      nested :
          identity_bytes k ++ rest
          ≡ put_32bit k.bits
            ++ (mp_bytes g k.n
                ++ (mp_bytes g k.e
                    ++ (mp_bytes g k.d
                        ++ (mp_bytes g k.u
                            ++ (mp_bytes g k.p
                                ++ (mp_bytes g k.q ++ (string_bytes k.comment ++ rest)))))))
      nested = simp append_assoc refl

  pub add_message-bytes :
      (k : Identity g) → add_message k ≡ ok (byte Code.add_rsa_identity ∷ identity_bytes k)
  unfolding add_message Bufaux.put_char Bufaux.put_int Bufaux.put_string Queue.append
  add_message-bytes k = simp (put_mp_int-ok g, append_assoc) refl

  abbrev pub publics : List (Identity g) → List ℕ
  publics [] = []
  publics (k ∷ ks) = public_bytes k ++ publics ks

  pub put_identities-publics :
      (q : Queue) (ks : List (Identity g)) → put_identities q ks ≡ ok (q ++ publics ks)
  unfolding put_identities Bufaux.put_int Bufaux.put_string Queue.append
  put_identities-publics q [] = rw (append-nil q) refl
  put_identities-publics q (k ∷ ks) =
      let later : (r : Queue) → put_identities r ks ≡ ok (r ++ publics ks) =
        λ r. put_identities-publics r ks in
      simp (put_mp_int-ok g, later, append_assoc) refl

  abbrev pub public : Identity g → PublicKey g
  public k = record { bits = k.bits; e = k.e; n = k.n; comment = until_null k.comment }

  pub get_next_identity-public :
      (k : Identity g) (left : ℕ) (rest : List ℕ)
      → FitsWire k
      → get_next_identity (suc left) (public_bytes k ++ rest) ≡ ok (some (public k, (left, rest)))
  unfolding get_next_identity
  get_next_identity-public k left rest f =
      rw
        (
          nested,
          get_int-front k.bits _ f.bits,
          get_mp g k.e _ f.e,
          get_mp g k.n _ f.n,
          get_comment (until_null k.comment) rest
              (omega (arith, f.comment, length-until_null k.comment)),
        )
        refl
    where
      nested :
          public_bytes k ++ rest
          ≡ put_32bit k.bits
            ++ (mp_bytes g k.e ++ (mp_bytes g k.n ++ (string_bytes (until_null k.comment) ++ rest)))
      nested = simp append_assoc refl

  pub get_more_identities-publics :
      (ks : List (Identity g)) (left : ℕ)
      → All FitsWire ks
      → length ks ≤ left
      → get_more_identities left (length ks) (publics ks) ≡ ok (map public ks)
  unfolding get_more_identities
  get_more_identities-publics [] zero f h = refl
  get_more_identities-publics [] (suc left) f h = unfold get_next_identity in refl
  get_more_identities-publics (k ∷ ks) zero f h = absurd (omega arith)
  get_more_identities-publics (k ∷ ks) (suc left) f h =
      rw
        (
          get_next_identity-public k (length ks) (publics ks) f.0,
          get_more_identities-publics ks left f.1 (omega arith),
        )
        refl
