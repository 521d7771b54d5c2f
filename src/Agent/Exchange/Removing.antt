-- ===== src/Agent/Exchange/Removing.antt =====
-- The client removes an identity.
use ssh_1_history.Prelude.{
  ◌⊎◌, subst, ℕ, ◌*◌, ◌^◌, ◌<◌, ◌≤◌, ◌≡◌, refl, sym, ap, ◌∙◌, true, false, List, [], ◌∷◌, ◌++◌,
  append-nil, Option, none, some, Result, ok, ◌>>=◌, length, arith, Option-cases, inl, inr,
}
use ssh_1_history.Buffer.Queue
use ssh_1_history.Buffer.Queue.{Queue}
use ssh_1_history.Bufaux
use ssh_1_history.Bufaux.{byte, put_32bit, get_32bit}
use ssh_1_history.Bufaux.Message.{get_int-front}
use ssh_1_history.Bufaux.MpInt.{Gmp, get_mp_int}
use ssh_1_history.Bufaux.MpInt.RoundTrip.{mp_bytes, get_mp_int-mp_bytes}
use ssh_1_history.Agent.Code
use ssh_1_history.Agent.{
  SocketEntry, Identity, Decryptor, reply_code, remove_key, remove_identity, handle,
}
use ssh_1_history.Agent.Client
use ssh_1_history.Agent.Client.{
  Socket, PublicKey, framed, exchange, outcome, read_reply, reply_bytes, read_listing,
  check_listing, get_next_identity, get_first_identity, get_more_identities, list_identities,
  add_message, remove_message,
}
use ssh_1_history.Agent.Exchange.{
  arrived, sent, serve, after, Answers, process_message-framed, exchange-Answers, success-outcome,
  after-Answers,
}
use ssh_1_history.Agent.Wire.{Short, remove_message-bytes}
use mathlib.Core.List.{Mem}
use ssh_1_history.Agent.Distinct.{
  Distinct, Without-Distinct, Without, remove_key-Without, remove_key-none, moduli,
}

abbrev pub remove_bytes : (g : Gmp) (bits : ℕ) (e n : g.Mpz) → List ℕ
remove_bytes g bits e n =
    Code.remove_rsa_identity ∷ (put_32bit bits ++ (mp_bytes g e ++ mp_bytes g n))

-- The agent's answer.
abbrev told : {A : Type 0} → Option A → ℕ
told none = Code.failure
told (some a) = Code.success

module _ {g : Gmp} where
  -- What the agent holds then.
  abbrev removed : List (Identity g) → Option (List (Identity g)) → List (Identity g)
  removed ids none = ids
  removed ids (some js) = js

  remove_identity-Answers :
      (r : Decryptor g) (ids : List (Identity g)) (bits : ℕ) (e n : g.Mpz)
      → bits < 2 ^ 32
      → Short g e
      → Short g n
      → length (remove_bytes g bits e n) ≤ 30 * 1024
      → Answers r ids
          (remove_bytes g bits e n)
          (removed ids (remove_key n ids))
          (told (remove_key n ids) ∷ [])
  unfolding handle remove_identity reply_code framed put_32bit Bufaux.put_char Bufaux.put_int
      Queue.append
  remove_identity-Answers r ids bits e n hb he hn h =
      process_message-framed r ids Code.remove_rsa_identity
        (put_32bit bits ++ (mp_bytes g e ++ mp_bytes g n)) h
      ∙ rw (get_int-front bits _ hb, get_mp_int-mp_bytes g e g.init (mp_bytes g n) he, last)
          (elim (remove_key n ids)
            as (λ o.
              elim o as (λ x. Result (List (Identity g) × SocketEntry)) [
                | none ↦ ok (ids, reply_code (arrived []) Code.failure)
                | some rest ↦ ok (rest, reply_code (arrived []) Code.success)
              ]
              ≡ ok (removed ids o, sent (framed (told o ∷ [])))) [ none ↦ refl | some js ↦ refl ])
    where
      last : get_mp_int g (mp_bytes g n) g.init ≡ ok (n, [])
      last =
          ap (λ q. get_mp_int g q g.init) (sym (append-nil (mp_bytes g n)))
          ∙ get_mp_int-mp_bytes g n g.init [] hn

  outcome-failure :
      (r : Decryptor g) (ids js : List (Identity g)) (msg : List ℕ)
      → Answers r ids msg js (Code.failure ∷ [])
      → (exchange (serve r ids) msg >>= outcome) ≡ ok false
  unfolding outcome Queue.get Bufaux.get_char
  outcome-failure r ids js msg a =
      rw (exchange-Answers r ids js msg (Code.failure ∷ []) a (omega arith)) refl

  -- A client that asks an agent with distinct identities to remove one, by a message of at most 30 kB,
  -- is told whether there was an identity with that modulus. If so, the agent holds the others, in some
  -- order, and none with that modulus; if not, it holds what it held.
  pub remove_identity-Without :
      (r : Decryptor g) (ids : List (Identity g)) (bits : ℕ) (e n : g.Mpz)
      → bits < 2 ^ 32
      → Short g e
      → Short g n
      → length (remove_bytes g bits e n) ≤ 30 * 1024
      → Distinct ids
      → ((Client.remove_identity g (serve r ids) bits e n ≡ ok true)
          × Without n ids (after r ids (framed (remove_bytes g bits e n)))
          × (Mem n (moduli (after r ids (framed (remove_bytes g bits e n)))) → ⊥))
        ⊎ ((Client.remove_identity g (serve r ids) bits e n ≡ ok false)
            × (after r ids (framed (remove_bytes g bits e n)) ≡ ids)
            × (Mem n (moduli ids) → ⊥))
  unfolding Client.remove_identity
  remove_identity-Without r ids bits e n hb he hn h v =
      let a = remove_identity-Answers r ids bits e n hb he hn h in
      let msg : List ℕ = remove_bytes g bits e n in
      elim (Option-cases (remove_key n ids)) [
        | inl gone ↦
            let b : Answers r ids msg ids (Code.failure ∷ []) =
              subst (λ o. Answers r ids msg (removed ids o) (told o ∷ [])) gone a in
            inr (
              rw (remove_message-bytes g bits e n) (outcome-failure r ids ids msg b),
              after-Answers r ids ids msg (Code.failure ∷ []) b,
              remove_key-none n ids gone,
            )
        | inr (js, found) ↦
            let b : Answers r ids msg js (Code.success ∷ []) =
              subst (λ o. Answers r ids msg (removed ids o) (told o ∷ [])) found a in
            let w = remove_key-Without n ids js found in
            inl (
              rw (remove_message-bytes g bits e n) (success-outcome r ids js msg b),
              rw (after-Answers r ids js msg (Code.success ∷ []) b) w,
              rw (after-Answers r ids js msg (Code.success ∷ []) b) (Without-Distinct w v).1,
            )
      ]
