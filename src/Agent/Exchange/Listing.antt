-- ===== src/Agent/Exchange/Listing.antt =====
-- The client asks for the identities and gets what the agent holds.
use ssh_1_history.Prelude.{
  ℕ, ◌*◌, ◌^◌, ◌≤◌, ◌≡◌, refl, ap, ◌∙◌, false, List, [], ◌∷◌, ◌++◌, map, Option, none, some, Result,
  ok, ◌>>=◌, length, ltb, leb, All, arith,
}
use ssh_1_history.Buffer.Queue
use ssh_1_history.Buffer.Queue.{Queue}
use ssh_1_history.Bufaux
use ssh_1_history.Bufaux.{byte, put_32bit, get_32bit}
use ssh_1_history.Bufaux.Message.{get_int-front}
use ssh_1_history.Bufaux.MpInt.{Gmp}
use ssh_1_history.Agent.Code
use ssh_1_history.Agent.{Identity, Decryptor, reply, request_identity, handle}
use ssh_1_history.Agent.Client.{
  PublicKey, framed, read_listing, check_listing, get_next_identity, get_first_identity,
  list_identities,
}
use ssh_1_history.Agent.Framing.{read_listing-framed}
use ssh_1_history.Agent.Exchange.{serve, Answers, process_message-framed, serve-Answers}
use ssh_1_history.Agent.Wire.{
  FitsWire, publics, put_identities-publics, public, get_next_identity-public,
  get_more_identities-publics,
}

module _ {g : Gmp} where
  abbrev pub listing : List (Identity g) → List ℕ
  listing ids = Code.rsa_identities_answer ∷ (put_32bit (length ids) ++ publics ids)

  request_identity-Answers :
      (r : Decryptor g) (ids : List (Identity g))
      → Answers r ids (Code.request_rsa_identities ∷ []) ids (listing ids)
  unfolding handle request_identity reply framed Bufaux.put_char Bufaux.put_int Queue.append
  request_identity-Answers r ids =
      process_message-framed r ids Code.request_rsa_identities [] (omega arith)
      ∙ rw (put_identities-publics _ ids) refl

  check_listing-listing :
      (ids : List (Identity g))
      → length ids ≤ 1024
      → check_listing (some (listing ids)) ≡ ok (some (length ids, publics ids))
  unfolding check_listing Queue.get
  check_listing-listing ids h =
      let there : ltb (length (listing ids)) 1 ≡ false = ground arith in
      let few : ltb 1024 (length ids) ≡ false = ground arith in
      let counted : leb (2 ^ 31) (length ids) ≡ false = ground arith in
      rw (there, get_int-front (length ids) (publics ids) (omega arith), few, counted) refl

  get_first_identity-serve :
      (r : Decryptor g) (ids : List (Identity g))
      → length ids ≤ 1024
      → length (listing ids) ≤ 30 * 1024
      → get_first_identity {g = g} (serve r ids) ≡ get_next_identity (length ids) (publics ids)
  unfolding get_first_identity
  get_first_identity-serve r ids few h =
      ap
        (λ o. elim o as (λ x. Result (Option (PublicKey g × (ℕ × Queue)))) [
          | none ↦ ok none
          | some s ↦ read_listing s >>= λ q. check_listing q >>= λ t. elim t [
            | none ↦ ok none
            | some (num, u) ↦ get_next_identity num u
          ]
        ])
        (serve-Answers r ids ids (Code.request_rsa_identities ∷ []) (listing ids)
          (request_identity-Answers r ids))
      ∙ rw
          (
            read_listing-framed Code.rsa_identities_answer (put_32bit (length ids) ++ publics ids)
                h,
            check_listing-listing ids few,
          )
          refl

  -- The client lists what the agent holds.
  pub list_identities-serve :
      (r : Decryptor g) (ids : List (Identity g))
      → All FitsWire ids
      → length ids ≤ 1024
      → length (listing ids) ≤ 30 * 1024
      → list_identities (serve r ids) ≡ ok (map public ids)
  unfolding list_identities
  list_identities-serve r [] f few h =
      rw (get_first_identity-serve r [] few h) (unfold get_next_identity in refl)
  list_identities-serve r (k ∷ ks) f few h =
      rw
        (
          get_first_identity-serve r (k ∷ ks) few h,
          get_next_identity-public k (length ks) (publics ks) f.0,
          get_more_identities-publics ks (length ks) f.1 (omega arith),
        )
        refl
