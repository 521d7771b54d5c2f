-- ===== src/Agent/Exchange.antt =====
-- The client of authfd.c and the agent of ssh-agent.c at the two ends of a socket.
pub mod Listing
pub mod Adding
pub mod Removing
pub mod Challenge
use ssh_1_history.Prelude.{
  ℕ, zero, suc, ◌+◌, ◌*◌, ◌^◌, ◌<◌, ◌≤◌, ◌≡◌, refl, sym, ap, ◌∙◌, Bool, true, false, not, List, [],
  ◌∷◌, ◌++◌, append_assoc, append-nil, map, Option, none, some, Result, ok, err, ◌>>=◌, length,
  length-append, take, drop, take-append, drop-append, ltb, leb, ◌==◌, if◌then◌else◌, All, arith,
  Bool-cases, Option-cases, inl, inr,
}
use ssh_1_history.Buffer.Queue
use ssh_1_history.Buffer.Queue.{Queue}
use ssh_1_history.Bufaux
use ssh_1_history.Bufaux.{byte, put_32bit, get_32bit}
use ssh_1_history.Bufaux.Words.{get_32bit-put_32bit}
use ssh_1_history.Bufaux.Message.{get_int-front}
use ssh_1_history.Bufaux.MpInt.{Gmp, get_mp_int}
use ssh_1_history.Bufaux.MpInt.RoundTrip.{mp_bytes, get_mp_int-mp_bytes}
use ssh_1_history.Agent.Code
use ssh_1_history.Agent
use ssh_1_history.Agent.{
  SocketEntry, Identity, Decryptor, reply, reply_code, request_identity, remove_key,
  remove_identity, remove_all_identities, has_key, add_identity, handle, process_message,
}
use ssh_1_history.Agent.Client
use ssh_1_history.Agent.Client.{
  Socket, PublicKey, framed, exchange, outcome, read_reply, reply_bytes, read_listing,
  check_listing, get_next_identity, get_first_identity, get_more_identities, list_identities,
  add_message, remove_message,
}
use ssh_1_history.Agent.Framing.{
  length-framed, get_32bit-framed, drop-framed, read_reply-framed, read_listing-framed,
}
use ssh_1_history.Agent.Wire.{
  Short, FitsWire, identity_bytes, public_bytes, get_identity-bytes, add_message-bytes,
  remove_message-bytes, publics, put_identities-publics, public, get_next_identity-public,
  get_more_identities-publics,
}
use ssh_1_history.Agent.Distinct.{Without, remove_key-Without, remove_key-none, moduli}

-- A socket of the agent on which bytes have arrived and none wait to be sent, and one the other way.
abbrev pub arrived : List ℕ → SocketEntry
arrived bytes = record { is_open = true; input = bytes; output = [] }

abbrev pub sent : List ℕ → SocketEntry
sent bytes = record { is_open = true; input = []; output = bytes }

module _ {g : Gmp} where
  -- A message that has arrived in full is handled.
  pub process_message-framed :
      (r : Decryptor g) (ids : List (Identity g)) (t : ℕ) (body : List ℕ)
      → length (t ∷ body) ≤ 30 * 1024
      → process_message r ids (arrived (framed (t ∷ body))) ≡ handle r t ids (arrived body)
  unfolding process_message Queue.consume Queue.get Bufaux.get_char
  process_message-framed r ids t body h =
      let long : ltb (length (framed (t ∷ body))) 5 ≡ false =
        ground (arith, length-framed (t ∷ body)) in
      let there : ltb (length (framed (t ∷ body))) 4 ≡ false =
        ground (arith, length-framed (t ∷ body)) in
      let small : ltb (30 * 1024) (length (t ∷ body)) ≡ false = ground arith in
      let whole : ltb (length (framed (t ∷ body))) (length (t ∷ body) + 4) ≡ false =
        ground (arith, length-framed (t ∷ body)) in
      let a_byte : ltb (length (t ∷ body)) 1 ≡ false = ground arith in
      rw (long, get_32bit-framed (t ∷ body) h, small, whole, there, drop-framed (t ∷ body), a_byte)
        refl

  -- The agent that holds `ids` at the other end: what it answers, and what it holds afterwards.
  abbrev pub serve : Decryptor g → List (Identity g) → Socket
  serve r ids bytes = elim (process_message r ids (arrived bytes)) as (λ x. Option (List ℕ)) [
    | ok (js, s) ↦ some s.output
    | err e ↦ none
  ]

  abbrev pub after : Decryptor g → List (Identity g) → List ℕ → List (Identity g)
  after r ids bytes = elim (process_message r ids (arrived bytes)) as (λ x. List (Identity g)) [
    | ok (js, s) ↦ js
    | err e ↦ ids
  ]

  -- The agent answers `msg` by `answer` and then holds `js`.
  abbrev pub Answers :
      Decryptor g → List (Identity g) → List ℕ → List (Identity g) → List ℕ → Type 0
  Answers r ids msg js answer =
      process_message r ids (arrived (framed msg)) ≡ ok (js, sent (framed answer))

  pub serve-Answers :
      (r : Decryptor g) (ids js : List (Identity g)) (msg answer : List ℕ)
      → Answers r ids msg js answer
      → serve r ids (framed msg) ≡ some (framed answer)
  serve-Answers r ids js msg answer a =
      ap (λ x. elim x as (λ y. Option (List ℕ)) [ ok (js, s) ↦ some s.output | err e ↦ none ]) a

  pub exchange-Answers :
      (r : Decryptor g) (ids js : List (Identity g)) (msg answer : List ℕ)
      → Answers r ids msg js answer
      → length answer ≤ 30 * 1024
      → exchange (serve r ids) msg ≡ ok (some answer)
  unfolding exchange
  exchange-Answers r ids js msg answer a h =
      ap (λ o. elim o as (λ x. Result (Option Queue)) [ none ↦ ok none | some s ↦ read_reply s ])
        (serve-Answers r ids js msg answer a)
      ∙ read_reply-framed answer h

  -- One byte, for success.
  pub success-outcome :
      (r : Decryptor g) (ids js : List (Identity g)) (msg : List ℕ)
      → Answers r ids msg js (Code.success ∷ [])
      → (exchange (serve r ids) msg >>= outcome) ≡ ok true
  unfolding outcome Queue.get Bufaux.get_char
  success-outcome r ids js msg a =
      rw (exchange-Answers r ids js msg (Code.success ∷ []) a (omega arith)) refl

  pub after-Answers :
      (r : Decryptor g) (ids js : List (Identity g)) (msg answer : List ℕ)
      → Answers r ids msg js answer
      → after r ids (framed msg) ≡ js
  after-Answers r ids js msg answer a =
      ap (λ x. elim x as (λ y. List (Identity g)) [ ok (js, s) ↦ js | err e ↦ ids ]) a
