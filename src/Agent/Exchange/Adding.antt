-- ===== src/Agent/Exchange/Adding.antt =====
-- The client adds an identity, and finds it when it asks for the identities.
use ssh_1_history.Prelude.{
  ℕ, ◌*◌, ◌≤◌, ◌≡◌, refl, sym, ap, ◌∙◌, true, List, [], ◌∷◌, ◌++◌, append-nil, map, ok, length,
  if◌then◌else◌, All, Bool-cases, inl, inr,
}
use ssh_1_history.Buffer.Queue
use ssh_1_history.Buffer.Queue.{Queue}
use ssh_1_history.Bufaux
use ssh_1_history.Bufaux.{byte, put_32bit, get_32bit}
use ssh_1_history.Bufaux.MpInt.{Gmp}
use ssh_1_history.Agent.Code
use ssh_1_history.Agent
use ssh_1_history.Agent.{
  SocketEntry, Identity, Decryptor, reply, reply_code, request_identity, remove_key,
  remove_identity, remove_all_identities, has_key, add_identity, handle, process_message,
}
use ssh_1_history.Agent.Client
use ssh_1_history.Agent.Client.{
  Socket, PublicKey, framed, exchange, outcome, read_reply, reply_bytes, read_listing,
  check_listing, get_next_identity, get_first_identity, get_more_identities, list_identities,
  add_message, remove_message,
}
use ssh_1_history.Agent.Exchange.{
  serve, after, Answers, process_message-framed, success-outcome, after-Answers,
}
use ssh_1_history.Agent.Exchange.Listing.{listing, list_identities-serve}
use ssh_1_history.Agent.Wire.{
  FitsWire, identity_bytes, get_identity-bytes, add_message-bytes, public,
}

module _ {g : Gmp} where
  -- The identities after an identity is added.
  abbrev pub added : List (Identity g) → Identity g → List (Identity g)
  added ids k = if has_key k.n ids then ids else ids ++ (k ∷ [])

  abbrev pub add_bytes : Identity g → List ℕ
  add_bytes k = Code.add_rsa_identity ∷ identity_bytes k

  add_identity-Answers :
      (r : Decryptor g) (ids : List (Identity g)) (k : Identity g)
      → FitsWire k
      → length (add_bytes k) ≤ 30 * 1024
      → Answers r ids (add_bytes k) (added ids k) (Code.success ∷ [])
  unfolding handle add_identity reply_code framed put_32bit Bufaux.put_char Bufaux.put_int
      Queue.append
  add_identity-Answers r ids k f h =
      process_message-framed r ids Code.add_rsa_identity (identity_bytes k) h ∙ rw read refl
    where
      read : Agent.get_identity (identity_bytes k) ≡ ok (k, [])
      read = ap Agent.get_identity (sym (append-nil (identity_bytes k))) ∙ get_identity-bytes k [] f

  add_identity-serve :
      (r : Decryptor g) (ids : List (Identity g)) (k : Identity g)
      → FitsWire k
      → length (add_bytes k) ≤ 30 * 1024
      → Client.add_identity (serve r ids) k ≡ ok true
  unfolding Client.add_identity
  add_identity-serve r ids k f h =
      rw (add_message-bytes k)
        (success-outcome r ids (added ids k) (add_bytes k) (add_identity-Answers r ids k f h))

  All-snoc :
      (ids : List (Identity g)) (k : Identity g)
      → All FitsWire ids
      → FitsWire k
      → All FitsWire (ids ++ (k ∷ []))
  All-snoc [] k f fk = (fk, tt)
  All-snoc (j ∷ js) k f fk = (f.0, All-snoc js k f.1 fk)

  added-FitsWire :
      (ids : List (Identity g)) (k : Identity g)
      → All FitsWire ids
      → FitsWire k
      → All FitsWire (added ids k)
  added-FitsWire ids k f fk = elim (Bool-cases (has_key k.n ids)) [
    | inl known ↦ rw known f
    | inr new ↦ rw new (All-snoc ids k f fk)
  ]

  -- An identity whose parts fit the encodings, and whose message is of at most 30 kB, is put into a
  -- message, and the agent reads it: the client is told of success, and when it then asks for the
  -- identities, and they are at most 1024 and fit into 30 kB, it gets the public parts of those that
  -- were there, with the new one behind them unless there was one with its modulus, each with its
  -- comment up to a null in it.
  pub add_identity-list_identities :
      (r : Decryptor g) (ids : List (Identity g)) (k : Identity g)
      → All FitsWire ids
      → FitsWire k
      → length (add_bytes k) ≤ 30 * 1024
      → length (added ids k) ≤ 1024
      → length (listing (added ids k)) ≤ 30 * 1024
      → (Client.add_identity (serve r ids) k ≡ ok true)
        × (add_message k ≡ ok (add_bytes k))
        × (list_identities (serve r (after r ids (framed (add_bytes k))))
            ≡ ok (map public (added ids k)))
  add_identity-list_identities r ids k f fk h few small = (
    add_identity-serve r ids k fk h,
    add_message-bytes k,
    rw
        (after-Answers r ids (added ids k) (add_bytes k) (Code.success ∷ [])
          (add_identity-Answers r ids k fk h))
        (list_identities-serve r (added ids k) (added-FitsWire ids k f fk) few small),
  )
