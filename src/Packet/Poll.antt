-- ===== src/Packet/Poll.antt =====
-- `packet_read_poll` as a whole: the types that it keeps to itself.
use ssh_1_history.Prelude.{
  ℕ, zero, suc, ◌+◌, ◌-◌, ◌*◌, ◌%◌, ◌<◌, ◌≡◌, ◌≢◌, refl, ap, not, ◌||◌, List, Result, disconnected,
  junk_left, attack_detected, corrupted_check_bytes, assertion_failed, Option, none, some, Ensures,
  Ensures-bind, Ensures-guard, returns, fails, length, take, drop, ltb, ◌==◌, Bool-cases, inl, inr,
  arith,
}
use ssh_1_history.Buffer.Queue.{Queue}
use ssh_1_history.Bufaux.{get_32bit}
use ssh_1_history.Bufaux.Reads.{
  Anything, consume-Ensures, get-Ensures, get_string-Ensures, consume_end-Ensures,
}
use ssh_1_history.Crc32.{crc32}
use ssh_1_history.Cipher.{Cipher, Codec, Generator}
use ssh_1_history.Packet.{
  Packet, Detector, attacked, decrypt, padded, or_corrupt, uncompress_incoming, open_packet,
  next_packet, skip_string, dispatch, read_poll_loop, read_poll, ssh_msg_disconnect, ssh_msg_ignore,
  ssh_msg_debug,
}

or_corrupt-Ensures {ℓ} : {A : Type ℓ} (o : Option A) → Ensures Anything (or_corrupt o)
unfolding or_corrupt
or_corrupt-Ensures none = fails (λ e. cc)
or_corrupt-Ensures (some a) = returns tt

decrypt-Ensures :
    (c : Cipher) (detect : Detector) (r : c.Context) (src : List ℕ)
    → Ensures Anything (decrypt c detect r src)
unfolding decrypt
decrypt-Ensures c detect r src =
    Ensures-bind _ Anything (Ensures-guard (length src % 8 == 0) {e = assertion_failed} (λ e. cc))
      λ _ _.
        Ensures-bind _ Anything
          (Ensures-guard (not (attacked c detect r src)) {e = disconnected attack_detected}
            (λ e. cc))
          λ _ _. returns tt

module _ {c : Cipher} {z : Codec} {g : Generator} where
  uncompress_incoming-Ensures :
      (p : Packet c z g) (q : Queue) → Ensures Anything (uncompress_incoming p q)
  unfolding uncompress_incoming
  uncompress_incoming-Ensures p q = elim (Bool-cases p.packet_compression) [
    | inl on ↦ rw on (or_corrupt-Ensures (z.uncompress p.incoming_stream q))
    | inr off ↦ rw off (returns tt)
  ]

  -- Opening a packet takes at least its length off the input.
  open_packet-shorter :
      (detect : Detector) (p : Packet c z g) (len : ℕ)
      → Ensures (λ r. length r.1.input < length p.input) (open_packet detect p len)
  unfolding open_packet
  open_packet-shorter detect p len =
      let Goal : ℕ × Packet c z g → Type 0 = λ r. length r.1.input < length p.input in
      Ensures-bind _ Goal (consume-Ensures p.input 4) λ input h.
        Ensures-bind _ Goal
          (Ensures-guard (length p.incoming_packet == 0) {e = disconnected junk_left} (λ e. cc))
          λ _ _.
            Ensures-bind Anything Goal (decrypt-Ensures c detect p.receive_context _) λ plain _.
              Ensures-bind _ Goal (consume-Ensures input (padded len)) λ input' h'.
                Ensures-bind _ Goal (consume-Ensures plain.0 (8 - len % 8)) λ body _.
                  Ensures-bind _ Goal
                    (Ensures-guard (len == length body) {e = assertion_failed} (λ e. cc))
                    λ _ _.
                      Ensures-bind _ Goal
                        (Ensures-guard
                          (crc32 (take (length plain.0 - 4) plain.0)
                            == get_32bit (drop (len - 4) body))
                          {e = disconnected corrupted_check_bytes} (λ e. cc))
                        λ _ _. Ensures-bind Anything Goal (consume_end-Ensures body 4) λ payload _.
                          Ensures-bind Anything Goal (uncompress_incoming-Ensures p payload)
                            λ content _.
                              Ensures-bind Anything Goal (get-Ensures content.0 1)
                                λ buf _. returns (omega (arith, h, h'))

  -- A round either waits, or finds a packet and shortens the input.
  abbrev Shortens : Packet c z g → Option (ℕ × Packet c z g) → Type 0
  Shortens p none = Unit
  Shortens p (some (type, q)) = length q.input < length p.input

  next_packet-Shortens :
      (detect : Detector) (p : Packet c z g) → Ensures (Shortens p) (next_packet detect p)
  unfolding next_packet
  next_packet-Shortens detect p =
      let len = get_32bit (take 4 p.input) in
      elim (Bool-cases (ltb (length p.input) (4 + 8))) [
        | inl short ↦ rw short (returns tt)
        | inr long ↦ elim (Bool-cases (ltb len (1 + 2 + 2) || ltb (256 * 1024) len)) [
          | inl bad ↦ rw (long, bad) (fails (λ e. cc))
          | inr good ↦ elim (Bool-cases (ltb (length p.input) (4 + padded len))) [
            | inl partial ↦ rw (long, good, partial) (returns tt)
            | inr whole ↦
                rw (long, good, whole)
                  (Ensures-bind _ (Shortens p) (open_packet-shorter detect p len)
                    (λ r h. returns h))
          ]
        ]
      ]

  -- What higher levels may see of a message's type.
  abbrev pub Visible : ℕ × Packet c z g → Type 0
  Visible r = (r.0 ≢ ssh_msg_disconnect) × (r.0 ≢ ssh_msg_ignore) × (r.0 ≢ ssh_msg_debug)

  skip_string-Ensures : (q : Packet c z g) → Ensures (λ r. r.input ≡ q.input) (skip_string q)
  unfolding skip_string
  skip_string-Ensures q =
      Ensures-bind Anything (λ r. r.input ≡ q.input) (get_string-Ensures q.incoming_packet)
        (λ r _. returns refl)

  dispatch-Ensures :
      (restart : Packet c z g → Result (ℕ × Packet c z g)) (p : Packet c z g)
      (found : Option (ℕ × Packet c z g))
      → Shortens p found
      → ((q : Packet c z g) → length q.input < length p.input → Ensures Visible (restart q))
      → Ensures Visible (dispatch restart p found)
  unfolding dispatch
  dispatch-Ensures restart p none h again = returns (omega arith)
  dispatch-Ensures restart p (some (type, q)) h again =
      elim (Bool-cases (type == ssh_msg_disconnect)) [
        | inl told ↦ rw told (
            Ensures-bind Anything Visible (get_string-Ensures q.incoming_packet)
              λ r _. fails (λ e. cc))
        | inr stay ↦ elim (Bool-cases (type == ssh_msg_ignore || type == ssh_msg_debug)) [
          | inl skipped ↦
              rw (stay, skipped)
                (Ensures-bind _ Visible (skip_string-Ensures q)
                  (λ r e. again r (omega (arith, h, ap length e))))
          | inr shown ↦ rw (stay, shown) (returns (ground arith))
        ]
      ]

  read_poll_loop-Ensures :
      (fuel : ℕ) (detect : Detector) (p : Packet c z g)
      → length p.input < fuel
      → Ensures Visible (read_poll_loop fuel detect p)
  unfolding read_poll_loop
  read_poll_loop-Ensures zero detect p h = absurd (omega arith)
  read_poll_loop-Ensures (suc fuel) detect p h =
      Ensures-bind (Shortens p) Visible (next_packet-Shortens detect p) λ found s.
        dispatch-Ensures (λ q. read_poll_loop fuel detect q) p found s
          λ q shorter. read_poll_loop-Ensures fuel detect q (omega (arith, shorter))

  -- Whatever bytes have arrived, `packet_read_poll` ends without running out of rounds, and if it
  -- returns a message type, this is none of SSH_MSG_DISCONNECT, SSH_MSG_IGNORE and SSH_MSG_DEBUG.
  pub read_poll-Visible :
      (detect : Detector) (p : Packet c z g) → Ensures Visible (read_poll detect p)
  unfolding read_poll
  read_poll-Visible detect p = read_poll_loop-Ensures (suc (length p.input)) detect p (omega arith)
