-- ===== src/Auth/Dialog/Agreement.antt =====
-- The server's challenge, and the response that the agent computes.
use ssh_1_history.Prelude.{
  ℕ, ◌*◌, ◌^◌, ◌<◌, ◌≤◌, ◌≡◌, refl, ap, subst, ◌∙◌, true, List, [], ◌∷◌, ◌++◌, some, ok, ◌==◌,
  ==_iff, length,
}
use ssh_1_history.Buffer.Queue.{Queue}
use ssh_1_history.Bufaux.MpInt.{Gmp}
use ssh_1_history.Bufaux.MpInt.RoundTrip.{mp_bytes, put_mp_int-ok}
use ssh_1_history.Agent.{Identity, Decryptor, find_key}
use ssh_1_history.Agent.Code
use ssh_1_history.Agent.Client.{get_chars, decrypt_challenge}
use ssh_1_history.Agent.Wire.{Short}
use ssh_1_history.Agent.Exchange.{serve}
use ssh_1_history.Agent.Exchange.Challenge.{
  challenge_bytes, answer_of, get_chars-all, decrypt_challenge-serve,
}
use ssh_1_history.Auth
use ssh_1_history.Auth.{Session, send, read_expect}
use ssh_1_history.Auth.Dialog.{Rsa, same_bytes, challenge, expected, ask, challenge_dialog}

same_bytes_refl : (xs : List ℕ) → same_bytes xs xs ≡ true
unfolding same_bytes
same_bytes_refl [] = refl
same_bytes_refl (x ∷ xs) =
    let same : (x == x) ≡ true = (==_iff x x).1 refl in rw (same, same_bytes_refl xs) refl

-- The packets that come are the client's response and what follows it.
abbrev pub answered : Session → List ℕ → List (ℕ × Queue) → Session
answered s response rest = record s { incoming = (Auth.Code.auth_rsa_response, response) ∷ rest }

-- For every challenge that the server can encrypt with the key, the agent's decryption undoes it, and
-- both hash in the same way.
pub record Matched (g : Gmp) (r : Rsa g) (d : Decryptor g) (k : Identity g) : Type 0 where
  pub decrypted :
      (state : r.State) (x : g.Mpz × r.State)
      → r.public_encrypt (challenge g r k.n state) k.bits k.e k.n (r.random_integer state).1
        ≡ some x
      → d.private_decrypt x.0 k ≡ some (challenge g r k.n state)
  pub linearized : (n : ℕ) (c : g.Mpz) → d.linearize_msb_first n c ≡ r.linearize_msb_first n c
  pub hashed : (bytes : List ℕ) → d.md5 bytes ≡ r.md5 bytes

answer_of-expected :
    (g : Gmp) (r : Rsa g) (d : Decryptor g) (k : Identity g) (state : r.State) (session_id : List ℕ)
    → Matched g r d k
    → answer_of d (challenge g r k.n state) session_id
      ≡ expected g r session_id (challenge g r k.n state)
unfolding expected
answer_of-expected g r d k state session_id m =
    let c : g.Mpz = challenge g r k.n state in
    ap (λ l. d.md5 (l ++ session_id)) (m.linearized 32 c)
    ∙ m.hashed (r.linearize_msb_first 32 c ++ session_id)

-- The session after the challenge is sent and the response read.
abbrev pub challenged : (g : Gmp) → g.Mpz → Session → List (ℕ × Queue) → Session
challenged g encrypted s rest = record {
  incoming = rest;
  outgoing = s.outgoing ++ ((Auth.Code.auth_rsa_challenge, mp_bytes g encrypted) ∷ []);
}

accepted_response :
    (g : Gmp) (r : Rsa g) (session_id : List ℕ) (k : Identity g) (state : r.State)
    (x : g.Mpz × r.State) (s : Session) (rest : List (ℕ × Queue)) (response : List ℕ)
    → r.public_encrypt (challenge g r k.n state) k.bits k.e k.n (r.random_integer state).1 ≡ some x
    → length response ≡ 16
    → response ≡ expected g r session_id (challenge g r k.n state)
    → challenge_dialog g r session_id k.bits k.e k.n (state, answered s response rest)
      ≡ ok (true, (x.1, challenged g x.0 s rest))
unfolding challenge_dialog ask read_expect Auth.read send
accepted_response g r session_id k state x s rest response e size right =
    let all : get_chars 16 response ≡ ok response =
      subst (λ n. get_chars n response ≡ ok response) size (get_chars-all response) in
    let same : same_bytes response (expected g r session_id (challenge g r k.n state)) ≡ true =
      subst (λ x. same_bytes response x ≡ true) right (same_bytes_refl response) in
    rw (e, put_mp_int-ok g, all, same) refl

-- The server challenges a client with a key whose private half an agent holds, where what the server
-- can encrypt of its challenges the agent's decryption gives back, both sides compute the same bytes
-- of a number and the same MD5, and the encryption of this challenge succeeds. The response that the
-- client gets from the agent, if sent to the server as the next packet, is accepted. The parts of the
-- key fit the encodings, the session id has 16 bytes, and the message to the agent has at most 30 kB.
pub decrypt_challenge-challenge_dialog :
    (g : Gmp) (r : Rsa g) (d : Decryptor g) (ids : List (Identity g)) (k : Identity g)
    (session_id : List ℕ) (state : r.State) (x : g.Mpz × r.State) (s : Session)
    (rest : List (ℕ × Queue))
    → Matched g r d k
    → r.public_encrypt (challenge g r k.n state) k.bits k.e k.n (r.random_integer state).1 ≡ some x
    → find_key k.bits k.e k.n ids ≡ some k
    → k.bits < 2 ^ 32
    → Short g k.e
    → Short g k.n
    → Short g x.0
    → length session_id ≡ 16
    → length (Code.rsa_challenge ∷ challenge_bytes g k.bits k.e k.n x.0 session_id) ≤ 30 * 1024
    → (response : List ℕ) × (decrypt_challenge g (serve d ids) k.bits k.e k.n x.0 session_id 1
        ≡ ok (some response))
      × (challenge_dialog g r session_id k.bits k.e k.n (state, answered s response rest)
          ≡ ok (true, (x.1, challenged g x.0 s rest)))
decrypt_challenge-challenge_dialog g r d ids k session_id state x s rest m enc found hb he hn hc hs
      h =
    (
      answer_of d (challenge g r k.n state) session_id,
      decrypt_challenge-serve d ids k k.bits k.e k.n x.0 (challenge g r k.n state) session_id
          (m.decrypted state x enc) found hb he hn hc hs h,
      accepted_response g r session_id k state x s rest
          (answer_of d (challenge g r k.n state) session_id) enc
          (d.length-md5 (d.linearize_msb_first 32 (challenge g r k.n state) ++ session_id))
          (answer_of-expected g r d k state session_id m),
    )
