-- ===== src/Agent/Exchange/Challenge.antt =====
-- The client asks the agent for the response to a challenge of the server.
use ssh_1_history.Prelude.{
  subst, ℕ, ◌*◌, ◌^◌, ◌<◌, ◌≤◌, ◌≡◌, refl, sym, ap, ◌∙◌, false, List, [], ◌∷◌, ◌++◌, append_assoc,
  append-nil, some, ok, length, length-append, ltb, ◌==◌, arith,
}
use ssh_1_history.Buffer.Queue
use ssh_1_history.Buffer.Queue.{Queue}
use ssh_1_history.Bufaux
use ssh_1_history.Bufaux.{byte, put_32bit, get_32bit}
use ssh_1_history.Bufaux.Message.{get_int-front, get-front}
use ssh_1_history.Bufaux.MpInt
use ssh_1_history.Bufaux.MpInt.{Gmp, get_mp_int}
use ssh_1_history.Bufaux.MpInt.RoundTrip.{mp_bytes, get_mp_int-mp_bytes, put_mp_int-ok}
use ssh_1_history.Agent.Code
use ssh_1_history.Agent.{
  Identity, Decryptor, authentication_challenge, find_key, response, get_session, answer, reply,
  handle, process_message,
}
use ssh_1_history.Agent.Client
use ssh_1_history.Agent.Client.{
  Socket, PublicKey, framed, exchange, outcome, read_reply, reply_bytes, read_listing,
  check_listing, get_next_identity, get_first_identity, get_more_identities, list_identities,
  add_message, remove_message, get_chars, read_response,
}
use ssh_1_history.Agent.Exchange.{serve, Answers, process_message-framed, exchange-Answers}
use ssh_1_history.Agent.Wire.{Short}

abbrev pub challenge_bytes : (g : Gmp) (bits : ℕ) (e n c : g.Mpz) (session_id : List ℕ) → List ℕ
challenge_bytes g bits e n c session_id =
    put_32bit bits
    ++ (mp_bytes g e ++ (mp_bytes g n ++ (mp_bytes g c ++ (session_id ++ put_32bit 1))))

pub get_chars-all : (xs : List ℕ) → get_chars (length xs) xs ≡ ok xs
unfolding get_chars Bufaux.get_char Queue.get
get_chars-all [] = refl
get_chars-all (x ∷ xs) =
    let there : ltb (length (x ∷ xs)) 1 ≡ false = ground arith in rw (there, get_chars-all xs) refl

read_response-answer :
    (answer : List ℕ)
    → length answer ≡ 16
    → read_response (some (Code.rsa_response ∷ answer)) ≡ ok (some answer)
unfolding read_response Queue.get
read_response-answer answer e =
    let there : ltb (length (Code.rsa_response ∷ answer)) 1 ≡ false = ground arith in
    let all : get_chars 16 answer ≡ ok answer =
      subst (λ n. get_chars n answer ≡ ok answer) e (get_chars-all answer) in
    rw (there, all) refl

module _ {g : Gmp} where
  -- What is answered to a challenge `m`, once it is decrypted.
  abbrev pub answer_of : Decryptor g → g.Mpz → List ℕ → List ℕ
  answer_of r m session_id = r.md5 (r.linearize_msb_first 32 m ++ session_id)

  authentication_challenge-Answers :
      (r : Decryptor g) (ids : List (Identity g)) (k : Identity g) (bits : ℕ) (e n c m : g.Mpz)
      (session_id : List ℕ)
      → r.private_decrypt c k ≡ some m
      → find_key bits e n ids ≡ some k
      → bits < 2 ^ 32
      → Short g e
      → Short g n
      → Short g c
      → length session_id ≡ 16
      → length (Code.rsa_challenge ∷ challenge_bytes g bits e n c session_id) ≤ 30 * 1024
      → Answers r ids
          (Code.rsa_challenge ∷ challenge_bytes g bits e n c session_id)
          ids
          (Code.rsa_response ∷ answer_of r m session_id)
  unfolding handle authentication_challenge get_session response answer reply framed Bufaux.put_char
      Bufaux.put_int Queue.append
  authentication_challenge-Answers r ids k bits e n c m session_id private found hb he hn hc hs h =
      let some_bytes : (length (session_id ++ put_32bit 1) == 0) ≡ false =
        ground (arith, hs, length-append session_id (put_32bit 1)) in
      let last : Bufaux.get_int (put_32bit 1) ≡ ok (1, []) =
        ap Bufaux.get_int (sym (append-nil (put_32bit 1))) ∙ get_int-front 1 [] (omega arith) in
      process_message-framed r ids Code.rsa_challenge (challenge_bytes g bits e n c session_id) h
      ∙ rw
          (
            get_int-front bits _ hb,
            get_mp_int-mp_bytes g e g.init
                (mp_bytes g n ++ (mp_bytes g c ++ (session_id ++ put_32bit 1))) he,
            get_mp_int-mp_bytes g n g.init (mp_bytes g c ++ (session_id ++ put_32bit 1)) hn,
            get_mp_int-mp_bytes g c g.init (session_id ++ put_32bit 1) hc,
            some_bytes,
            get-front 16 session_id (put_32bit 1) (sym hs),
            last,
            found,
            private,
          )
          refl

  -- The client gets the 16 bytes that the identity answers.
  pub decrypt_challenge-serve :
      (r : Decryptor g) (ids : List (Identity g)) (k : Identity g) (bits : ℕ) (e n c m : g.Mpz)
      (session_id : List ℕ)
      → r.private_decrypt c k ≡ some m
      → find_key bits e n ids ≡ some k
      → bits < 2 ^ 32
      → Short g e
      → Short g n
      → Short g c
      → length session_id ≡ 16
      → length (Code.rsa_challenge ∷ challenge_bytes g bits e n c session_id) ≤ 30 * 1024
      → Client.decrypt_challenge g (serve r ids) bits e n c session_id 1
        ≡ ok (some (answer_of r m session_id))
  unfolding Client.decrypt_challenge Bufaux.put_int Queue.append process_message put_32bit
      MpInt.put_16bit
  decrypt_challenge-serve r ids k bits e n c m session_id private found hb he hn hc hs h =
      let size = r.length-md5 (r.linearize_msb_first 32 m ++ session_id) in
      let a =
        authentication_challenge-Answers r ids k bits e n c m session_id private found hb he hn hc
          hs h in
      let x =
        exchange-Answers r ids ids (Code.rsa_challenge ∷ challenge_bytes g bits e n c session_id)
          (Code.rsa_response ∷ answer_of r m session_id) a (omega (arith, size)) in
      simp (put_mp_int-ok g, append_assoc)
        (rw x (read_response-answer (answer_of r m session_id) size))
