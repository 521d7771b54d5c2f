-- ===== src/Auth/Requests/Passwords.antt =====
-- A client that tries one wrong password after the other.
use ssh_1_history.Prelude.{
  ℕ, zero, suc, ◌+◌, ◌*◌, ◌≤◌, ◌<◌, ◌≡◌, refl, sym, ap, ◌∙◌, true, false, ◌&&◌, List, [], ◌∷◌, ◌++◌,
  append-nil, map, none, ok, err, disconnected, too_many_attempts, length, length-map, All, leb,
  ◌==◌, if◌then◌else◌, Bool-cases, inl, inr, arith,
}
use ssh_1_history.Buffer.Queue.{Queue}
use ssh_1_history.Bufaux
use ssh_1_history.Bufaux.{put_32bit}
use ssh_1_history.Bufaux.Message.{get_string-front}
use ssh_1_history.Bufaux.MpInt.{Gmp}
use ssh_1_history.Auth.{send, Passwd, Options}
use ssh_1_history.Auth.Code
use ssh_1_history.Auth.Dialog.{Rsa}
use ssh_1_history.Auth.Requests.{
  Login, Checks, Connection, closed, answer_all, fail_loop, verdict, request_password, request,
  refuse, request_loop, authenticate,
}

abbrev pub packet : List ℕ → ℕ × Queue
packet p = (Code.auth_password, put_32bit (length p) ++ p)

-- A password that fits its packet and is wrong.
abbrev pub Wrong : {g : Gmp} {r : Rsa g} → Checks g r → Connection → List ℕ → Type 0
Wrong k c p = (length p ≤ 256 * 1024) × (k.auth_password c.user p ≡ false)

module _ {g : Gmp} {r : Rsa g} where
  -- The session once the packets `ps` are all that comes.
  abbrev pub with_packets : Login g r → List (ℕ × Queue) → Login g r
  with_packets s ps = record s { session = record s.session { incoming = ps } }

  request-Wrong :
      (k : Checks g r) (o : Options) (c : Connection) (pw : Passwd) (p : List ℕ) (s : Login g r)
      → o.password_authentication ≡ true
      → (c.cipher_type == Code.cipher_none) ≡ false
      → Wrong k c p
      → request k o c pw (packet p) s ≡ (
          if leb 5 s.password_attempts
          then err (disconnected too_many_attempts)
          else ok (none, record s { password_attempts = s.password_attempts + 1 }))
  unfolding request request_password verdict
  request-Wrong k o c pw p s on secret w =
      let read : Bufaux.get_string (put_32bit (length p) ++ p) ≡ ok (p, []) =
        ap (λ t. Bufaux.get_string (put_32bit (length p) ++ t)) (sym (append-nil p))
        ∙ get_string-front p [] w.0 in
      elim (Bool-cases (leb 5 s.password_attempts)) [
        | inl many ↦ rw (on, secret, read, many) refl
        | inr few ↦ rw (on, secret, read, few, w.1) refl
      ]

  request_loop-Wrong :
      (fuel : ℕ) (k : Checks g r) (o : Options) (c : Connection) (pw : Passwd) (ps : List (List ℕ))
      (s : Login g r)
      → o.password_authentication ≡ true
      → (c.cipher_type == Code.cipher_none) ≡ false
      → All (Wrong k c) ps
      → length ps < fuel
      → s.password_attempts ≤ 5
      → request_loop fuel k o c pw (with_packets s (map packet ps)) ≡ (
          if leb (s.password_attempts + length ps) 5
          then ok (closed (answer_all (map packet ps) (with_packets s (map packet ps)).session))
          else err (disconnected too_many_attempts))
  unfolding request_loop answer_all refuse send
  request_loop-Wrong zero k o c pw ps s on secret w h few = absurd (omega arith)
  request_loop-Wrong (suc fuel) k o c pw [] s on secret w h few =
      let all : leb (s.password_attempts + length {A = List ℕ} []) 5 ≡ true = ground arith in
      rw all refl
  request_loop-Wrong (suc fuel) k o c pw (p ∷ ps) s on secret w h few =
      let t : Login g r = with_packets s (map packet ps) in
      let step = request-Wrong k o c pw p t on secret w.0 in
      elim (Bool-cases (leb 5 s.password_attempts)) [
        | inl many ↦
            let over : leb (s.password_attempts + length (p ∷ ps)) 5 ≡ false = ground arith in
            rw (step, many, over) refl
        | inr more ↦
            let later =
              request_loop-Wrong fuel k o c pw ps
                (refuse (record t { password_attempts = s.password_attempts + 1 })) on secret w.1
                (omega arith) (ground arith) in
            let same : leb (s.password_attempts + length (p ∷ ps)) 5
                ≡ leb (s.password_attempts + 1 + length ps) 5 =
              ap (λ n. leb n 5) (omega arith) in
            rw (step, more, same) later
      ]

  -- For a client whose empty password is not accepted and that sends only passwords, all of them
  -- wrong, over an encrypted connection on which passwords are allowed: with at most five of them,
  -- `do_authentication` answers what the fail loop answers, and at the sixth it disconnects.
  pub authenticate-fail_loop :
      (k : Checks g r) (o : Options) (c : Connection) (pw : Passwd) (ps : List (List ℕ))
      (s : Login g r)
      → o.password_authentication ≡ true
      → (c.cipher_type == Code.cipher_none) ≡ false
      → k.auth_password c.user [] ≡ false
      → All (Wrong k c) ps
      → s.password_attempts ≡ 0
      → authenticate k o c pw (with_packets s (map packet ps)) ≡ (
          if leb (length ps) 5
          then ok (closed (fail_loop (with_packets s (map packet ps)).session))
          else err (disconnected too_many_attempts))
  unfolding authenticate fail_loop refuse send
  authenticate-fail_loop k o c pw ps s on secret empty w start =
      let later =
        request_loop-Wrong (suc (length (map packet ps))) k o c pw ps
          (refuse (with_packets s (map packet ps))) on secret w
          (omega (arith, length-map packet ps)) (omega (arith, start)) in
      let same : leb (s.password_attempts + length ps) 5 ≡ leb (length ps) 5 =
        ap (λ n. leb n 5) (omega (arith, start)) in
      let shut : (o.password_authentication && k.auth_password c.user []) ≡ false = ground arith in
      rw shut (later ∙ rw same refl)
