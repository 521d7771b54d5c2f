-- ===== src/Agent/Safety.antt =====
-- The identities of the agent after a message.
use ssh_1_history.Prelude.{
  ℕ, ◌+◌, ◌*◌, List, Option, none, some, Bool-cases, Option-cases, inl, inr, ltb, ◌==◌, length,
  take, Ensures, Ensures-bind, Ensures-if, returns, fails,
}
use mathlib.Core.List.{Nodup-nil}
use ssh_1_history.Buffer.Queue.{Queue}
use ssh_1_history.Bufaux.{get_32bit}
use ssh_1_history.Bufaux.MpInt.{Gmp, get_mp_int}
use ssh_1_history.Bufaux.Reads.{
  Anything, consume-Ensures, get-Ensures, get_char-Ensures, get_int-Ensures, get_string-Ensures,
  get_mp_int-Ensures,
}
use ssh_1_history.Agent.Code
use ssh_1_history.Agent.{
  SocketEntry, Identity, Decryptor, get_session, request_identity, find_key, answer, response,
  authentication_challenge, remove_key, remove_identity, remove_all_identities, get_identity,
  has_key, add_identity, handle, process_message,
}
use ssh_1_history.Agent.Wire.{put_identities-publics}
use ssh_1_history.Agent.Distinct.{Distinct, Distinct-add, remove_key-Without, Without-Distinct}

get_session-Ensures : (q : Queue) → Ensures Anything (get_session q)
unfolding get_session
get_session-Ensures q = Ensures-if (length q == 0) (returns tt) (
    Ensures-bind Anything Anything (get-Ensures q 16)
      λ r _. Ensures-bind Anything Anything (get_int-Ensures r.1) λ t _. returns tt)

module _ {g : Gmp} where
  abbrev Kept : List (Identity g) × SocketEntry → Type 0
  Kept r = Distinct r.0

  answer-Ensures :
      (r : Decryptor g) (c : Option g.Mpz) (session_id : List ℕ) (type : ℕ)
      → Ensures Anything (answer r c session_id type)
  unfolding answer
  answer-Ensures r none session_id type = fails (λ e. cc)
  answer-Ensures r (some c) session_id type =
      Ensures-if (type == 0) (returns tt) (Ensures-if (type == 1) (returns tt) (fails (λ e. cc)))

  response-Ensures :
      (r : Decryptor g) (found : Option (Identity g)) (challenge : g.Mpz) (session_id : List ℕ)
      (type : ℕ)
      → Ensures Anything (response r found challenge session_id type)
  unfolding response
  response-Ensures r none challenge session_id type = returns tt
  response-Ensures r (some k) challenge session_id type =
      answer-Ensures r (r.private_decrypt challenge k) session_id type

  authentication_challenge-Ensures :
      (r : Decryptor g) (ids : List (Identity g)) (s : SocketEntry)
      → Ensures Anything (authentication_challenge r ids s)
  unfolding authentication_challenge
  authentication_challenge-Ensures r ids s =
      Ensures-bind Anything Anything (get_int-Ensures s.input) λ a _.
        Ensures-bind Anything Anything (get_mp_int-Ensures g a.1 g.init) λ b _.
          Ensures-bind Anything Anything (get_mp_int-Ensures g b.1 g.init) λ c _.
            Ensures-bind Anything Anything (get_mp_int-Ensures g c.1 g.init) λ d _.
              Ensures-bind Anything Anything (get_session-Ensures d.1) λ h _.
                Ensures-bind Anything Anything
                  (response-Ensures r (find_key a.0 b.0 c.0 ids) d.0 h.0.0 h.0.1) λ m _. returns tt

  remove_identity-Kept :
      (ids : List (Identity g)) (s : SocketEntry)
      → Distinct ids
      → Ensures Kept (remove_identity ids s)
  unfolding remove_identity
  remove_identity-Kept ids s v = Ensures-bind Anything Kept (get_int-Ensures s.input) λ a _.
      Ensures-bind Anything Kept (get_mp_int-Ensures g a.1 g.init) λ b _.
        Ensures-bind Anything Kept (get_mp_int-Ensures g b.1 g.init) λ c _.
          elim (Option-cases (remove_key c.0 ids)) [
            | inl gone ↦ rw gone (returns v)
            | inr (js, found) ↦
                rw found (returns (Without-Distinct (remove_key-Without c.0 ids js found) v).0)
          ]

  get_identity-Ensures : (q : Queue) → Ensures Anything (get_identity {g = g} q)
  unfolding get_identity
  get_identity-Ensures q =
      let mp : (t : Queue) → Ensures Anything (get_mp_int g t g.init) =
        λ t. get_mp_int-Ensures g t g.init in
      Ensures-bind Anything Anything (get_int-Ensures q) λ a _.
        Ensures-bind Anything Anything (mp a.1) λ b _.
          Ensures-bind Anything Anything (mp b.1) λ c _.
            Ensures-bind Anything Anything (mp c.1) λ d _.
              Ensures-bind Anything Anything (mp d.1) λ e _.
                Ensures-bind Anything Anything (mp e.1) λ f _.
                  Ensures-bind Anything Anything (mp f.1)
                    λ h _. Ensures-bind Anything Anything (get_string-Ensures h.1) λ m _. returns tt

  add_identity-Kept :
      (ids : List (Identity g)) (s : SocketEntry) → Distinct ids → Ensures Kept (add_identity ids s)
  unfolding add_identity
  add_identity-Kept ids s v = Ensures-bind Anything Kept (get_identity-Ensures s.input) λ r _.
      elim (Bool-cases (has_key r.0.n ids)) [
        | inl known ↦ rw known (returns v)
        | inr new ↦ rw new (returns (Distinct-add ids r.0 v new))
      ]

  handle-Kept :
      (r : Decryptor g) (type : ℕ) (ids : List (Identity g)) (s : SocketEntry)
      → Distinct ids
      → Ensures Kept (handle r type ids s)
  unfolding handle remove_all_identities request_identity
  handle-Kept r type ids s v =
      Ensures-if (type == Code.request_rsa_identities)
        (rw (put_identities-publics _ ids) (returns v))
        (Ensures-if (type == Code.rsa_challenge)
          (Ensures-bind Anything Kept (authentication_challenge-Ensures r ids s) (λ t _. returns v))
          (Ensures-if (type == Code.add_rsa_identity) (add_identity-Kept ids s v) (
            Ensures-if (type == Code.remove_rsa_identity) (remove_identity-Kept ids s v) (
              Ensures-if (type == Code.remove_all_rsa_identities) (returns Nodup-nil)
                (Ensures-if (type == Code.forwarding_notice) (returns v) (returns v))))))

  -- If no two identities of the agent have the same modulus, then whatever bytes have come from a
  -- client: `process_message` ends, and if it returns, then no two identities have the same modulus.
  pub process_message-Distinct :
      (r : Decryptor g) (ids : List (Identity g)) (s : SocketEntry)
      → Distinct ids
      → Ensures (λ a. Distinct a.0) (process_message r ids s)
  unfolding process_message
  process_message-Distinct r ids s v = Ensures-if (ltb (length s.input) 5) (returns v) (
      Ensures-if (ltb (30 * 1024) (get_32bit (take 4 s.input))) (returns v) (
        Ensures-if (ltb (length s.input) (get_32bit (take 4 s.input) + 4)) (returns v) (
          Ensures-bind _ Kept (consume-Ensures s.input 4) λ q _.
            Ensures-bind Anything Kept (get_char-Ensures q) λ t _. handle-Kept r t.0 ids _ v)))
