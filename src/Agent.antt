-- ===== src/Agent.antt =====
-- ssh-agent.c: the identities that the agent holds, and its handlers of messages, one socket at a
-- time. The functions are process_request_identity, ... without their prefix. rsaglue.c, mpaux.c
-- and md5.c, which compute the answer to a challenge, are an interface.
pub mod Code
pub mod Client
pub mod Distinct
pub mod Safety
pub mod Wire
pub mod Framing
pub mod Exchange
use ssh_1_history.Prelude.{
  ℕ, zero, suc, ◌+◌, ◌*◌, ◌≡◌, Bool, true, false, not, ◌&&◌, List, [], ◌∷◌, ◌++◌, Option, none,
  some, Result, ok, err, ◌>>=◌, bad_response_type, cannot_decrypt, length, get_or, take, replicate,
  ltb, ◌==◌, if◌then◌else◌,
}
use ssh_1_history.Buffer.Queue
use ssh_1_history.Buffer.Queue.{Queue}
use ssh_1_history.Bufaux
use ssh_1_history.Bufaux.{get_32bit}
use ssh_1_history.Agent.Code
use ssh_1_history.Bufaux.MpInt.{Gmp, put_mp_int, get_mp_int}

-- A socket that is not AUTH_UNUSED is open.
pub record SocketEntry : Type 0 where
  pub is_open : Bool
  pub input : Queue
  pub output : Queue

pub record Identity (g : Gmp) : Type 0 where
  pub bits : ℕ
  pub n : g.Mpz
  pub e : g.Mpz
  pub d : g.Mpz
  pub u : g.Mpz
  pub p : g.Mpz
  pub q : g.Mpz
  pub comment : List ℕ

-- rsa_private_decrypt, mp_linearize_msb_first and MD5 of a sequence of bytes.
pub record Decryptor (g : Gmp) : Type 0 where
  -- `none` if it ends the program: the key cannot be used, or what comes out has no padding
  pub private_decrypt : g.Mpz → Identity g → Option g.Mpz
  pub linearize_msb_first : ℕ → g.Mpz → List ℕ
  pub md5 : List ℕ → List ℕ
  pub length-md5 : (bytes : List ℕ) → length (md5 bytes) ≡ 16

-- `identities[i] = identities[num_identities - 1]; num_identities--` at the first place of the list.
pub last_to_front {ℓ} : {A : Type ℓ} → List A → List A
last_to_front [] = []
last_to_front (x ∷ []) = x ∷ []
last_to_front (x ∷ (y ∷ ys)) = elim (last_to_front (y ∷ ys)) [
  | [] ↦ x ∷ []
  | l ∷ rest ↦ l ∷ x ∷ rest
]

-- A message with its length in front, and the messages of one byte.
pub reply : SocketEntry → List ℕ → SocketEntry
reply s msg = record s { output = Queue.append (Bufaux.put_int s.output (length msg)) msg }

pub reply_code : SocketEntry → ℕ → SocketEntry
reply_code s code = record s { output = Bufaux.put_char (Bufaux.put_int s.output 1) code }

-- The session id and the response type; old servers send neither.
pub get_session : Queue → Result ((List ℕ × ℕ) × Queue)
get_session q =
    let sent = Queue.get q 16 >>= λ r. Bufaux.get_int r.1 >>= λ t. ok ((r.0, t.0), t.1) in
    if length q == 0 then ok ((replicate 16 0, 0), q) else sent

-- The characters of a string up to its null, as strlen counts them.
unfoldable pub until_null : List ℕ → List ℕ
until_null [] = []
until_null (zero ∷ cs) = []
until_null (suc c ∷ cs) = suc c ∷ until_null cs

module _ {g : Gmp} where
  pub put_identities : Queue → List (Identity g) → Result Queue
  put_identities msg [] = ok msg
  put_identities msg (k ∷ ks) = do
    with_e ← put_mp_int g (Bufaux.put_int msg k.bits) k.e
    with_n ← put_mp_int g with_e k.n
    put_identities (Bufaux.put_string with_n (until_null k.comment)) ks

  pub request_identity : List (Identity g) → SocketEntry → Result SocketEntry
  unfolding reply
  request_identity ids s = do
    msg ←
        put_identities (Bufaux.put_int (Bufaux.put_char [] Code.rsa_identities_answer) (length ids))
          ids
    ok (reply s msg)

  unfoldable pub find_key : ℕ → g.Mpz → g.Mpz → List (Identity g) → Option (Identity g)
  find_key bits e n [] = none
  find_key bits e n (k ∷ ks) =
      if (bits == k.bits && g.same e k.e) && g.same n k.n then some k else find_key bits e n ks

  -- The answer to a challenge that is decrypted.
  pub answer : Decryptor g → Option g.Mpz → List ℕ → ℕ → Result (List ℕ)
  answer r none session_id type = err cannot_decrypt
  answer r (some challenge) session_id type =
      if type == 0
      then ok (Bufaux.put_char [] Code.failure)
      else if type == 1
      then ok (
          Bufaux.put_char [] Code.rsa_response
          ++ r.md5 (r.linearize_msb_first 32 challenge ++ session_id))
      else err (bad_response_type type)

  -- The message that answers a challenge.
  pub response : Decryptor g → Option (Identity g) → g.Mpz → List ℕ → ℕ → Result (List ℕ)
  unfolding answer
  response r none challenge session_id type = ok (Bufaux.put_char [] Code.failure)
  response r (some k) challenge session_id type =
      answer r (r.private_decrypt challenge k) session_id type

  pub authentication_challenge : Decryptor g → List (Identity g) → SocketEntry → Result SocketEntry
  unfolding reply get_session find_key response
  authentication_challenge r ids s = do
    (bits, q1) ← Bufaux.get_int s.input
    (e, q2) ← get_mp_int g q1 g.init
    (n, q3) ← get_mp_int g q2 g.init
    (challenge, q4) ← get_mp_int g q3 g.init
    (session, q5) ← get_session q4
    msg ← response r (find_key bits e n ids) challenge session.0 session.1
    ok (reply (record s { input = q5 }) msg)

  -- The identities without the first that has the modulus `n`.
  pub remove_key : g.Mpz → List (Identity g) → Option (List (Identity g))
  unfolding last_to_front
  remove_key n [] = none
  remove_key n (k ∷ ks) =
      let rest : Option (List (Identity g)) = elim (remove_key n ks) [
        | none ↦ none
        | some js ↦ some (k ∷ js)
      ] in
      if g.same k.n n then some (last_to_front ks) else rest

  pub remove_identity : List (Identity g) → SocketEntry → Result (List (Identity g) × SocketEntry)
  unfolding reply_code
  remove_identity ids s = do
    (bits, q1) ← Bufaux.get_int s.input
    (dummy, q2) ← get_mp_int g q1 g.init
    (n, q3) ← get_mp_int g q2 g.init
    let t = record s { input = q3 }
    elim (remove_key n ids) [
      | none ↦ ok (ids, reply_code t Code.failure)
      | some rest ↦ ok (rest, reply_code t Code.success)
    ]

  pub remove_all_identities : List (Identity g) → SocketEntry → List (Identity g) × SocketEntry
  unfolding reply_code
  remove_all_identities ids s = ([], reply_code s Code.success)

  pub get_identity : Queue → Result (Identity g × Queue)
  get_identity q = do
    (bits, q1) ← Bufaux.get_int q
    (n, q2) ← get_mp_int g q1 g.init
    (e, q3) ← get_mp_int g q2 g.init
    (d, q4) ← get_mp_int g q3 g.init
    (u, q5) ← get_mp_int g q4 g.init
    (p, q6) ← get_mp_int g q5 g.init
    (q', q7) ← get_mp_int g q6 g.init
    (comment, q8) ← Bufaux.get_string q7
    ok (record { bits = bits; n = n; e = e; d = d; u = u; p = p; q = q'; comment = comment }, q8)

  unfoldable pub has_key : g.Mpz → List (Identity g) → Bool
  has_key n [] = false
  has_key n (k ∷ ks) = if g.same k.n n then true else has_key n ks

  pub add_identity : List (Identity g) → SocketEntry → Result (List (Identity g) × SocketEntry)
  unfolding reply_code get_identity has_key
  add_identity ids s = do
    (k, rest) ← get_identity s.input
    ok (
      if has_key k.n ids then ids else ids ++ (k ∷ []),
      reply_code (record s { input = rest }) Code.success,
    )

  -- The `switch` of `process_message`.
  pub handle :
      Decryptor g → ℕ → List (Identity g) → SocketEntry → Result (List (Identity g) × SocketEntry)
  handle r type ids s =
      if type == Code.request_rsa_identities
      then (request_identity ids s >>= λ t. ok (ids, t))
      else if type == Code.rsa_challenge
      then (authentication_challenge r ids s >>= λ t. ok (ids, t))
      else if type == Code.add_rsa_identity
      then add_identity ids s
      else if type == Code.remove_rsa_identity
      then remove_identity ids s
      else if type == Code.remove_all_rsa_identities
      then ok (remove_all_identities ids s)
      else if type == Code.forwarding_notice
      then ok (ids, s)
      else ok (ids, reply_code (record s { input = [] }) Code.failure)

  pub process_message :
      Decryptor g → List (Identity g) → SocketEntry → Result (List (Identity g) × SocketEntry)
  process_message r ids s =
      let msg_len = get_32bit (take 4 s.input) in
      let handled = Queue.consume s.input 4 >>= λ q.
      Bufaux.get_char q >>= λ t. handle r t.0 ids (record s { input = t.1 }) in
      if ltb (length s.input) 5
      then ok (ids, s)
      else if ltb (30 * 1024) msg_len
      then ok (ids, record { is_open = false; input = []; output = [] })
      else if ltb (length s.input) (msg_len + 4)
      then ok (ids, s)
      else handled
