-- ===== src/Agent/Client.antt =====
-- The client's side of the agent protocol in authfd.c, and its use in ssh-add.c: ssh_get_first_identity, ssh_add_identity, ...
-- without their prefix. The socket is a function: what can be read from it after a write, or `none`
-- if the write fails. A list that is too short is a socket that is closed early.
use ssh_1_history.Prelude.{
  ℕ, zero, suc, ◌+◌, ◌*◌, ◌^◌, Bool, true, false, not, ◌&&◌, ◌||◌, List, [], ◌∷◌, ◌++◌, Option,
  none, some, Result, ok, err, ◌>>=◌, ◌>>◌, guard, reply_too_long, incomplete_reply, bad_reply,
  too_many_identities, old_protocol, length, take, drop, get_or, ltb, leb, ◌==◌, if◌then◌else◌,
}
use ssh_1_history.Buffer.Queue
use ssh_1_history.Buffer.Queue.{Queue}
use ssh_1_history.Bufaux
use ssh_1_history.Bufaux.{get_32bit, put_32bit}
use ssh_1_history.Bufaux.MpInt.{Gmp, put_mp_int, get_mp_int}
use ssh_1_history.Agent.Code
use ssh_1_history.Agent.{Identity}

abbrev pub Socket : Type 0
Socket = List ℕ → Option (List ℕ)

-- An `int` that is read as 2 ^ 31 or more is negative, and then nothing more is read.
unfoldable pub reply_bytes : ℕ → List ℕ → Option (List ℕ)
reply_bytes len s =
    if leb (2 ^ 31) len then some [] else if ltb (length s) len then none else some (take len s)

-- The length of a reply and then the reply, of at most 30 kB; `none` if reading it fails.
unfoldable pub read_reply : List ℕ → Result (Option Queue)
unfolding reply_bytes
read_reply s =
    let len = get_32bit (take 4 s) in
    if ltb (length s) 4
    then ok none
    else if ltb (30 * 1024) len && ltb len (2 ^ 31)
    then err (reply_too_long len)
    else ok (reply_bytes len (drop 4 s))

-- A message with its length in front.
unfoldable pub framed : List ℕ → List ℕ
framed msg = put_32bit (length msg) ++ msg

-- The reply to a message, or `none` if it cannot be had.
unfoldable pub exchange : Socket → List ℕ → Result (Option Queue)
unfolding framed
exchange socket msg = elim (socket (framed msg)) [ none ↦ ok none | some s ↦ read_reply s ]

-- Success or failure, in a reply of one byte.
unfoldable pub outcome : Option Queue → Result Bool
outcome none = ok false
outcome (some q) = Bufaux.get_char q >>= λ r.
    if r.0 == Code.failure
    then ok false
    else if r.0 == Code.success
    then ok true
    else err (bad_reply r.0)

-- The 16 bytes of a response, or none.
unfoldable pub get_chars : ℕ → Queue → Result (List ℕ)
get_chars zero q = ok []
get_chars (suc n) q = do (c, r) ← Bufaux.get_char q; cs ← get_chars n r; ok (c ∷ cs)

unfoldable pub read_response : Option Queue → Result (Option (List ℕ))
unfolding get_chars
read_response none = ok none
read_response (some q) = Queue.get q 1 >>= λ r.
    if get_or r.0 0 0 == Code.failure
    then ok none
    else if get_or r.0 0 0 == Code.rsa_response
    then (get_chars 16 r.1 >>= λ cs. ok (some cs))
    else err (bad_reply (get_or r.0 0 0))

unfoldable pub remove_all_identities : Socket → Result Bool
unfolding exchange outcome
remove_all_identities socket = exchange socket (Code.remove_all_rsa_identities ∷ []) >>= outcome

-- The length of this reply must be from 1 to 30 kB, and it must be there in full.
unfoldable pub read_listing : List ℕ → Result (Option Queue)
read_listing s =
    let len = get_32bit (take 4 s) in
    if ltb (length s) 4
    then ok none
    else if len == 0 || ltb (30 * 1024) len
    then err (reply_too_long len)
    else if ltb (length s) (4 + len)
    then err incomplete_reply
    else ok (some (take len (drop 4 s)))

-- A number of identities that is negative as an `int` is none.
unfoldable pub check_listing : Option Queue → Result (Option (ℕ × Queue))
check_listing none = ok none
check_listing (some q) = do
  (type, r) ← Queue.get q 1
  guard (get_or type 0 0 == Code.rsa_identities_answer) (bad_reply (get_or type 0 0))
  (num, t) ← Bufaux.get_int r
  guard (not (ltb 1024 num && ltb num (2 ^ 31))) (too_many_identities num)
  ok (some (if leb (2 ^ 31) num then 0 else num, t))

-- What the client gets to know of an identity.
pub record PublicKey (g : Gmp) : Type 0 where
  pub bits : ℕ
  pub e : g.Mpz
  pub n : g.Mpz
  pub comment : List ℕ

module _ {g : Gmp} where
  unfoldable pub get_next_identity : ℕ → Queue → Result (Option (PublicKey g × (ℕ × Queue)))
  get_next_identity zero q = ok none
  get_next_identity (suc left) q = do
    (bits, q1) ← Bufaux.get_int q
    (e, q2) ← get_mp_int g q1 g.init
    (n, q3) ← get_mp_int g q2 g.init
    (comment, q4) ← Bufaux.get_string q3
    ok (some (record { bits = bits; e = e; n = n; comment = comment }, (left, q4)))

  unfoldable pub get_first_identity : Socket → Result (Option (PublicKey g × (ℕ × Queue)))
  unfolding read_listing check_listing framed
  get_first_identity socket = elim (socket (framed (Code.request_rsa_identities ∷ []))) [
    | none ↦ ok none
    | some s ↦ read_listing s >>= λ q.
        check_listing q >>= λ r. elim r [ none ↦ ok none | some (num, t) ↦ get_next_identity num t ]
  ]

  -- How every caller goes through the identities; `left` is an upper bound for their number.
  unfoldable pub get_more_identities : ℕ → ℕ → Queue → Result (List (PublicKey g))
  get_more_identities zero num q = ok []
  get_more_identities (suc left) num q = do
    found ← get_next_identity num q
    elim found [
      | none ↦ ok []
      | some (k, (num', q')) ↦ get_more_identities left num' q' >>= λ ks. ok (k ∷ ks)
    ]

  -- What `list_identities` of ssh-add.c prints.
  unfoldable pub list_identities : Socket → Result (List (PublicKey g))
  unfolding get_first_identity get_more_identities
  list_identities socket = do
    found ← get_first_identity socket
    elim found [
      | none ↦ ok []
      | some (k, (num, q)) ↦ get_more_identities num num q >>= λ ks. ok (k ∷ ks)
    ]

  -- The message of `ssh_add_identity`.
  unfoldable pub add_message : Identity g → Result (List ℕ)
  add_message k = do
    q1 ← put_mp_int g (Bufaux.put_int (Bufaux.put_char [] Code.add_rsa_identity) k.bits) k.n
    q2 ← put_mp_int g q1 k.e
    q3 ← put_mp_int g q2 k.d
    q4 ← put_mp_int g q3 k.u
    q5 ← put_mp_int g q4 k.p
    q6 ← put_mp_int g q5 k.q
    ok (Bufaux.put_string q6 k.comment)

  unfoldable pub add_identity : Socket → Identity g → Result Bool
  unfolding add_message exchange outcome
  add_identity socket k = do msg ← add_message k; answer ← exchange socket msg; outcome answer

module _ (g : Gmp) where
  unfoldable pub decrypt_challenge :
      Socket → ℕ → g.Mpz → g.Mpz → g.Mpz → List ℕ → ℕ → Result (Option (List ℕ))
  unfolding exchange read_response
  decrypt_challenge socket bits e n challenge session_id response_type = do
    guard (not (response_type == 0)) old_protocol
    let q0 = Queue.append [] (Code.rsa_challenge ∷ [])
    q1 ← put_mp_int g (Bufaux.put_int q0 bits) e
    q2 ← put_mp_int g q1 n
    q3 ← put_mp_int g q2 challenge
    let msg = Bufaux.put_int (Queue.append q3 session_id) response_type
    answer ← exchange socket msg
    read_response answer

  unfoldable pub remove_message : ℕ → g.Mpz → g.Mpz → Result (List ℕ)
  remove_message bits e n = do
    q1 ← put_mp_int g (Bufaux.put_int (Bufaux.put_char [] Code.remove_rsa_identity) bits) e
    put_mp_int g q1 n

  unfoldable pub remove_identity : Socket → ℕ → g.Mpz → g.Mpz → Result Bool
  unfolding remove_message exchange outcome
  remove_identity socket bits e n = do
    msg ← remove_message bits e n
    answer ← exchange socket msg
    outcome answer
