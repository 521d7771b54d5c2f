-- ===== src/Auth/Requests.antt =====
-- `do_authentication` of sshd.c without Kerberos, TIS and the login classes of FreeBSD, and
-- `auth_rhosts_rsa` of auth-rh-rsa.c. The checks of passwords, of .rhosts files, of known hosts and of
-- authorized keys, in auth-passwd.c, auth-rhosts.c, hostfile.c and auth-rsa.c, are an interface.
pub mod Ending
pub mod Justified
pub mod Passwords
pub mod Reasons
use ssh_1_history.Prelude.{
  ℕ, zero, suc, ◌+◌, ◌≡◌, Bool, true, false, not, ◌&&◌, ◌||◌, List, [], ◌∷◌, Option, none, some,
  Result, ok, err, ◌>>=◌, ◌>>◌, guard, Ensures, out_of_fuel, disconnected, too_many_attempts,
  root_login_refused, cannot_change_user, length, ltb, leb, get_or, ◌==◌, if◌then◌else◌,
}
use ssh_1_history.Buffer.Queue.{Queue}
use ssh_1_history.Bufaux
use ssh_1_history.Bufaux.MpInt.{Gmp, get_mp_int}
use ssh_1_history.Auth
use ssh_1_history.Auth.{
  Session, Suffix, send, Passwd, Options, Globals, Method, rhosts, rsa, password, rhosts_rsa,
}
use ssh_1_history.Auth.Code
use ssh_1_history.Auth.Permission.{System, login_permitted}
use ssh_1_history.Auth.Dialog.{Rsa, challenge_dialog}

-- What changes while requests are answered; the random numbers are in the state of the generator.
pub record Login (g : Gmp) (r : Rsa g) : Type 0 where
  pub generator : r.State
  pub session : Session
  pub globals : Globals
  pub password_attempts : ℕ

-- auth_rsa asks for packets by its challenges, and ends.
pub record Checks (g : Gmp) (r : Rsa g) : Type 0 where
  pub getuid : ℕ
  pub getpwnam : List ℕ → Option Passwd
  pub auth_password : List ℕ → List ℕ → Bool
  pub auth_rhosts : Passwd → List ℕ → Bool
  -- check_host_in_hostfile of the system's file or of the user's
  pub host_known : ℕ → g.Mpz → g.Mpz → Bool
  pub auth_rsa : Passwd → g.Mpz → Login g r → Result (Bool × Login g r)
  pub auth_rsa-Suffix :
      (pw : Passwd) (n : g.Mpz) (s : Login g r)
      → Ensures (λ a. Suffix a.1.session.incoming s.session.incoming) (auth_rsa pw n s)

pub record Connection : Type 0 where
  pub user : List ℕ
  pub privileged_port : Bool
  pub cipher_type : ℕ
  pub session_id : List ℕ

pub data Outcome (g : Gmp) (r : Rsa g) : Type 0 where
  accepted : Passwd → Method → Login g r → Outcome g r
  -- the client has closed the connection
  closed : Session → Outcome g r

-- The fail loop: every packet is answered by a failure.
unfoldable pub answer_all : List (ℕ × Queue) → Session → Session
answer_all [] s = s
answer_all (p ∷ ps) s = answer_all ps (send (record s { incoming = ps }) Code.failure [])

unfoldable pub fail_loop : Session → Session
unfolding answer_all
fail_loop s = answer_all s.incoming (send s Code.failure [])

pub starts_badly : List ℕ → Bool
starts_badly user = let c = get_or user 0 0 in (c == b'-' || c == b'+') || c == b'@'

pub is_password : Method → Bool
is_password password = true
is_password rhosts = false
is_password rsa = false
is_password rhosts_rsa = false

pub is_some {ℓ} : {A : Type ℓ} → Option A → Bool
is_some none = false
is_some (some a) = true

-- A method that has accepted the client, or none.
abbrev pub Verdict : (g : Gmp) → Rsa g → Type 0
Verdict g r = Option Method × Login g r

module _ {g : Gmp} {r : Rsa g} where
  pub auth_rhosts_rsa :
      Checks g r
      → Connection
      → Passwd
      → List ℕ
      → ℕ
      → (e n : g.Mpz) → Login g r
      → Result (Bool × Login g r)
  auth_rhosts_rsa k c pw client_user bits e n s =
      let dialog = challenge_dialog g r c.session_id bits e n (s.generator, s.session) >>= λ a.
      ok (a.0, record s { generator = a.1.0; session = a.1.1 }) in
      if not (k.auth_rhosts pw client_user)
      then ok (false, s)
      else if not (k.host_known bits e n)
      then ok (false, s)
      else dialog

  -- The cases of the `switch`, each with the payload of the packet.
  pub request_rhosts :
      Checks g r → Options → Connection → Passwd → Queue → Login g r → Result (Verdict g r)
  request_rhosts k o c pw payload s =
      let checked = Bufaux.get_string payload >>= λ a.
      ok (if k.auth_rhosts pw a.0 then (some rhosts, s) else (none, s)) in
      if not o.rhosts_authentication
      then ok (none, s)
      else if not c.privileged_port
      then ok (none, s)
      else checked

  pub verdict : Method → Bool × Login g r → Verdict g r
  verdict m (true, s) = (some m, s)
  verdict m (false, s) = (none, s)

  pub request_rhosts_rsa :
      Checks g r → Options → Connection → Passwd → Queue → Login g r → Result (Verdict g r)
  unfolding auth_rhosts_rsa verdict
  request_rhosts_rsa k o c pw payload s =
      let checked = Bufaux.get_string payload >>= λ u. Bufaux.get_int u.1 >>= λ b.
      get_mp_int g b.1 g.init >>= λ e. get_mp_int g e.1 g.init >>= λ n.
      auth_rhosts_rsa k c pw u.0 b.0 e.0 n.0 s >>= λ a. ok (verdict rhosts_rsa a) in
      if not o.rhosts_rsa_authentication
      then ok (none, s)
      else if not c.privileged_port
      then ok (none, s)
      else if c.cipher_type == Code.cipher_none
      then ok (none, s)
      else if c.cipher_type == Code.cipher_arcfour
      then ok (none, s)
      else checked

  pub request_rsa : Checks g r → Options → Passwd → Queue → Login g r → Result (Verdict g r)
  unfolding verdict
  request_rsa k o pw payload s =
      let checked =
        get_mp_int g payload g.init >>= λ n. k.auth_rsa pw n.0 s >>= λ a. ok (verdict rsa a) in
      if not o.rsa_authentication then ok (none, s) else checked

  pub request_password :
      Checks g r → Options → Connection → Queue → Login g r → Result (Verdict g r)
  unfolding verdict
  request_password k o c payload s =
      let checked = Bufaux.get_string payload >>= λ a.
      guard (not (leb 5 s.password_attempts)) (disconnected too_many_attempts)
      >> ok (
          verdict password (
            k.auth_password c.user a.0,
            record s { password_attempts = s.password_attempts + 1 },
          )) in
      if not o.password_authentication
      then ok (none, s)
      else if c.cipher_type == Code.cipher_none
      then ok (none, s)
      else checked

  pub request :
      Checks g r → Options → Connection → Passwd → ℕ × Queue → Login g r → Result (Verdict g r)
  unfolding request_rhosts request_rhosts_rsa request_rsa request_password
  request k o c pw p s =
      if p.0 == Code.auth_rhosts
      then request_rhosts k o c pw p.1 s
      else if p.0 == Code.auth_rhosts_rsa
      then request_rhosts_rsa k o c pw p.1 s
      else if p.0 == Code.auth_rsa
      then request_rsa k o pw p.1 s
      else if p.0 == Code.auth_password
      then request_password k o c p.1 s
      else ok (none, s)

  pub refuse : Login g r → Login g r
  refuse s = record s { session = send s.session Code.failure [] }

  -- The packets `ps` are all that comes.
  abbrev pub with_incoming : Login g r → List (ℕ × Queue) → Login g r
  with_incoming s ps = record s { session = record s.session { incoming = ps } }

  pub request_loop :
      ℕ → Checks g r → Options → Connection → Passwd → Login g r → Result (Outcome g r)
  unfolding request refuse
  request_loop zero k o c pw s = err out_of_fuel
  request_loop (suc fuel) k o c pw s = elim s.session.incoming [
    | [] ↦ ok (closed s.session)
    | p ∷ ps ↦ request k o c pw p (with_incoming s ps) >>= λ a. elim a.0 [
      | none ↦ request_loop fuel k o c pw (refuse a.1)
      | some m ↦ ok (accepted pw m a.1)
    ]
  ]

  -- What comes before the loop: an empty password may do.
  pub authenticate : Checks g r → Options → Connection → Passwd → Login g r → Result (Outcome g r)
  unfolding request_loop refuse
  authenticate k o c pw s =
      if o.password_authentication && k.auth_password c.user []
      then ok (accepted pw password s)
      else request_loop (suc (length s.session.incoming)) k o c pw (refuse s)

  -- The rules for root, and then the success message.
  pub finish : Options → Outcome g r → Result (Outcome g r)
  unfolding is_password is_some
  finish o (closed s) = ok (closed s)
  finish o (accepted pw m s) =
      let done = ok (accepted pw m (record s { session = send s.session Code.success [] })) in
      if pw.uid == 0 && o.permit_root_login == 1
      then (if is_password m then err (disconnected root_login_refused) else done)
      else if pw.uid == 0 && o.permit_root_login == 0
      then (if is_some s.globals.forced_command
          then done
          else err (disconnected root_login_refused))
      else done

  -- What is done when `getpwnam` knows the user.
  pub authenticate_user :
      Checks g r → Options → System → Connection → Login g r → Passwd → Result (Outcome g r)
  unfolding starts_badly fail_loop authenticate finish
  authenticate_user k o y c s pw =
      let permitted = login_permitted o y c.user pw s.globals in
      let t = record s { globals = permitted.1 } in
      let failed = ok (closed (fail_loop s.session)) in
      if ltb 255 (length c.user)
      then failed
      else if starts_badly c.user
      then failed
      else if not permitted.0
      then failed
      else if not (k.getuid == 0) && not (pw.uid == k.getuid)
      then err (disconnected cannot_change_user)
      else (authenticate k o c pw t >>= λ a. finish o a)

  pub do_authentication :
      Checks g r → Options → System → Connection → Login g r → Result (Outcome g r)
  unfolding fail_loop authenticate_user
  do_authentication k o y c s = elim (k.getpwnam c.user) [
    | none ↦ ok (closed (fail_loop s.session))
    | some pw ↦ authenticate_user k o y c s pw
  ]
