-- ===== src/Auth.antt =====
-- The authentication of a client in sshd.c: its state, and the packets that it reads and sends. The
-- packet protocol hands over packets one by one, each with its type and its payload.
pub mod Code
pub mod Permission
pub mod Dialog
pub mod KeyOptions
pub mod Requests
pub mod Keys
use ssh_1_history.Prelude.{
  ℕ, Bool, List, [], ◌∷◌, ◌++◌, Option, none, some, Result, ok, err, ◌>>=◌, ◌>>◌, guard,
  disconnected, unexpected_type, connection_closed, ◌==◌, ◌≡◌, refl, ap, sym, ◌∙◌, ◌≤◌, length,
  length-append, append_assoc, arith, true, false,
}
use ssh_1_history.Buffer.Queue.{Queue}

-- What comes is the list of the packets until the client closes the connection.
pub record Session : Type 0 where
  pub incoming : List (ℕ × Queue)
  pub outgoing : List (ℕ × Queue)

-- What is left of the packets that come, after some were taken.
abbrev pub Suffix : List (ℕ × Queue) → List (ℕ × Queue) → Type 0
Suffix xs ys = (front : List (ℕ × Queue)) × (ys ≡ front ++ xs)

-- packet_read; packet_get_int and the like read from the payload.
pub read : Session → Result ((ℕ × Queue) × Session)
read s = elim s.incoming [
  | [] ↦ err connection_closed
  | p ∷ ps ↦ ok (p, record s { incoming = ps })
]

-- packet_start and packet_send
unfoldable pub send : Session → ℕ → Queue → Session
send s type payload = record s { outgoing = s.outgoing ++ ((type, payload) ∷ []) }

unfoldable pub read_expect : ℕ → Session → Result (Queue × Session)
unfolding read
read_expect expected s = do
  (p, t) ← read s
  guard (p.0 == expected) (disconnected (unexpected_type p.0))
  ok (p.1, t)

pub record Passwd : Type 0 where
  pub passwd : List ℕ
  pub uid : ℕ
  pub gid : ℕ

-- The options of the server.
pub record Options : Type 0 where
  pub password_authentication : Bool
  pub rhosts_authentication : Bool
  pub rhosts_rsa_authentication : Bool
  pub rsa_authentication : Bool
  pub permit_root_login : ℕ
  pub forced_passwd_change : Bool
  pub allow_users : List (List ℕ)
  pub deny_users : List (List ℕ)
  pub allow_groups : List (List ℕ)
  pub deny_groups : List (List ℕ)

-- Variables that the session reads later; a number of days that is not set is -1 in the source.
pub record Globals : Type 0 where
  pub forced_command : Option (List ℕ)
  -- whether the null behind it is there
  pub command_terminated : Bool
  pub days_before_account_expires : Option ℕ
  pub days_before_password_expires : Option ℕ
  pub no_port_forwarding : Bool
  pub no_agent_forwarding : Bool
  pub no_x11_forwarding : Bool
  pub no_pty : Bool
  pub idle_timeout : ℕ
  pub custom_environment : List (List ℕ)

pub data Method : Type 0 where
  rhosts rsa password rhosts_rsa : Method

pub Suffix_refl : (xs : List (ℕ × Queue)) → Suffix xs xs
Suffix_refl xs = ([], refl)

pub Suffix_trans : (xs ys zs : List (ℕ × Queue)) → Suffix xs ys → Suffix ys zs → Suffix xs zs
Suffix_trans xs ys zs a b =
    (b.0 ++ a.0, b.1 ∙ ap (λ t. b.0 ++ t) a.1 ∙ sym (append_assoc b.0 a.0 xs))

pub Suffix-length : (xs ys : List (ℕ × Queue)) → Suffix xs ys → length xs ≤ length ys
Suffix-length xs ys a = omega (arith, ap length a.1, length-append a.0 xs)
