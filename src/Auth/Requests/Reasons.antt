-- ===== src/Auth/Requests/Reasons.antt =====
-- Why a client gets in.
use ssh_1_history.Prelude.{
  ℕ, ◌≤◌, ◌≡◌, ◌⊎◌, Bool, true, false, not, ◌&&◌, ◌||◌, List, [], ◌∷◌, none, some, ok, length, ◌==◌,
}
use ssh_1_history.Buffer.Queue.{Queue}
use ssh_1_history.Bufaux.MpInt.{Gmp}
use ssh_1_history.Auth.{send, Suffix, Passwd, Options, Globals, Method, password}
use ssh_1_history.Auth.Code
use ssh_1_history.Auth.Permission.{System, login_permitted}
use ssh_1_history.Auth.Permission.Declared.{Permitted}
use ssh_1_history.Auth.Dialog.{Rsa}
use ssh_1_history.Auth.Requests.{
  Login, Checks, Connection, Outcome, accepted, closed, starts_badly, is_password, is_some,
  with_incoming, request, refuse,
}
use ssh_1_history.Auth.Requests.Justified.{Granted}

-- Root may be kept from logging in with a password, or but for a forced command.
abbrev pub root_refused : Options → Passwd → Method → Globals → Bool
root_refused o pw m globals =
    pw.uid == 0
    && ((o.permit_root_login == 1 && is_password m)
        || (o.permit_root_login == 0 && not (is_some globals.forced_command)))

abbrev pub RootRule : Options → Passwd → Method → Globals → Type 0
RootRule o pw m globals = root_refused o pw m globals ≡ false

-- What there is in front of a request: the packets before, each of them refused with an answer.
pub data Refused {g : Gmp} {r : Rsa g} (k : Checks g r) (o : Options) (c : Connection) (pw : Passwd)
    (start : Login g r) : Login g r → Type 0 where
  at_start : Refused k o c pw start start
  after :
      {v : Login g r}
      → Refused k o c pw start v
      → (p : ℕ × Queue) (ps : List (ℕ × Queue)) → v.session.incoming ≡ p ∷ ps
      → (u : Login g r) → request k o c pw p (with_incoming v ps) ≡ ok (none, u)
      → Refused k o c pw start (refuse u)

module _ {g : Gmp} {r : Rsa g} where
  -- An account whose password is empty.
  abbrev pub Unprotected :
      Checks g r → Options → Connection → Login g r → Method → Login g r → Type 0
  Unprotected k o c start m t =
      (m ≡ password)
      × (o.password_authentication ≡ true)
      × (k.auth_password c.user [] ≡ true)
      × (t ≡ start)

  -- One of the packets that the client has sent lets it in, and the ones before were refused.
  abbrev pub Requested :
      Checks g r → Options → Connection → Passwd → Login g r → Method → Login g r → Type 0
  Requested k o c pw start m t =
      (v : Login g r) × (p : ℕ × Queue) × (ps : List (ℕ × Queue)) × Refused k o c pw (refuse start)
        v
      × Suffix v.session.incoming start.session.incoming
      × (v.session.incoming ≡ p ∷ ps)
      × Granted k o c pw p (with_incoming v ps) m t

  abbrev pub Justified :
      Checks g r → Options → Connection → Passwd → Login g r → Method → Login g r → Type 0
  Justified k o c pw start m t = Unprotected k o c start m t ⊎ Requested k o c pw start m t

  -- The login when the methods are tried.
  abbrev pub begun : Options → System → Connection → Passwd → Login g r → Login g r
  begun o y c pw s = record s { globals = (login_permitted o y c.user pw s.globals).1 }

  abbrev pub welcomed : Login g r → Login g r
  welcomed u = record u { session = send u.session Code.success [] }

  -- Who gets in, and why.
  abbrev pub Deserved :
      Checks g r → Options → System → Connection → Login g r → Outcome g r → Type 0
  Deserved k o y c s (closed t) = Unit
  Deserved k o y c s (accepted pw m t) =
      (k.getpwnam c.user ≡ some pw)
      × (length c.user ≤ 255)
      × (starts_badly c.user ≡ false)
      × Permitted o y c.user pw
      × ((k.getuid ≡ 0) ⊎ (pw.uid ≡ k.getuid))
      × ((u : Login g r) × Justified k o c pw (begun o y c pw s) m u
          × RootRule o pw m u.globals
          × (t ≡ welcomed u))
