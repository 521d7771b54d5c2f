-- ===== src/Auth/Keys/Composed.antt =====
-- The requests of sshd.c with the search of the keys of auth-rsa.c.
use ssh_1_history.Prelude.{
  ℕ, ◌≡◌, ◌==◌, ◌∷◌, inl, inr, subst, Bool, true, false, List, Result, ok, Ensures, Ensures-mono,
  Ensures-ok,
}
use ssh_1_history.Buffer.Queue.{Queue}
use ssh_1_history.Bufaux.MpInt.{Gmp, get_mp_int}
use ssh_1_history.Auth.Dialog.{Rsa}
use ssh_1_history.Auth.Requests.{Login}
use ssh_1_history.Auth.Code
use ssh_1_history.Auth.{Suffix, Passwd, Options, rhosts, rsa, password, rhosts_rsa}
use ssh_1_history.Auth.Permission.{System}
use ssh_1_history.Auth.Requests.{
  Checks, Connection, Outcome, accepted, closed, with_incoming, refuse, do_authentication,
}
use ssh_1_history.Auth.Requests.Reasons.{Refused, Justified, begun, welcomed, Deserved}
use ssh_1_history.Auth.Requests.Ending.{do_authentication-Deserved}
use ssh_1_history.Auth.Keys.{KeyFiles, auth_rsa}
use ssh_1_history.Auth.Keys.Authorized.{Left, Authorized, auth_rsa-Authorized}

module _ {g : Gmp} {r : Rsa g} where
  Left-incoming :
      (P : Login g r → Type 0) (s : Login g r) (a : Bool × Login g r)
      → Left P s a
      → Suffix a.1.session.incoming s.session.incoming
  Left-incoming P s (false, t) h = h
  Left-incoming P s (true, t) h = h.0

  -- The checks of the requests, with this search of the keys.
  pub with_keys : Checks g r → KeyFiles g → List ℕ → Checks g r
  with_keys k f session_id = record k {
    auth_rsa = λ pw n s. auth_rsa f session_id pw n s;
    auth_rsa-Suffix = λ pw n s.
        Ensures-mono (auth_rsa-Authorized f session_id pw n s)
          (λ a h. Left-incoming (λ t. Authorized f session_id pw n s t) s a h);
  }

  -- A packet of the client, which comes after refused ones, names a modulus, and the search of the keys
  -- for it finds an authorized key and its dialog in what there is behind that packet.
  abbrev pub KeyShown :
      Checks g r → KeyFiles g → Options → Connection → Passwd → (start t : Login g r) → Type 0
  KeyShown k f o c pw start t =
      (v : Login g r) × (p : ℕ × Queue) × (ps : List (ℕ × Queue)) × (n : g.Mpz) × (rest : Queue)
      × Refused k o c pw (refuse start) v
      × Suffix v.session.incoming start.session.incoming
      × (v.session.incoming ≡ p ∷ ps)
      × ((p.0 == Code.auth_rsa) ≡ true)
      × (get_mp_int g p.1 g.init ≡ ok (n, rest))
      × (u : Login g r) × Authorized f c.session_id pw n (with_incoming v ps) u
      × (t ≡ welcomed u)

  -- A login by an RSA key is one by an authorized key; nothing is said of the other methods.
  abbrev pub KeyHeld :
      Checks g r → KeyFiles g → Options → System → Connection → Login g r → Outcome g r → Type 0
  KeyHeld k f o y c s (accepted pw rsa t) = KeyShown k f o c pw (begun o y c pw s) t
  KeyHeld k f o y c s (accepted pw password t) = Unit
  KeyHeld k f o y c s (accepted pw rhosts t) = Unit
  KeyHeld k f o y c s (accepted pw rhosts_rsa t) = Unit
  KeyHeld k f o y c s (closed t) = Unit

  proved :
      {P : Login g r → Type 0} (s : Login g r) (x : Result (Bool × Login g r)) (t : Login g r)
      → Ensures (Left P s) x
      → x ≡ ok (true, t)
      → P t
  proved {P} s x t h e = (Ensures-ok (Left P s) (true, t) (subst (λ y. Ensures (Left P s) y) e h)).1

  -- Whatever packets the client sends, if `do_authentication` with this search of the keys accepts a
  -- login by an RSA key, then one of the packets has the type of that request and names a modulus, those
  -- before it were refused, and the user's file of authorized keys has a line for a key with this
  -- modulus: the lines before it were gone through in vain with the packets behind the request, the
  -- dialog for the key succeeded with those that were left, and the options of the line let it pass.
  -- The login that is returned is what this left, with the message of success sent.
  pub do_authentication-Authorized :
      (k : Checks g r) (f : KeyFiles g) (o : Options) (y : System) (c : Connection) (s : Login g r)
      → Ensures
          (KeyHeld (with_keys k f c.session_id) f o y c s)
          (do_authentication (with_keys k f c.session_id) o y c s)
  unfolding with_keys
  do_authentication-Authorized k f o y c s =
      Ensures-mono (do_authentication-Deserved (with_keys k f c.session_id) o y c s) held
    where
      shown :
          (pw : Passwd) (u t : Login g r)
          → t ≡ welcomed u
          → Justified (with_keys k f c.session_id) o c pw (begun o y c pw s) rsa u
          → KeyShown (with_keys k f c.session_id) f o c pw (begun o y c pw s) t
      shown pw u t sent (inl (other, on, empty, same)) = absurd cc
      shown pw u t sent (inr (v, p, ps, past, back, e, (type, on, (n, rest, read, done)))) = (
        v,
        p,
        ps,
        n,
        rest,
        past,
        back,
        e,
        type,
        read,
        u,
        proved (with_incoming v ps) (auth_rsa f c.session_id pw n (with_incoming v ps)) u
            (auth_rsa-Authorized f c.session_id pw n (with_incoming v ps)) done,
        sent,
      )

      held :
          (a : Outcome g r)
          → Deserved (with_keys k f c.session_id) o y c s a
          → KeyHeld (with_keys k f c.session_id) f o y c s a
      held (closed t) h = tt
      held (accepted pw password t) h = tt
      held (accepted pw rhosts t) h = tt
      held (accepted pw rhosts_rsa t) h = tt
      held (accepted pw rsa t) (known, short, good, permitted, mine, (u, why, root, sent)) =
          shown pw u t sent why
