-- ===== src/Auth/Requests/Justified.antt =====
-- What a request that a client gets in by has in it.
use ssh_1_history.Prelude.{
  ℕ, ◌+◌, ◌≡◌, ◌∙◌, ap, refl, Bool, true, false, not, List, none, some, Result, ok, disconnected,
  too_many_attempts, Ensures, Ensures-bind, Ensures-bind_eq, Ensures-guard, returns, leb, ◌==◌,
  if◌then◌else◌, Bool-cases, inl, inr, arith,
}
use ssh_1_history.Buffer.Queue.{Queue}
use ssh_1_history.Bufaux
use ssh_1_history.Bufaux.MpInt.{Gmp, get_mp_int}
use ssh_1_history.Bufaux.Reads.{Anything, get_int-Ensures, get_string-Ensures, get_mp_int-Ensures}
use ssh_1_history.Auth.{
  Suffix, Suffix_refl, Passwd, Options, Method, rhosts, rsa, password, rhosts_rsa,
}
use ssh_1_history.Auth.Code
use ssh_1_history.Auth.Dialog.{Rsa, challenge_dialog}
use ssh_1_history.Auth.Dialog.Left.{challenge_dialog-Suffix}
use ssh_1_history.Auth.Requests.{
  Login, Checks, Connection, Verdict, auth_rhosts_rsa, request_rhosts, verdict, request_rhosts_rsa,
  request_rsa, request_password, request,
}

-- Why the packet `p` lets the client in by each method: it is of the method's type, the option is on,
-- the method's conditions on the connection hold, and the check that the method stands for has
-- accepted what the packet says. `s` is what there is when the packet is read, `t` what is left.
module _ {g : Gmp} {r : Rsa g} where
  abbrev pub Granted :
      Checks g r
      → Options
      → Connection
      → Passwd
      → ℕ × Queue
      → Login g r
      → Method
      → Login g r
      → Type 0
  Granted k o c pw p s password t =
      ((p.0 == Code.auth_password) ≡ true)
      × (o.password_authentication ≡ true)
      × ((c.cipher_type == Code.cipher_none) ≡ false)
      × (leb 5 s.password_attempts ≡ false)
      × ((word : List ℕ) × (rest : Queue) × (Bufaux.get_string p.1 ≡ ok (word, rest))
          × (k.auth_password c.user word ≡ true))
      × (t ≡ record s { password_attempts = s.password_attempts + 1 })
  Granted k o c pw p s rhosts t =
      ((p.0 == Code.auth_rhosts) ≡ true)
      × (o.rhosts_authentication ≡ true)
      × (c.privileged_port ≡ true)
      × ((u : List ℕ) × (rest : Queue) × (Bufaux.get_string p.1 ≡ ok (u, rest))
          × (k.auth_rhosts pw u ≡ true))
      × (t ≡ s)
  Granted k o c pw p s rsa t =
      ((p.0 == Code.auth_rsa) ≡ true)
      × (o.rsa_authentication ≡ true)
      × ((n : g.Mpz) × (rest : Queue) × (get_mp_int g p.1 g.init ≡ ok (n, rest))
          × (k.auth_rsa pw n s ≡ ok (true, t)))
  Granted k o c pw p s rhosts_rsa t =
      ((p.0 == Code.auth_rhosts_rsa) ≡ true)
      × (o.rhosts_rsa_authentication ≡ true)
      × (c.privileged_port ≡ true)
      × ((c.cipher_type == Code.cipher_none) ≡ false)
      × ((c.cipher_type == Code.cipher_arcfour) ≡ false)
      × ((u : List ℕ × Queue) × (bits : ℕ × Queue) × (e : g.Mpz × Queue) × (n : g.Mpz × Queue)
          × (Bufaux.get_string p.1 ≡ ok u)
          × (Bufaux.get_int u.1 ≡ ok bits)
          × (get_mp_int g bits.1 g.init ≡ ok e)
          × (get_mp_int g e.1 g.init ≡ ok n)
          × (k.auth_rhosts pw u.0 ≡ true)
          × (k.host_known bits.0 e.0 n.0 ≡ true)
          × (challenge_dialog g r c.session_id bits.0 e.0 n.0 (s.generator, s.session)
              ≡ ok (true, (t.generator, t.session))))
      × (t.globals ≡ s.globals)

  -- What a request leaves is an end of the packets that come, and it names a method only with a reason.
  abbrev pub Sound :
      Checks g r → Options → Connection → Passwd → ℕ × Queue → Login g r → Verdict g r → Type 0
  Sound k o c pw p s (none, t) = Suffix t.session.incoming s.session.incoming
  Sound k o c pw p s (some m, t) =
      Suffix t.session.incoming s.session.incoming × Granted k o c pw p s m t

  -- The type of the packet selects a case.
  case-Sound :
      (k : Checks g r) (o : Options) (c : Connection) (pw : Passwd) (p : ℕ × Queue) (s : Login g r)
      (b : Bool) {x y : Result (Verdict g r)}
      → (b ≡ true → Ensures (Sound k o c pw p s) x)
      → Ensures (Sound k o c pw p s) y
      → Ensures (Sound k o c pw p s) (if b then x else y)
  case-Sound k o c pw p s true h l = h refl
  case-Sound k o c pw p s false h l = l

  -- The request is refused if a condition does not hold.
  when-Sound :
      (k : Checks g r) (o : Options) (c : Connection) (pw : Passwd) (p : ℕ × Queue) (s : Login g r)
      (b : Bool) {m : Result (Verdict g r)}
      → (b ≡ true → Ensures (Sound k o c pw p s) m)
      → Ensures (Sound k o c pw p s) (if not b then ok (none, s) else m)
  when-Sound k o c pw p s true h = h refl
  when-Sound k o c pw p s false h = returns (Suffix_refl s.session.incoming)

  unless-Sound :
      (k : Checks g r) (o : Options) (c : Connection) (pw : Passwd) (p : ℕ × Queue) (s : Login g r)
      (b : Bool) {m : Result (Verdict g r)}
      → (b ≡ false → Ensures (Sound k o c pw p s) m)
      → Ensures (Sound k o c pw p s) (if b then ok (none, s) else m)
  unless-Sound k o c pw p s false h = h refl
  unless-Sound k o c pw p s true h = returns (Suffix_refl s.session.incoming)

  verdict-Sound :
      (k : Checks g r) (o : Options) (c : Connection) (pw : Passwd) (p : ℕ × Queue) (s : Login g r)
      (m : Method) (a : Bool × Login g r)
      → Suffix a.1.session.incoming s.session.incoming
      → (a.0 ≡ true → Granted k o c pw p s m a.1)
      → Sound k o c pw p s (verdict m a)
  unfolding verdict
  verdict-Sound k o c pw p s m (true, t) h why = (h, why refl)
  verdict-Sound k o c pw p s m (false, t) h why = h

  request_rhosts-Sound :
      (k : Checks g r) (o : Options) (c : Connection) (pw : Passwd) (p : ℕ × Queue) (s : Login g r)
      → (p.0 == Code.auth_rhosts) ≡ true
      → Ensures (Sound k o c pw p s) (request_rhosts k o c pw p.1 s)
  unfolding request_rhosts
  request_rhosts-Sound k o c pw p s type = when-Sound k o c pw p s o.rhosts_authentication λ on.
      when-Sound k o c pw p s c.privileged_port λ port.
        Ensures-bind_eq Anything (Sound k o c pw p s) (Bufaux.get_string p.1)
          (get_string-Ensures p.1)
          λ a _ eq. elim (Bool-cases (k.auth_rhosts pw a.0)) [
            | inl is ↦ rw is (
                returns
                  (Suffix_refl s.session.incoming, (type, on, port, (a.0, a.1, eq, is), refl)))
            | inr isnt ↦ rw isnt (returns (Suffix_refl s.session.incoming))
          ]

  request_password-Sound :
      (k : Checks g r) (o : Options) (c : Connection) (pw : Passwd) (p : ℕ × Queue) (s : Login g r)
      → (p.0 == Code.auth_password) ≡ true
      → Ensures (Sound k o c pw p s) (request_password k o c p.1 s)
  unfolding request_password verdict
  request_password-Sound k o c pw p s type = when-Sound k o c pw p s o.password_authentication λ on.
      unless-Sound k o c pw p s (c.cipher_type == Code.cipher_none) λ secret.
        Ensures-bind_eq Anything (Sound k o c pw p s) (Bufaux.get_string p.1)
          (get_string-Ensures p.1)
          λ a _ eq.
            Ensures-bind _ (Sound k o c pw p s)
              (Ensures-guard (not (leb 5 s.password_attempts)) {e = disconnected too_many_attempts}
                (λ e. cc))
              λ u few. returns (
                verdict-Sound k o c pw p s password
                  (
                    k.auth_password c.user a.0,
                    record s { password_attempts = s.password_attempts + 1 },
                  )
                  (Suffix_refl s.session.incoming)
                  λ is. (type, on, secret, ground arith, (a.0, a.1, eq, is), refl))

  request_rsa-Sound :
      (k : Checks g r) (o : Options) (c : Connection) (pw : Passwd) (p : ℕ × Queue) (s : Login g r)
      → (p.0 == Code.auth_rsa) ≡ true
      → Ensures (Sound k o c pw p s) (request_rsa k o pw p.1 s)
  unfolding request_rsa verdict
  request_rsa-Sound k o c pw p s type = when-Sound k o c pw p s o.rsa_authentication λ on.
      Ensures-bind_eq Anything (Sound k o c pw p s) (get_mp_int g p.1 g.init)
        (get_mp_int-Ensures g p.1 g.init)
        λ n _ eq.
          Ensures-bind_eq _ (Sound k o c pw p s) (k.auth_rsa pw n.0 s) (k.auth_rsa-Suffix pw n.0 s)
            λ a h e. returns (
              verdict-Sound k o c pw p s rsa a h
                λ is. (type, on, (n.0, n.1, eq, e ∙ ap (λ x. ok (x, a.1)) is)))

  auth_rhosts_rsa-Sound :
      (k : Checks g r) (c : Connection) (pw : Passwd) (u : List ℕ) (bits : ℕ) (e n : g.Mpz)
      (s : Login g r)
      → Ensures
          (λ a.
            Suffix a.1.session.incoming s.session.incoming
            × (a.0 ≡ true
                → (k.auth_rhosts pw u ≡ true)
                  × (k.host_known bits e n ≡ true)
                  × (challenge_dialog g r c.session_id bits e n (s.generator, s.session)
                      ≡ ok (true, (a.1.generator, a.1.session)))
                  × (a.1.globals ≡ s.globals)))
          (auth_rhosts_rsa k c pw u bits e n s)
  unfolding auth_rhosts_rsa
  auth_rhosts_rsa-Sound k c pw u bits e n s = elim (Bool-cases (k.auth_rhosts pw u)) [
    | inr isnt ↦ rw isnt (returns (Suffix_refl s.session.incoming, λ x. absurd cc))
    | inl is ↦ elim (Bool-cases (k.host_known bits e n)) [
      | inr isnt ↦ rw (is, isnt) (returns (Suffix_refl s.session.incoming, λ x. absurd cc))
      | inl known ↦
          rw (is, known)
            (Ensures-bind_eq _ _
              (challenge_dialog g r c.session_id bits e n (s.generator, s.session))
              (challenge_dialog-Suffix g r c.session_id bits e n (s.generator, s.session))
              λ a h eq. returns (h, λ true_. (refl, refl, eq ∙ ap (λ x. ok (x, a.1)) true_, refl)))
    ]
  ]

  request_rhosts_rsa-Sound :
      (k : Checks g r) (o : Options) (c : Connection) (pw : Passwd) (p : ℕ × Queue) (s : Login g r)
      → (p.0 == Code.auth_rhosts_rsa) ≡ true
      → Ensures (Sound k o c pw p s) (request_rhosts_rsa k o c pw p.1 s)
  unfolding request_rhosts_rsa
  request_rhosts_rsa-Sound k o c pw p s type =
      let P : Verdict g r → Type 0 = λ a. Sound k o c pw p s a in
      when-Sound k o c pw p s o.rhosts_rsa_authentication λ on.
        when-Sound k o c pw p s c.privileged_port λ port.
          unless-Sound k o c pw p s (c.cipher_type == Code.cipher_none) λ secret.
            unless-Sound k o c pw p s (c.cipher_type == Code.cipher_arcfour) λ strong.
              Ensures-bind_eq Anything P (Bufaux.get_string p.1) (get_string-Ensures p.1) λ u _ eu.
                Ensures-bind_eq Anything P (Bufaux.get_int u.1) (get_int-Ensures u.1) λ b _ eb.
                  Ensures-bind_eq Anything P (get_mp_int g b.1 g.init)
                    (get_mp_int-Ensures g b.1 g.init)
                    λ e _ ee.
                      Ensures-bind_eq Anything P (get_mp_int g e.1 g.init)
                        (get_mp_int-Ensures g e.1 g.init)
                        λ n _ en.
                          Ensures-bind _ P (auth_rhosts_rsa-Sound k c pw u.0 b.0 e.0 n.0 s) λ a h.
                            returns (
                              verdict-Sound k o c pw p s rhosts_rsa a h.0 λ is.
                                let w = h.1 is in
                                (
                                  type,
                                  on,
                                  port,
                                  secret,
                                  strong,
                                  (u, b, e, n, eu, eb, ee, en, w.0, w.1, w.2),
                                  w.3,
                                ))

  pub request-Sound :
      (k : Checks g r) (o : Options) (c : Connection) (pw : Passwd) (p : ℕ × Queue) (s : Login g r)
      → Ensures (Sound k o c pw p s) (request k o c pw p s)
  unfolding request
  request-Sound k o c pw p s =
      case-Sound k o c pw p s (p.0 == Code.auth_rhosts) (request_rhosts-Sound k o c pw p s) (
        case-Sound k o c pw p s (p.0 == Code.auth_rhosts_rsa)
          (request_rhosts_rsa-Sound k o c pw p s)
          (case-Sound k o c pw p s (p.0 == Code.auth_rsa) (request_rsa-Sound k o c pw p s) (
            case-Sound k o c pw p s (p.0 == Code.auth_password)
              (request_password-Sound k o c pw p s) (returns (Suffix_refl s.session.incoming)))))
