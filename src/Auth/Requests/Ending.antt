-- ===== src/Auth/Requests/Ending.antt =====
-- How authentication ends.
use ssh_1_history.Prelude.{
  ℕ, zero, suc, ◌≤◌, ◌<◌, ◌≡◌, ◌⊎◌, refl, sym, subst, false, not, ◌&&◌, List, [], ◌∷◌, Option, none,
  some, Result, ok, Ensures, Ensures-bind, Ensures-bind_eq, Ensures-mono, returns, fails, length,
  ltb, ◌==◌, Bool-cases, inl, inr, arith,
}
use ssh_1_history.Buffer.Queue.{Queue}
use ssh_1_history.Bufaux.MpInt.{Gmp}
use ssh_1_history.Auth.{send, Suffix, Suffix_refl, Suffix_trans, Suffix-length, Passwd, Options}
use ssh_1_history.Auth.Permission.{System, login_permitted}
use ssh_1_history.Auth.Permission.Declared.{Permitted, login_permitted-Permitted_iff}
use ssh_1_history.Auth.Dialog.{Rsa}
use ssh_1_history.Auth.Requests.{
  Login, Checks, Connection, Verdict, Outcome, accepted, closed, fail_loop, starts_badly,
  is_password, is_some, with_incoming, request, refuse, request_loop, authenticate, finish,
  authenticate_user, do_authentication,
}
use ssh_1_history.Auth.Requests.Reasons.{
  root_refused, RootRule, Refused, at_start, after, Justified, begun, welcomed, Deserved,
}
use ssh_1_history.Auth.Requests.Justified.{Sound, request-Sound}

module _ {g : Gmp} {r : Rsa g} where
  -- The same within the loop, where the user is known.
  abbrev Admitted : Checks g r → Options → Connection → Passwd → Login g r → Outcome g r → Type 0
  Admitted k o c pw start (closed t) = Unit
  Admitted k o c pw start (accepted qw m t) = (qw ≡ pw) × Justified k o c pw start m t

  -- After a request: the loop goes on, or it ends with a reason.
  after_request :
      (fuel : ℕ) (k : Checks g r) (o : Options) (c : Connection) (pw : Passwd) (start v : Login g r)
      (p : ℕ × Queue) (ps : List (ℕ × Queue)) (a : Verdict g r)
      → Refused k o c pw (refuse start) v
      → Suffix v.session.incoming start.session.incoming
      → v.session.incoming ≡ p ∷ ps
      → ((u : Login g r)
          → request k o c pw p (with_incoming v ps) ≡ ok (none, u)
          → Suffix u.session.incoming ps
          → Ensures (Admitted k o c pw start) (request_loop fuel k o c pw (refuse u)))
      → request k o c pw p (with_incoming v ps) ≡ ok a
      → Sound k o c pw p (with_incoming v ps) a
      → Ensures (Admitted k o c pw start) (elim a.0 as (λ x. Result (Outcome g r)) [
        | none ↦ request_loop fuel k o c pw (refuse a.1)
        | some m ↦ ok (accepted pw m a.1)
      ])
  after_request fuel k o c pw start v p ps (none, u) past back e again done left = again u done left
  after_request fuel k o c pw start v p ps (some m, u) past back e again done sound =
      returns (refl, inr (v, p, ps, past, back, e, sound.1))

  request_loop-Admitted :
      (fuel : ℕ) (k : Checks g r) (o : Options) (c : Connection) (pw : Passwd) (start s : Login g r)
      → Refused k o c pw (refuse start) s
      → Suffix s.session.incoming start.session.incoming
      → length s.session.incoming < fuel
      → Ensures (Admitted k o c pw start) (request_loop fuel k o c pw s)
  unfolding request_loop refuse send
  request_loop-Admitted zero k o c pw start s past back h = absurd (omega arith)
  request_loop-Admitted (suc fuel) k o c pw start s past back h =
      go s.session.incoming refl h
        λ u past' back' j. request_loop-Admitted fuel k o c pw start (refuse u) past' back' j
    where
      go :
          (ps : List (ℕ × Queue))
          → s.session.incoming ≡ ps
          → length ps < suc fuel
          → ((u : Login g r)
              → Refused k o c pw (refuse start) (refuse u)
              → Suffix u.session.incoming start.session.incoming
              → length u.session.incoming < fuel
              → Ensures (Admitted k o c pw start) (request_loop fuel k o c pw (refuse u)))
          → Ensures
              (Admitted k o c pw start)
              (request_loop (suc fuel) k o c pw (with_incoming s ps))
      go [] e h again = returns tt
      go (p ∷ ps) e h again =
          let t : Login g r = with_incoming s ps in
          Ensures-bind_eq (Sound k o c pw p t) (Admitted k o c pw start) (request k o c pw p t)
            (request-Sound k o c pw p t)
            λ a sound done.
              after_request fuel k o c pw start s p ps a past back e
                (λ u refused left.
                  again u (after past p ps e u refused)
                    (Suffix_trans u.session.incoming s.session.incoming start.session.incoming
                      (Suffix_trans u.session.incoming ps s.session.incoming left (p ∷ [], e)) back)
                    (omega (arith, h, Suffix-length u.session.incoming ps left)))
                done sound

  authenticate-Admitted :
      (k : Checks g r) (o : Options) (c : Connection) (pw : Passwd) (s : Login g r)
      → Ensures (Admitted k o c pw s) (authenticate k o c pw s)
  unfolding authenticate refuse send
  authenticate-Admitted k o c pw s =
      elim (Bool-cases (o.password_authentication && k.auth_password c.user [])) [
        | inl open_ ↦ rw open_ (returns (refl, inl (refl, ground arith, ground arith, refl)))
        | inr shut ↦ rw shut (
            request_loop-Admitted (suc (length s.session.incoming)) k o c pw s (refuse s) at_start
              (Suffix_refl s.session.incoming) (omega arith))
      ]

  -- After the rules for root.
  abbrev Rooted : Checks g r → Options → Connection → Passwd → Login g r → Outcome g r → Type 0
  Rooted k o c pw start (closed t) = Unit
  Rooted k o c pw start (accepted qw m t) =
      (qw ≡ pw)
      × ((u : Login g r) × Justified k o c pw start m u
          × RootRule o pw m u.globals
          × (t ≡ welcomed u))

  finish-RootRule :
      (k : Checks g r) (o : Options) (c : Connection) (pw : Passwd) (start : Login g r)
      (a : Outcome g r)
      → Admitted k o c pw start a
      → Ensures (Rooted k o c pw start) (finish o a)
  unfolding finish
  finish-RootRule k o c pw start (closed s) h = returns tt
  finish-RootRule k o c pw start (accepted qw m s) h =
      elim (Bool-cases (qw.uid == 0 && o.permit_root_login == 1)) [
        | inl one ↦ elim (Bool-cases (is_password m)) [
          | inl by_password ↦ rw (one, by_password) (fails (λ e. cc))
          | inr other ↦
              rw (one, other)
                (returns (
                  h.0,
                  (
                    s,
                    h.1,
                    subst (λ x. root_refused o x m s.globals ≡ false) h.0 (ground arith),
                    refl,
                  ),
                ))
        ]
        | inr not_one ↦ elim (Bool-cases (qw.uid == 0 && o.permit_root_login == 0)) [
          | inl never ↦ elim (Bool-cases (is_some s.globals.forced_command)) [
            | inl forced ↦
                rw (not_one, never, forced)
                  (returns (
                    h.0,
                    (
                      s,
                      h.1,
                      subst (λ x. root_refused o x m s.globals ≡ false) h.0 (ground arith),
                      refl,
                    ),
                  ))
            | inr free ↦ rw (not_one, never, free) (fails (λ e. cc))
          ]
          | inr always ↦
              rw (not_one, always)
                (returns (
                  h.0,
                  (
                    s,
                    h.1,
                    subst (λ x. root_refused o x m s.globals ≡ false) h.0 (ground arith),
                    refl,
                  ),
                ))
        ]
      ]

  Rooted-Deserved :
      (k : Checks g r) (o : Options) (y : System) (c : Connection) (s : Login g r) (pw : Passwd)
      → k.getpwnam c.user ≡ some pw
      → length c.user ≤ 255
      → starts_badly c.user ≡ false
      → Permitted o y c.user pw
      → (k.getuid ≡ 0) ⊎ (pw.uid ≡ k.getuid)
      → (a : Outcome g r) → Rooted k o c pw (begun o y c pw s) a
      → Deserved k o y c s a
  Rooted-Deserved k o y c s pw known short good permitted mine (closed t) h = tt
  Rooted-Deserved k o y c s pw known short good permitted mine (accepted qw m t) h =
      subst (λ x. Deserved k o y c s (accepted x m t)) (sym h.0)
        (known, short, good, permitted, mine, h.1)

  authenticate_user-Deserved :
      (k : Checks g r) (o : Options) (y : System) (c : Connection) (s : Login g r) (pw : Passwd)
      → k.getpwnam c.user ≡ some pw
      → Ensures (Deserved k o y c s) (authenticate_user k o y c s pw)
  unfolding authenticate_user
  authenticate_user-Deserved k o y c s pw known = elim (Bool-cases (ltb 255 (length c.user))) [
    | inl long ↦ rw long (returns tt)
    | inr short ↦ elim (Bool-cases (starts_badly c.user)) [
      | inl bad ↦ rw (short, bad) (returns tt)
      | inr good ↦ elim (Bool-cases (login_permitted o y c.user pw s.globals).0) [
        | inr refused ↦ rw (short, good, refused) (returns tt)
        | inl permitted ↦ elim (Bool-cases (not (k.getuid == 0) && not (pw.uid == k.getuid))) [
          | inl other ↦ rw (short, good, permitted, other) (fails (λ e. cc))
          | inr mine ↦
              let t : Login g r = record s {
                globals = (login_permitted o y c.user pw s.globals).1;
              } in
              rw (short, good, permitted, mine)
                (Ensures-bind (Admitted k o c pw t) (Deserved k o y c s)
                  (authenticate-Admitted k o c pw t)
                  λ a adm. Ensures-mono (finish-RootRule k o c pw t a adm) (
                    Rooted-Deserved k o y c s pw known (ground arith) good
                      ((login_permitted-Permitted_iff o y c.user pw s.globals).0 permitted)
                      (ground arith)))
        ]
      ]
    ]
  ]

  -- Whatever packets the client sends, `do_authentication` ends. If it accepts a login, then the user
  -- is known by a name of at most 255 characters that does not start with -, + or @, the login is
  -- permitted, the server may become that user, and the rules for root are kept. Passwords are on and
  -- the empty one is right, or one of the client's packets lets it in: those before it were
  -- refused, it is of the type of a method that is on, the conditions of the method hold, and what it
  -- says, or the dialog that follows it, has passed the method's check. The login that is returned is
  -- the one this left, with the message of success sent.
  pub do_authentication-Deserved :
      (k : Checks g r) (o : Options) (y : System) (c : Connection) (s : Login g r)
      → Ensures (Deserved k o y c s) (do_authentication k o y c s)
  unfolding do_authentication
  do_authentication-Deserved k o y c s = known (k.getpwnam c.user) refl
    where
      known :
          (found : Option Passwd)
          → k.getpwnam c.user ≡ found
          → Ensures (Deserved k o y c s) (elim found as (λ x. Result (Outcome g r)) [
            | none ↦ ok (closed (fail_loop s.session))
            | some pw ↦ authenticate_user k o y c s pw
          ])
      known none e = returns tt
      known (some pw) e = authenticate_user-Deserved k o y c s pw e
