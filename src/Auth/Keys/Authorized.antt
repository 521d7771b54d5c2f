-- ===== src/Auth/Keys/Authorized.antt =====
-- The line that a key is accepted by.
use ssh_1_history.Prelude.{
  ℕ, ◌≡◌, ◌∙◌, refl, ap, subst, Bool, true, false, List, [], ◌∷◌, ◌++◌, Option, none, some, Result,
  ok, ◌>>=◌, Ensures, Ensures-bind_eq, Ensures-mono, returns, Bool-cases, Option-cases, inl, inr,
}
use ssh_1_history.Bufaux.Reads.{Anything}
use ssh_1_history.Bufaux.MpInt.{Gmp}
use ssh_1_history.Auth.{Session, Suffix, Suffix_refl, Suffix_trans, Passwd, Globals}
use ssh_1_history.Auth.KeyOptions.Finished.{process_options-Finished}
use ssh_1_history.Auth.Dialog.{Rsa, challenge_dialog}
use ssh_1_history.Auth.Dialog.Left.{challenge_dialog-Suffix}
use ssh_1_history.Auth.Requests.{Login}
use ssh_1_history.Auth.Keys.{
  KeyFiles, skip_blanks, is_comment, split_line, with_options, try_key, try_line, try_lines,
  auth_rsa,
}

with_options-Ensures :
    (m : List ℕ → Bool) (o : Option (List ℕ)) (g : Globals) → Ensures Anything (with_options m o g)
unfolding with_options
with_options-Ensures m none g = returns tt
with_options-Ensures m (some opts) g = process_options-Finished m opts g

module _ {g : Gmp} {r : Rsa g} where
  -- The dialog for a key has succeeded from `s` on, and then its options have let it pass.
  pub record Proved (f : KeyFiles g) (session_id : List ℕ) (opts : Option (List ℕ)) (bits : ℕ)
      (e n : g.Mpz) (s t : Login g r) : Type 0 where
    pub dialog :
        challenge_dialog g r session_id bits e n (s.generator, s.session)
        ≡ ok (true, (t.generator, t.session))
    pub passes : with_options f.match_hostname opts s.globals ≡ ok (true, t.globals)
    pub attempts : t.password_attempts ≡ s.password_attempts

  -- A line with the key that the client names.
  pub record Named (f : KeyFiles g) (session_id : List ℕ) (client_n : g.Mpz) (line : List ℕ)
      (s t : Login g r) : Type 0 where
    pub bits : ℕ
    pub e : g.Mpz
    pub plain : is_comment (skip_blanks line) ≡ false
    pub key : f.read_key (split_line (skip_blanks line)).1 ≡ some (bits, (e, client_n))
    pub proof : Proved f session_id (split_line (skip_blanks line)).0 bits e client_n s t

  -- One of the lines holds it, and the ones before it are gone through in vain.
  abbrev pub Listed : KeyFiles g → List ℕ → g.Mpz → List (List ℕ) → (s t : Login g r) → Type 0
  Listed f session_id client_n lines s t =
      (before : List (List ℕ)) × (line : List ℕ) × (behind : List (List ℕ)) × (u : Login g r)
      × (lines ≡ before ++ (line ∷ behind))
      × (try_lines f session_id client_n before s ≡ ok (false, u))
      × Suffix u.session.incoming s.session.incoming
      × Named f session_id client_n line u t

  -- The file may be read, and one of its lines holds it.
  abbrev pub Authorized : KeyFiles g → List ℕ → Passwd → g.Mpz → (s t : Login g r) → Type 0
  Authorized f session_id pw client_n s t =
      (lines : List (List ℕ)) × (f.key_lines pw ≡ some lines)
      × Listed f session_id client_n lines s t

  abbrev pub Left : (Login g r → Type 0) → Login g r → Bool × Login g r → Type 0
  Left P s (true, t) = Suffix t.session.incoming s.session.incoming × P t
  Left P s (false, t) = Suffix t.session.incoming s.session.incoming

  try_key-Proved :
      (f : KeyFiles g) (session_id : List ℕ) (opts : Option (List ℕ)) (bits : ℕ) (e n : g.Mpz)
      (s : Login g r)
      → Ensures
          (Left (λ t. Proved f session_id opts bits e n s t) s)
          (try_key f session_id opts bits e n s)
  unfolding try_key
  try_key-Proved f session_id opts bits e n s =
      Ensures-bind_eq _ (Left (λ t. Proved f session_id opts bits e n s t) s)
        (challenge_dialog g r session_id bits e n (s.generator, s.session))
        (challenge_dialog-Suffix g r session_id bits e n (s.generator, s.session))
        λ a h eq. cases a.0 a.1 h eq
    where
      cases :
          (b : Bool) (x : r.State × Session)
          → Suffix x.1.incoming s.session.incoming
          → challenge_dialog g r session_id bits e n (s.generator, s.session) ≡ ok (b, x)
          → Ensures
              (Left (λ t. Proved f session_id opts bits e n s t) s)
              (elim b as (λ y. Result (Bool × Login g r)) [
                | false ↦ ok (false, record s { generator = x.0; session = x.1 })
                | true ↦ with_options f.match_hostname opts s.globals >>= λ b.
                    ok (b.0, record s { generator = x.0; session = x.1; globals = b.1 })
              ])
      cases false x h eq = returns h
      cases true x h eq =
          Ensures-bind_eq Anything (Left (λ t. Proved f session_id opts bits e n s t) s)
            (with_options f.match_hostname opts s.globals)
            (with_options-Ensures f.match_hostname opts s.globals)
            λ b _ passed. returns (last b.0 b.1 passed)
        where
          last :
              (c : Bool) (left : Globals)
              → with_options f.match_hostname opts s.globals ≡ ok (c, left)
              → Left
                  (λ t. Proved f session_id opts bits e n s t)
                  s
                  (c, record s { generator = x.0; session = x.1; globals = left })
          last false left passed = h
          last true left passed = (h, record { dialog = eq; passes = passed; attempts = refl })

  try_line-Named :
      (f : KeyFiles g) (session_id : List ℕ) (client_n : g.Mpz) (line : List ℕ) (s : Login g r)
      → Ensures
          (Left (λ t. Named f session_id client_n line s t) s)
          (try_line f session_id client_n line s)
  unfolding try_line
  try_line-Named f session_id client_n line s = elim (Bool-cases (is_comment (skip_blanks line))) [
    | inl comment ↦ rw (try_line, comment) (returns (Suffix_refl s.session.incoming))
    | inr other ↦ elim (Option-cases (f.read_key (split_line (skip_blanks line)).1)) [
      | inl bad ↦ rw (try_line, other, bad) (returns (Suffix_refl s.session.incoming))
      | inr ((bits, (e, n)), key) ↦ elim (Bool-cases (g.same n client_n)) [
        | inr differs ↦
            rw (try_line, other, key, differs) (returns (Suffix_refl s.session.incoming))
        | inl same ↦
            rw (try_line, other, key, same)
              (Ensures-mono
                (try_key-Proved f session_id (split_line (skip_blanks line)).0 bits e n s)
                (named other bits e n key ((g.same_iff n client_n).0 same)))
      ]
    ]
  ]
    where
      named :
          is_comment (skip_blanks line) ≡ false
          → (bits : ℕ) (e n : g.Mpz)
          → f.read_key (split_line (skip_blanks line)).1 ≡ some (bits, (e, n))
          → n ≡ client_n
          → (a : Bool × Login g r)
          → Left (λ t. Proved f session_id (split_line (skip_blanks line)).0 bits e n s t) s a
          → Left (λ t. Named f session_id client_n line s t) s a
      named other bits e n key same (false, t) h = h
      named other bits e n key same (true, t) h = (
        h.0,
        record {
          bits = bits;
          e = e;
          plain = other;
          key = key ∙ ap (λ m. some (bits, (e, m))) same;
          proof =
              subst (λ m. Proved f session_id (split_line (skip_blanks line)).0 bits e m s t) same
                h.1;
        },
      )

  try_lines-Listed :
      (f : KeyFiles g) (session_id : List ℕ) (client_n : g.Mpz) (lines : List (List ℕ))
      (s : Login g r)
      → Ensures
          (Left (λ t. Listed f session_id client_n lines s t) s)
          (try_lines f session_id client_n lines s)
  unfolding try_lines
  try_lines-Listed f session_id client_n [] s = returns (Suffix_refl s.session.incoming)
  try_lines-Listed f session_id client_n (line ∷ lines) s =
      Ensures-bind_eq (Left (λ t. Named f session_id client_n line s t) s)
        (Left (λ t. Listed f session_id client_n (line ∷ lines) s t) s)
        (try_line f session_id client_n line s) (try_line-Named f session_id client_n line s)
        λ a h e. go a h e (try_lines-Listed f session_id client_n lines a.1)
    where
      widen :
          (t : Login g r)
          → Suffix t.session.incoming s.session.incoming
          → try_line f session_id client_n line s ≡ ok (false, t)
          → (b : Bool × Login g r) → Left (λ u. Listed f session_id client_n lines t u) t b
          → Left (λ u. Listed f session_id client_n (line ∷ lines) s u) s b
      widen t h e (false, u) j =
          Suffix_trans u.session.incoming t.session.incoming s.session.incoming j h
      widen t h e (true, u) (j, (before, other, behind, v, eq, in_vain, back, named)) = (
        Suffix_trans u.session.incoming t.session.incoming s.session.incoming j h,
        (
          line ∷ before,
          other,
          behind,
          v,
          ap (λ ls. line ∷ ls) eq,
          rw (try_lines, e) in_vain,
          Suffix_trans v.session.incoming t.session.incoming s.session.incoming back h,
          named,
        ),
      )

      go :
          (a : Bool × Login g r)
          → Left (λ t. Named f session_id client_n line s t) s a
          → try_line f session_id client_n line s ≡ ok a
          → Ensures
              (Left (λ u. Listed f session_id client_n lines a.1 u) a.1)
              (try_lines f session_id client_n lines a.1)
          → Ensures
              (Left (λ t. Listed f session_id client_n (line ∷ lines) s t) s)
              (elim a.0 as (λ x. Result (Bool × Login g r)) [
                | true ↦ ok (true, a.1)
                | false ↦ try_lines f session_id client_n lines a.1
              ])
      go (true, t) h e later =
          returns (h.0, ([], line, lines, s, refl, refl, Suffix_refl s.session.incoming, h.1))
      go (false, t) h e later = Ensures-mono later (widen t h e)

  -- Whatever is in the files and whatever packets come, `auth_rsa` ends, and what it leaves of the
  -- packets is the end of what came. If it accepts, the file of authorized keys may be read and has a
  -- line with a key of the modulus that the client has named; the lines before it were gone through in
  -- vain, in the session that this left the dialog for the key succeeded, with the packets that were
  -- left, and the options of the line let the key pass; and the login that is returned is what this
  -- left.
  pub auth_rsa-Authorized :
      (f : KeyFiles g) (session_id : List ℕ) (pw : Passwd) (client_n : g.Mpz) (s : Login g r)
      → Ensures
          (Left (λ t. Authorized f session_id pw client_n s t) s)
          (auth_rsa f session_id pw client_n s)
  unfolding auth_rsa
  auth_rsa-Authorized f session_id pw client_n s = found (f.key_lines pw) refl
    where
      widen :
          (lines : List (List ℕ))
          → f.key_lines pw ≡ some lines
          → (a : Bool × Login g r) → Left (λ t. Listed f session_id client_n lines s t) s a
          → Left (λ t. Authorized f session_id pw client_n s t) s a
      widen lines e (false, t) h = h
      widen lines e (true, t) h = (h.0, (lines, e, h.1))

      found :
          (file : Option (List (List ℕ)))
          → f.key_lines pw ≡ file
          → Ensures
              (Left (λ t. Authorized f session_id pw client_n s t) s)
              (elim file as (λ x. Result (Bool × Login g r)) [
                | none ↦ ok (false, s)
                | some lines ↦ try_lines f session_id client_n lines s
              ])
      found none e = returns (Suffix_refl s.session.incoming)
      found (some lines) e =
          Ensures-mono (try_lines-Listed f session_id client_n lines s) (widen lines e)
