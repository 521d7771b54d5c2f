-- ===== src/Match/User.antt =====
-- `match_user`: a user pattern, or a user pattern and a host pattern joined by an @.
use ssh_1_history.Prelude.{
  ℕ, ◌≡◌, ◌≢◌, ◌↔◌, refl, true, false, List, [], ◌∷◌, ◌++◌, All, Option, none, some, ◌==◌, arith,
  if◌then◌else◌,
}
use ssh_1_history.Match.{all_ip_chars, match_pattern, match_host, cut_at, join_cut, match_user}
use ssh_1_history.Match.Glob.{Glob, NoDoubleStar}
use ssh_1_history.Match.Complete.{match_pattern-Glob_iff}

abbrev pub NoAt : List ℕ → Type 0
NoAt u = All (λ c. c ≢ b'@') u

-- What a host pattern is compared with: the address if it is known and the pattern could be one.
unfoldable pub subject : List ℕ → Option (List ℕ) → List ℕ → List ℕ
subject host none pattern = host
subject host (some ip) pattern = if all_ip_chars pattern then ip else host

match_host-subject :
    (host : List ℕ) (ip : Option (List ℕ)) (pattern : List ℕ)
    → match_host host ip pattern ≡ match_pattern (subject host ip pattern) pattern
unfolding match_host subject
match_host-subject host none pattern = refl
match_host-subject host (some ip) pattern = ground arith

cut_at-first : (u h : List ℕ) → NoAt u → cut_at (u ++ (b'@' ∷ h)) ≡ some (u, h)
unfolding cut_at join_cut
cut_at-first [] h n = refl
cut_at-first (c ∷ u) h n =
    let other : (c == b'@') ≡ false = ground arith in rw (other, cut_at-first u h n.1)

cut_at-none : (u : List ℕ) → NoAt u → cut_at u ≡ none
unfolding cut_at join_cut
cut_at-none [] n = refl
cut_at-none (c ∷ u) n =
    let other : (c == b'@') ≡ false = ground arith in rw (other, cut_at-none u n.1)

-- A pattern `u@h`, split at its first @, with no two asterisks in a row in either part, admits a
-- user exactly when the user's name is in `u` and the host is in `h`; the host counts by its
-- address if that is known and `h` holds only digits, dots and wildcards, and by its name otherwise.
pub match_user-at_iff :
    (user host : List ℕ) (ip : Option (List ℕ)) (u h : List ℕ)
    → NoAt u
    → NoDoubleStar u
    → NoDoubleStar h
    → (match_user user host ip (u ++ (b'@' ∷ h)) ≡ true)
      ↔ (Glob user u × Glob (subject host ip h) h)
unfolding match_user
match_user-at_iff user host ip u h n du dh =
    rw (cut_at-first u h n, match_host-subject host ip h)
      (
        λ e. (
          (match_pattern-Glob_iff user u du).0 (ground arith),
          (match_pattern-Glob_iff (subject host ip h) h dh).0 (ground arith),
        ),
        λ g.
            let a : match_pattern user u ≡ true = (match_pattern-Glob_iff user u du).1 g.0 in
            let b : match_pattern (subject host ip h) h ≡ true =
              (match_pattern-Glob_iff (subject host ip h) h dh).1 g.1 in
            rw (a, b),
      )

-- A pattern with no @ and no two asterisks in a row admits a user exactly when the user's name is in
-- what it stands for, whatever the host.
pub match_user-plain :
    (user host : List ℕ) (ip : Option (List ℕ)) (u : List ℕ)
    → NoAt u
    → NoDoubleStar u
    → (match_user user host ip u ≡ true) ↔ Glob user u
unfolding match_user
match_user-plain user host ip u n du = rw (cut_at-none u n) (match_pattern-Glob_iff user u du)
