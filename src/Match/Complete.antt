-- ===== src/Match/Complete.antt =====
-- What a pattern stands for is accepted, unless one asterisk directly follows another.
use ssh_1_history.Prelude.{
  ℕ, ◌≡◌, ◌≢◌, ◌⊎◌, ◌↔◌, inl, inr, refl, Bool, true, false, not, ◌&&◌, List, [], ◌∷◌, ◌++◌, ◌==◌,
  arith, Bool-cases,
}
use ssh_1_history.Match.{
  star, quest, any_after, any_from, is_end, match_one, match_behind_star, match_pattern,
}
use ssh_1_history.Match.Glob.{Glob, NoDoubleStar}
use ssh_1_history.Match.Sound.{match_pattern_sound}

any_after_complete :
    (f : List ℕ → Bool) (q : ℕ) (pre t : List ℕ)
    → f t ≡ true
    → any_after f q (pre ++ (q ∷ t)) ≡ true
unfolding any_after
any_after_complete f q [] t h = ground arith
any_after_complete f q (c ∷ pre) t h = ground (arith, any_after_complete f q pre t h)

any_from_complete :
    (f : List ℕ → Bool) (pre : List ℕ) (c : ℕ) (t : List ℕ)
    → f (c ∷ t) ≡ true
    → any_from f (pre ++ (c ∷ t)) ≡ true
unfolding any_from
any_from_complete f [] c t h = ground arith
any_from_complete f (d ∷ pre) c t h = ground (arith, any_from_complete f pre c t h)

-- Behind an asterisk the next pattern byte is no asterisk, so some byte is left for it.
match_behind_star_complete :
    (f g : List ℕ → Bool) (q : ℕ) (ps pre t : List ℕ)
    → ((t : List ℕ) → Glob t ps → f t ≡ true)
    → ((t : List ℕ) → Glob t (q ∷ ps) → g t ≡ true)
    → q ≢ star
    → Glob t (q ∷ ps)
    → match_behind_star f g q (pre ++ t) ≡ true
unfolding match_behind_star
match_behind_star_complete f g q ps pre t hf hg lone (inl (is, rest)) = absurd (lone is)
match_behind_star_complete f g q ps pre t hf hg lone (inr (isnt, (c, r, at, inl any, h))) =
    let wild : (not (q == quest) && not (q == star)) ≡ false = ground arith in
    let accepted : g (c ∷ r) ≡ true = hg (c ∷ r) (inr (isnt, (c, r, refl, inl any, h))) in
    rw (wild, at) (any_from_complete g pre c r accepted)
match_behind_star_complete f g q ps pre t hf hg lone (inr (isnt, (c, r, at, inr same, h))) =
    elim (Bool-cases (q == quest)) [
      | inl any ↦
          let wild : (not (q == quest) && not (q == star)) ≡ false = ground arith in
          let accepted : g (c ∷ r) ≡ true = hg (c ∷ r) (inr (isnt, (c, r, refl, inr same, h))) in
          rw (wild, at) (any_from_complete g pre c r accepted)
      | inr known ↦
          let lit : (not (q == quest) && not (q == star)) ≡ true = ground arith in
          rw (lit, at, ← same) (any_after_complete f q pre r (hf r h))
    ]

match_one_complete :
    (f : List ℕ → Bool) (p c : ℕ) (t : List ℕ)
    → (p ≡ quest) ⊎ (p ≡ c)
    → f t ≡ true
    → match_one f p (c ∷ t) ≡ true
unfolding match_one
match_one_complete f p c t which h = ground arith

tail_ok : (q : ℕ) (ps : List ℕ) → NoDoubleStar (q ∷ ps) → NoDoubleStar ps
tail_ok q [] n = tt
tail_ok q (r ∷ ps) n = n.1

match_pattern_complete :
    (s pattern : List ℕ) → NoDoubleStar pattern → Glob s pattern → match_pattern s pattern ≡ true
unfolding match_pattern is_end
match_pattern_complete s [] n g = rw g
match_pattern_complete s (p ∷ []) n (inl (is, rest)) =
    let yes_star : (p == star) ≡ true = ground arith in rw (yes_star, match_pattern)
match_pattern_complete s (p ∷ []) n (inr (isnt, (c, t, at, which, h))) =
    let no_star : (p == star) ≡ false = ground arith in
    rw (no_star, match_pattern, at)
      (match_one_complete (λ t. match_pattern t []) p c t which (match_pattern_complete t [] tt h))
match_pattern_complete s (p ∷ (q ∷ ps)) n (inl (is, (pre, t, at, h))) =
    let yes_star : (p == star) ≡ true = ground arith in
    rw (yes_star, match_pattern, at)
      (match_behind_star_complete (λ t. match_pattern t ps) (λ t. match_pattern t (q ∷ ps)) q ps pre
        t (λ r k. match_pattern_complete r ps (tail_ok q ps n.1) k)
        (λ r k. match_pattern_complete r (q ∷ ps) n.1 k) (n.0 is) h)
match_pattern_complete s (p ∷ (q ∷ ps)) n (inr (isnt, (c, t, at, which, h))) =
    let no_star : (p == star) ≡ false = ground arith in
    rw (no_star, match_pattern, at)
      (match_one_complete (λ t. match_pattern t (q ∷ ps)) p c t which
        (match_pattern_complete t (q ∷ ps) n.1 h))

-- For a pattern with no two asterisks in a row, `match_pattern` accepts exactly the strings that
-- the pattern stands for.
pub match_pattern-Glob_iff :
    (s pattern : List ℕ) → NoDoubleStar pattern → (match_pattern s pattern ≡ true) ↔ Glob s pattern
match_pattern-Glob_iff s pattern n =
    (match_pattern_sound s pattern, match_pattern_complete s pattern n)
