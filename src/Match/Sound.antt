-- ===== src/Match/Sound.antt =====
-- `match_pattern` accepts only what the pattern stands for.
use ssh_1_history.Prelude.{
  ℕ, ◌≡◌, ◌⊎◌, inl, inr, refl, sym, ap, Bool, true, not, ◌&&◌, List, [], ◌∷◌, ◌++◌, ◌==◌, arith,
  Bool-cases, append-nil,
}
use ssh_1_history.Match.{
  star, quest, any_after, any_from, is_end, match_one, match_behind_star, match_pattern,
}
use ssh_1_history.Match.Glob.{Glob}

any_after_sound :
    (f : List ℕ → Bool) (q : ℕ) (s : List ℕ)
    → any_after f q s ≡ true
    → (pre : List ℕ) × (t : List ℕ) × (s ≡ pre ++ (q ∷ t)) × (f t ≡ true)
unfolding any_after
any_after_sound f q [] e = cc
any_after_sound f q (c ∷ s) e = elim (Bool-cases (c == q && f s)) [
  | inl here ↦ ([], s, ground arith, ground arith)
  | inr later ↦
      let (pre, t, at, h) = any_after_sound f q s (ground arith) in
      (c ∷ pre, t, ap (λ r. c ∷ r) at, h)
]

any_from_sound :
    (f : List ℕ → Bool) (s : List ℕ)
    → any_from f s ≡ true
    → (pre : List ℕ) × (t : List ℕ) × (s ≡ pre ++ t) × (f t ≡ true)
unfolding any_from
any_from_sound f [] e = cc
any_from_sound f (c ∷ s) e = elim (Bool-cases (f (c ∷ s))) [
  | inl here ↦ ([], c ∷ s, refl, here)
  | inr later ↦
      let (pre, t, at, h) = any_from_sound f s (ground arith) in (c ∷ pre, t, ap (λ r. c ∷ r) at, h)
]

match_one_sound :
    (f : List ℕ → Bool) (p : ℕ) (s : List ℕ)
    → match_one f p s ≡ true
    → (c : ℕ) × (t : List ℕ) × (s ≡ c ∷ t) × ((p ≡ quest) ⊎ (p ≡ c)) × (f t ≡ true)
unfolding match_one
match_one_sound f p [] e = cc
match_one_sound f p (c ∷ s) e = (c, s, refl, which, ground arith)
  where
    which : (p ≡ quest) ⊎ (p ≡ c)
    which = elim (Bool-cases (p == quest)) [
      | inl any ↦ inl (ground arith)
      | inr lit ↦ inr (ground arith)
    ]

is_end_sound : (s : List ℕ) → is_end s ≡ true → s ≡ []
unfolding is_end
is_end_sound [] e = refl
is_end_sound (c ∷ s) e = cc

match_behind_star_sound :
    (f g : List ℕ → Bool) (q : ℕ) (ps s : List ℕ)
    → ((t : List ℕ) → f t ≡ true → Glob t ps)
    → ((t : List ℕ) → g t ≡ true → Glob t (q ∷ ps))
    → match_behind_star f g q s ≡ true
    → (pre : List ℕ) × (t : List ℕ) × (s ≡ pre ++ t) × Glob t (q ∷ ps)
unfolding match_behind_star
match_behind_star_sound f g q ps s hf hg e =
    elim (Bool-cases (not (q == quest) && not (q == star))) [
      | inl known ↦
          let (pre, t, at, h) = any_after_sound f q s (rw (known, match_behind_star) at e) in
          (pre, q ∷ t, at, inr (ground arith, (q, t, refl, inr refl, hf t h)))
      | inr wild ↦
          let (pre, t, at, h) = any_from_sound g s (rw (wild, match_behind_star) at e) in
          (pre, t, at, hg t h)
    ]

-- Whatever `match_pattern` accepts, the pattern stands for, double asterisks included.
pub match_pattern_sound : (s pattern : List ℕ) → match_pattern s pattern ≡ true → Glob s pattern
unfolding match_pattern
match_pattern_sound s [] e = is_end_sound s e
match_pattern_sound s (p ∷ []) e = elim (Bool-cases (p == star)) [
  | inl is ↦ inl (ground arith, (s, [], sym (append-nil s), refl))
  | inr isnt ↦
      let (c, t, at, which, h) =
        match_one_sound (λ t. match_pattern t []) p s (rw (isnt, match_pattern) at e) in
      inr (ground arith, (c, t, at, which, match_pattern_sound t [] h))
]
match_pattern_sound s (p ∷ (q ∷ ps)) e = elim (Bool-cases (p == star)) [
  | inl is ↦ inl (
    ground arith,
    match_behind_star_sound (λ t. match_pattern t ps) (λ t. match_pattern t (q ∷ ps)) q ps s
        (λ t h. match_pattern_sound t ps h) (λ t h. match_pattern_sound t (q ∷ ps) h)
        (rw (is, match_pattern) at e),
  )
  | inr isnt ↦
      let (c, t, at, which, h) =
        match_one_sound (λ t. match_pattern t (q ∷ ps)) p s (rw (isnt, match_pattern) at e) in
      inr (ground arith, (c, t, at, which, match_pattern_sound t (q ∷ ps) h))
]
