-- ===== src/Match/Glob.antt =====
-- What a pattern means, apart from match.c.
use ssh_1_history.Prelude.{ℕ, ◌≡◌, ◌≢◌, ◌⊎◌, List, [], ◌∷◌, ◌++◌}
use ssh_1_history.Match.{star, quest}

-- `*` stands for any sequence of bytes, `?` for any one byte, any other byte for itself.
abbrev pub Glob : List ℕ → List ℕ → Type 0
Glob s [] = s ≡ []
Glob s (p ∷ ps) =
    ((p ≡ star) × ((pre : List ℕ) × (t : List ℕ) × (s ≡ pre ++ t) × Glob t ps))
    ⊎ ((p ≢ star) × ((c : ℕ) × (t : List ℕ) × (s ≡ c ∷ t) × ((p ≡ quest) ⊎ (p ≡ c)) × Glob t ps))

-- No asterisk directly behind another.
abbrev pub NoDoubleStar : List ℕ → Type 0
NoDoubleStar [] = Unit
NoDoubleStar (p ∷ []) = Unit
NoDoubleStar (p ∷ (q ∷ ps)) = (p ≡ star → q ≢ star) × NoDoubleStar (q ∷ ps)
