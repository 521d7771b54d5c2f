-- ===== src/Hostfile.antt =====
-- `match_hostname` of hostfile.c: a host and its address against a list of patterns.
pub mod Patterns
use ssh_1_history.Prelude.{
  ℕ, zero, suc, ◌+◌, Bool, true, false, ◌&&◌, List, [], ◌∷◌, Option, Result, ok, err, out_of_fuel,
  length, leb, ◌==◌,
}
use ssh_1_history.Match.{match_host}

abbrev pub lower : ℕ → ℕ
lower c = elim (leb b'A' c && leb c b'Z') [ true ↦ c + 32 | false ↦ c ]

-- The characters up to a comma, in small letters, and what follows; there is room for `room`.
pub subpattern : ℕ → List ℕ → List ℕ × List ℕ
subpattern zero pattern = ([], pattern)
subpattern (suc room) [] = ([], [])
subpattern (suc room) (c ∷ cs) = elim (c == b',') [
  | true ↦ ([], c ∷ cs)
  | false ↦ let r = subpattern room cs in (lower c ∷ r.0, r.1)
]

pub negation : List ℕ → Bool × List ℕ
negation [] = (false, [])
negation (c ∷ cs) = elim (c == b'!') [ true ↦ (true, cs) | false ↦ (false, c ∷ cs) ]

pub skip_comma : List ℕ → List ℕ
skip_comma [] = []
skip_comma (c ∷ cs) = elim (c == b',') [ true ↦ cs | false ↦ c ∷ cs ]

-- The loop over the subpatterns; `got_positive` tells whether one has matched.
pub match_subpatterns : ℕ → List ℕ → Option (List ℕ) → Bool → List ℕ → Result Bool
unfolding subpattern negation skip_comma
match_subpatterns zero host ip got_positive pattern = err out_of_fuel
match_subpatterns (suc fuel) host ip got_positive [] = ok got_positive
match_subpatterns (suc fuel) host ip got_positive (c ∷ cs) =
    let n = negation (c ∷ cs) in
    let s = subpattern 1023 n.1 in
    elim (leb 1023 (length s.0)) [
      | true ↦ ok false
      | false ↦ elim (match_host host ip s.0) [
        | true ↦ elim n.0 [
          | true ↦ ok false
          | false ↦ match_subpatterns fuel host ip true (skip_comma s.1)
        ]
        | false ↦ match_subpatterns fuel host ip got_positive (skip_comma s.1)
      ]
    ]

-- Each round takes at least a character.
pub match_hostname : List ℕ → Option (List ℕ) → List ℕ → Result Bool
unfolding match_subpatterns
match_hostname host ip pattern = match_subpatterns (suc (length pattern)) host ip false pattern
