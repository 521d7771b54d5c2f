-- ===== src/Match.antt =====
-- match.c: host and user patterns with the wildcards * and ?. A C string is the list of its bytes,
-- without the null that ends it.
pub mod Glob
pub mod Sound
pub mod Complete
pub mod User
use ssh_1_history.Prelude.{
  ℕ, Bool, true, false, not, ◌&&◌, ◌||◌, List, [], ◌∷◌, Option, none, some, leb, ◌==◌,
  if◌then◌else◌,
}

abbrev pub star : ℕ
star = b'*'

abbrev pub quest : ℕ
quest = b'?'

-- `for (; *s; s++) if (*s == q && f (s + 1)) return 1; return 0;`
pub any_after : (List ℕ → Bool) → ℕ → List ℕ → Bool
any_after f q [] = false
any_after f q (c ∷ s) = (c == q && f s) || any_after f q s

-- `for (; *s; s++) if (f (s)) return 1; return 0;`
unfoldable pub any_from : (List ℕ → Bool) → List ℕ → Bool
any_from f [] = false
any_from f (c ∷ s) = f (c ∷ s) || any_from f s

pub is_end : List ℕ → Bool
is_end [] = true
is_end (c ∷ s) = false

-- One round for a pattern byte that is no asterisk; `f` is the rest of the loop.
pub match_one : (List ℕ → Bool) → ℕ → List ℕ → Bool
match_one f p [] = false
match_one f p (c ∷ s) = if not (p == quest) && not (p == c) then false else f s

-- Behind an asterisk, with `q` the next pattern byte; `f` goes on behind `q`, `g` goes on at `q`.
unfoldable pub match_behind_star : (List ℕ → Bool) → (List ℕ → Bool) → ℕ → List ℕ → Bool
match_behind_star f g q s =
    if not (q == quest) && not (q == star) then any_after f q s else any_from g s

unfoldable pub match_pattern : List ℕ → List ℕ → Bool
match_pattern s [] = is_end s
match_pattern s (p ∷ []) = elim (p == star) [
  | true ↦ true
  | false ↦ match_one (λ t. match_pattern t []) p s
]
match_pattern s (p ∷ (q ∷ ps)) = elim (p == star) [
  | true ↦ match_behind_star (λ t. match_pattern t ps) (λ t. match_pattern t (q ∷ ps)) q s
  | false ↦ match_one (λ t. match_pattern t (q ∷ ps)) p s
]

is_digit : ℕ → Bool
is_digit c = leb b'0' c && leb c b'9'

-- The loop of `match_host` over the pattern: every byte may stand in an address with wildcards.
pub all_ip_chars : List ℕ → Bool
unfolding is_digit
all_ip_chars [] = true
all_ip_chars (p ∷ ps) = (is_digit p || p == b'.' || p == quest || p == star) && all_ip_chars ps

pub match_host : List ℕ → Option (List ℕ) → List ℕ → Bool
match_host host none pattern = match_pattern host pattern
match_host host (some ip) pattern =
    if all_ip_chars pattern then match_pattern ip pattern else match_pattern host pattern

join_cut : ℕ → Option (List ℕ × List ℕ) → Option (List ℕ × List ℕ)
join_cut c none = none
join_cut c (some (u, h)) = some (c ∷ u, h)

-- `strchr (pattern, '@')` and the cut there: what stands before and behind the first @.
pub cut_at : List ℕ → Option (List ℕ × List ℕ)
unfolding join_cut
cut_at [] = none
cut_at (c ∷ s) = if c == b'@' then some ([], s) else join_cut c (cut_at s)

match_parts : List ℕ → List ℕ → Option (List ℕ) → List ℕ → Option (List ℕ × List ℕ) → Bool
match_parts user host ip pattern none = match_pattern user pattern
match_parts user host ip pattern (some (u, h)) = match_pattern user u && match_host host ip h

pub match_user : List ℕ → List ℕ → Option (List ℕ) → List ℕ → Bool
unfolding match_parts
match_user user host ip pattern = match_parts user host ip pattern (cut_at pattern)
