-- ===== src/Hostfile/Patterns.antt =====
-- What a list of patterns for hosts means.
use ssh_1_history.Prelude.{
  append-nil, ℕ, zero, suc, ◌≤◌, ◌<◌, ◌≡◌, ◌≢◌, ◌∙◌, refl, sym, ap, Bool, true, false, not, ◌&&◌,
  ◌||◌, List, [], ◌∷◌, ◌++◌, map, Option, Result, ok, length, length-append, length-map, All, leb,
  ◌==◌, arith,
}
use ssh_1_history.Match.{match_host}
use ssh_1_history.Hostfile.{
  lower, subpattern, negation, skip_comma, match_subpatterns, match_hostname,
}

-- A pattern, with an exclamation mark in front if it excludes.
pub record Entry : Type 0 where
  pub negated : Bool
  pub first : ℕ
  pub others : List ℕ

abbrev pub text : Entry → List ℕ
text x = x.first ∷ x.others

abbrev pub marked : Entry → List ℕ
marked x = elim x.negated [ true ↦ b'!' ∷ text x | false ↦ text x ]

-- The entries with commas between them.
abbrev pub joined : List Entry → List ℕ
joined [] = []
joined (x ∷ []) = marked x
joined (x ∷ (y ∷ ys)) = marked x ++ (b',' ∷ joined (y ∷ ys))

pub record Fits (x : Entry) : Type 0 where
  pub no_mark : x.first ≢ b'!'
  pub no_comma : All (λ c. c ≢ b',') (text x)
  pub short : length (text x) < 1023

abbrev pub matches : List ℕ → Option (List ℕ) → Entry → Bool
matches host ip x = match_host host ip (map (λ c. lower c) (text x))

-- Some entry that does not exclude matches, and none that excludes does.
abbrev pub some_match : List ℕ → Option (List ℕ) → List Entry → Bool
some_match host ip [] = false
some_match host ip (x ∷ xs) = (not x.negated && matches host ip x) || some_match host ip xs

abbrev pub some_excluded : List ℕ → Option (List ℕ) → List Entry → Bool
some_excluded host ip [] = false
some_excluded host ip (x ∷ xs) = (x.negated && matches host ip x) || some_excluded host ip xs

-- What stands behind an entry: nothing, or a comma and more.
data Behind : List ℕ → Type 0 where
  nothing : Behind []
  comma : (rest : List ℕ) → Behind (b',' ∷ rest)

subpattern-text :
    (room : ℕ) (xs rest : List ℕ)
    → All (λ c. c ≢ b',') xs
    → length xs < room
    → Behind rest
    → subpattern room (xs ++ rest) ≡ (map (λ c. lower c) xs, rest)
unfolding subpattern
subpattern-text zero xs rest p h b = absurd (omega arith)
subpattern-text (suc room) [] [] p h b = refl
subpattern-text (suc room) [] (c ∷ cs) p h (comma ds) = refl
subpattern-text (suc room) (x ∷ xs) rest p h b =
    let plain : (x == b',') ≡ false = ground arith in
    rw (subpattern, plain, subpattern-text room xs rest p.1 (omega (arith, h)) b) refl

negation-mark : (rest : List ℕ) → negation (b'!' ∷ rest) ≡ (true, rest)
unfolding negation
negation-mark rest = refl

negation-other : (c : ℕ) (rest : List ℕ) → c ≢ b'!' → negation (c ∷ rest) ≡ (false, c ∷ rest)
unfolding negation
negation-other c rest h =
    let plain : (c == b'!') ≡ false = ground arith in rw (negation, plain) refl

-- What a round does at an entry with the mark `b`.
abbrev round : ℕ → List ℕ → Option (List ℕ) → Bool → (b matching : Bool) → List ℕ → Result Bool
round fuel host ip got b true rest = elim b [
  | true ↦ ok false
  | false ↦ match_subpatterns fuel host ip true (skip_comma rest)
]
round fuel host ip got b false rest = match_subpatterns fuel host ip got (skip_comma rest)

-- A round from the subpattern on, and from the negation on.
abbrev from_subpattern : ℕ → List ℕ → Option (List ℕ) → Bool → Bool → List ℕ × List ℕ → Result Bool
from_subpattern fuel host ip got n s = elim (leb 1023 (length s.0)) as (λ t. Result Bool) [
  | true ↦ ok false
  | false ↦ elim (match_host host ip s.0) as (λ t. Result Bool) [
    | true ↦ elim n as (λ t. Result Bool) [
      | true ↦ ok false
      | false ↦ match_subpatterns fuel host ip true (skip_comma s.1)
    ]
    | false ↦ match_subpatterns fuel host ip got (skip_comma s.1)
  ]
]

abbrev from_negation : ℕ → List ℕ → Option (List ℕ) → Bool → Bool × List ℕ → Result Bool
from_negation fuel host ip got n = from_subpattern fuel host ip got n.0 (subpattern 1023 n.1)

and-false : (b : Bool) → false ≡ (b && false)
and-false true = refl
and-false false = refl

or-true : (b : Bool) → true ≡ (b || true)
or-true true = refl
or-true false = refl

marked_size : (x : Entry) → 1 ≤ length (marked x)
marked_size x = go x.negated
  where
    go : (n : Bool) → 1 ≤ length (elim n as (λ t. List ℕ) [ true ↦ b'!' ∷ text x | false ↦ text x ])
    go true = omega arith
    go false = omega arith

match_subpatterns-marked :
    (fuel : ℕ) (host : List ℕ) (ip : Option (List ℕ)) (got : Bool) (x : Entry) (rest : List ℕ)
    → Fits x
    → Behind rest
    → match_subpatterns (suc fuel) host ip got (marked x ++ rest)
      ≡ round fuel host ip got x.negated (matches host ip x) rest
unfolding match_subpatterns
match_subpatterns-marked fuel host ip got x rest f b = go x.negated
  where
    sub : subpattern 1023 (text x ++ rest) ≡ (map (λ c. lower c) (text x), rest)
    sub = subpattern-text 1023 (text x) rest f.no_comma f.short b

    short : leb 1023 (length (map (λ c. lower c) (text x))) ≡ false
    short = ground (arith, f.short, length-map (λ c. lower c) (text x))

    last :
        (m n : Bool)
        → elim m as (λ t. Result Bool) [
          | true ↦ elim n as (λ t. Result Bool) [
            | true ↦ ok false
            | false ↦ match_subpatterns fuel host ip true (skip_comma rest)
          ]
          | false ↦ match_subpatterns fuel host ip got (skip_comma rest)
        ]
          ≡ round fuel host ip got n m rest
    last true true = refl
    last true false = refl
    last false n = refl

    entry :
        (n : Bool)
        → from_negation fuel host ip got (n, text x ++ rest)
          ≡ round fuel host ip got n (matches host ip x) rest
    entry n =
        ap (from_subpattern fuel host ip got n) sub
        ∙ ap
            (λ b. elim b as (λ t. Result Bool) [
              | true ↦ ok false
              | false ↦ elim (matches host ip x) as (λ t. Result Bool) [
                | true ↦ elim n as (λ t. Result Bool) [
                  | true ↦ ok false
                  | false ↦ match_subpatterns fuel host ip true (skip_comma rest)
                ]
                | false ↦ match_subpatterns fuel host ip got (skip_comma rest)
              ]
            ])
            short
        ∙ last (matches host ip x) n

    go :
        (n : Bool)
        → match_subpatterns
            (suc fuel)
            host
            ip
            got
            ((elim n as (λ t. List ℕ) [ true ↦ b'!' ∷ text x | false ↦ text x ]) ++ rest)
          ≡ round fuel host ip got n (matches host ip x) rest
    go true = ap (from_negation fuel host ip got) (negation-mark (text x ++ rest)) ∙ entry true
    go false =
        ap (from_negation fuel host ip got) (negation-other x.first (x.others ++ rest) f.no_mark)
        ∙ entry false

-- The round, once the rest of the loop is known.
decide :
    (fuel : ℕ) (host : List ℕ) (ip : Option (List ℕ)) (got n m : Bool) (rest : List ℕ)
    (xs : List Entry)
    → ((b : Bool)
        → match_subpatterns fuel host ip b (skip_comma rest)
          ≡ ok ((b || some_match host ip xs) && not (some_excluded host ip xs)))
    → round fuel host ip got n m rest
      ≡ ok (
          (got || ((not n && m) || some_match host ip xs))
          && not ((n && m) || some_excluded host ip xs))
decide fuel host ip got true true rest xs later = ap ok (and-false (got || some_match host ip xs))
decide fuel host ip got false true rest xs later =
    later true ∙ ap (λ b. ok (b && not (some_excluded host ip xs))) (or-true got)
decide fuel host ip got true false rest xs later = later got
decide fuel host ip got false false rest xs later = later got

match_subpatterns-joined :
    (fuel : ℕ) (host : List ℕ) (ip : Option (List ℕ)) (got : Bool) (xs : List Entry)
    → All Fits xs
    → length (joined xs) < fuel
    → match_subpatterns fuel host ip got (joined xs)
      ≡ ok ((got || some_match host ip xs) && not (some_excluded host ip xs))
unfolding skip_comma
match_subpatterns-joined zero host ip got xs f h = absurd (omega arith)
match_subpatterns-joined (suc fuel) host ip got [] f h = unfold match_subpatterns in go got
  where
    go : (b : Bool) → ok b ≡ ok ((b || false) && not false)
    go true = refl
    go false = refl
match_subpatterns-joined (suc fuel) host ip got (x ∷ []) f h =
    ap (match_subpatterns (suc fuel) host ip got) (sym (append-nil (marked x)))
    ∙ match_subpatterns-marked fuel host ip got x [] f.0 nothing
    ∙ decide fuel host ip got x.negated (matches host ip x) [] []
        (λ b. match_subpatterns-joined fuel host ip b [] tt (omega (arith, h, marked_size x)))
match_subpatterns-joined (suc fuel) host ip got (x ∷ (y ∷ ys)) f h =
    match_subpatterns-marked fuel host ip got x (b',' ∷ joined (y ∷ ys)) f.0
      (comma (joined (y ∷ ys)))
    ∙ decide fuel host ip got x.negated (matches host ip x) (b',' ∷ joined (y ∷ ys)) (y ∷ ys) (λ b.
      match_subpatterns-joined fuel host ip b (y ∷ ys) f.1
        (omega (arith, h, marked_size x, length-append (marked x) (b',' ∷ joined (y ∷ ys)))))

-- A list of patterns that is written out with commas between them, each with an exclamation mark in
-- front if it excludes, with no comma inside, none that starts with an exclamation mark of its own,
-- and each shorter than 1023 characters, admits a host exactly if one that does not exclude matches,
-- in small letters, and none that excludes does.
pub match_hostname-joined :
    (host : List ℕ) (ip : Option (List ℕ)) (xs : List Entry)
    → All Fits xs
    → match_hostname host ip (joined xs)
      ≡ ok (some_match host ip xs && not (some_excluded host ip xs))
unfolding match_hostname
match_hostname-joined host ip xs f =
    match_subpatterns-joined (suc (length (joined xs))) host ip false xs f (omega arith)
