-- ===== src/Auth/KeyOptions/Rejected.antt =====
-- What a key whose hosts do not match leaves behind.
use ssh_1_history.Prelude.{
  ap, ℕ, ◌≡◌, ◌≢◌, refl, Bool, true, false, ◌&&◌, List, [], ◌∷◌, ◌++◌, some, ok, length,
  length-append, All, map, take-append, ltb, ◌==◌, if◌then◌else◌, Bool-cases, inl, inr, arith,
}
use ssh_1_history.Auth.{Globals}
use ssh_1_history.Auth.KeyOptions.{
  tolower, unquote, next_option, rejected, command_option, from_option, same_string, one_option,
  step_over, options_loop, process_options, option_compare, codes,
}

-- A text without quotes, and without backslashes.
abbrev pub Plain : List ℕ → Type 0
Plain = All (λ c. (c ≢ b'"') × (c ≢ 92))

unquote-Plain :
    (text rest : List ℕ) → Plain text → unquote (text ++ (b'"' ∷ rest)) ≡ (text, some rest)
unfolding unquote
unquote-Plain [] [] p = refl
unquote-Plain [] (d ∷ ds) p = refl
unquote-Plain (c ∷ []) rest p =
    let a : (c == b'"') ≡ false = ground arith in
    let b : (c == 92 && b'"' == b'"') ≡ false = ground arith in
    let later : unquote (b'"' ∷ rest) ≡ ([], some rest) = unquote-Plain [] rest tt in
    rw (unquote, a, b, later) refl
unquote-Plain (c ∷ (d ∷ ds)) rest p =
    let a : (c == b'"') ≡ false = ground arith in
    let b : (c == 92 && d == b'"') ≡ false = ground arith in
    rw (unquote, a, b, unquote-Plain (d ∷ ds) rest p.1) refl

same_string_refl : (xs : List ℕ) → same_string xs xs ≡ true
unfolding same_string
same_string_refl [] = refl
same_string_refl (x ∷ xs) =
    let same : (x == x) ≡ true = ground arith in rw (same, same_string_refl xs) refl

-- An option's name in front, in small letters.
option_compare-front :
    (name rest : List ℕ)
    → map (λ c. tolower c) name ≡ name
    → option_compare (name ++ rest) name ≡ true
unfolding option_compare
option_compare-front name rest small =
    let enough : ltb (length (name ++ rest)) (length name) ≡ false =
      ground (arith, length-append name rest) in
    rw (enough, take-append (length name) name rest refl, small) (same_string_refl name)

option_compare-other :
    (c d : ℕ) (cs ds : List ℕ) → (tolower c == d) ≡ false → option_compare (c ∷ cs) (d ∷ ds) ≡ false
unfolding option_compare same_string
option_compare-other c d cs ds differs =
    elim (Bool-cases (ltb (length (c ∷ cs)) (length (d ∷ ds)))) [
      | inl short ↦ rw short refl
      | inr long ↦ rw (long, differs) refl
    ]

command_option-Plain :
    (f : List ℕ → Bool) (text rest : List ℕ) (g : Globals)
    → Plain text
    → one_option f (codes "command=\"" ++ (text ++ (b'"' ∷ rest))) g
      ≡ ok (next_option rest (record g { forced_command = some text; command_terminated = true }))
unfolding one_option command_option
command_option-Plain f text rest g p =
    let cs : List ℕ = text ++ (b'"' ∷ rest) in
    let other : (d : ℕ) (ds : List ℕ)
        → (b'c' == d) ≡ false
        → option_compare (codes "command=\"" ++ cs) (d ∷ ds) ≡ false =
      λ d ds e. option_compare-other b'c' d (codes "ommand=\"" ++ cs) ds e in
    rw
      (
        other b'n' (codes "o-port-forwarding") refl,
        other b'n' (codes "o-agent-forwarding") refl,
        other b'n' (codes "o-x11-forwarding") refl,
        other b'n' (codes "o-pty") refl,
        other b'i' (codes "dle-timeout=") refl,
        option_compare-front (codes "command=\"") cs refl,
        command_option,
        unquote-Plain text rest p,
      )
      (ap
        (λ r.
          ok (next_option rest (record g { forced_command = some r.0; command_terminated = true })))
        (unquote-Plain text rest p))

from_option-Plain :
    (f : List ℕ → Bool) (text rest : List ℕ) (g : Globals)
    → Plain text
    → one_option f (codes "from=\"" ++ (text ++ (b'"' ∷ rest))) g
      ≡ ok (if f text then next_option rest g else rejected g)
unfolding one_option from_option
from_option-Plain f text rest g p =
    let cs : List ℕ = text ++ (b'"' ∷ rest) in
    let other : (d : ℕ) (ds : List ℕ)
        → (b'f' == d) ≡ false
        → option_compare (codes "from=\"" ++ cs) (d ∷ ds) ≡ false =
      λ d ds e. option_compare-other b'f' d (codes "rom=\"" ++ cs) ds e in
    rw
      (
        other b'n' (codes "o-port-forwarding") refl,
        other b'n' (codes "o-agent-forwarding") refl,
        other b'n' (codes "o-x11-forwarding") refl,
        other b'n' (codes "o-pty") refl,
        other b'i' (codes "dle-timeout=") refl,
        other b'c' (codes "ommand=\"") refl,
        option_compare-front (codes "from=\"") cs refl,
        from_option,
        unquote-Plain text rest p,
      )
      (ap (λ r. ok (if f r.0 then next_option rest g else rejected g)) (unquote-Plain text rest p))

-- The options are a command and then hosts that do not match the client's: the key is rejected, but
-- the command stays the forced command of the session.
pub process_options-rejected :
    (f : List ℕ → Bool) (command patterns rest : List ℕ) (g : Globals)
    → Plain command
    → Plain patterns
    → f patterns ≡ false
    → process_options f
        (codes "command=\""
          ++ (command ++ (b'"' ∷ (b',' ∷ (codes "from=\"" ++ (patterns ++ (b'"' ∷ rest)))))))
        g
      ≡ ok (false, record g { forced_command = some command; command_terminated = true })
unfolding process_options options_loop step_over
process_options-rejected f command patterns rest g pc pp differs =
    rw
      (
        command_option-Plain f command (b',' ∷ (codes "from=\"" ++ (patterns ++ (b'"' ∷ rest)))) g
            pc,
        from_option-Plain f patterns rest
            (record g { forced_command = some command; command_terminated = true }) pp,
        differs,
      )
      refl
