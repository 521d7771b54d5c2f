-- ===== src/Auth/KeyOptions/Finished.antt =====
-- The loop over the options of a key ends.
use ssh_1_history.Prelude.{
  ℕ, zero, suc, ◌+◌, ◌-◌, ◌*◌, ◌^◌, ◌≤◌, ◌<◌, Bool, true, false, ◌&&◌, List, [], ◌∷◌, Option, none,
  some, Result, ok, ◌>>=◌, Ensures, Ensures-bind, Ensures-if, returns, fails, length, length-drop,
  drop, leb, ◌==◌, if◌then◌else◌, arith,
}
use ssh_1_history.Bufaux.Reads.{Anything}
use ssh_1_history.Auth.{Globals}
use ssh_1_history.Auth.KeyOptions.{
  is_blank, isdigit, unquote, read_number, scale, Progress, next_option, rejected, unterminated,
  idle_option, command_option, environment_option, from_option, one_option, step_over, options_loop,
  process_options, option_compare, codes,
}

-- What follows is no longer.
abbrev Fits : ℕ → Option (List ℕ) → Type 0
Fits n none = Unit
Fits n (some rest) = length rest ≤ n

Fits-suc : (n : ℕ) (o : Option (List ℕ)) → Fits n o → Fits (suc n) o
Fits-suc n none h = tt
Fits-suc n (some rest) h = omega (arith, h)

unquote-Fits : (opts : List ℕ) → Fits (length opts) (unquote opts).1
unfolding unquote
unquote-Fits [] = tt
unquote-Fits (c ∷ []) =
    elim (c == b'"')
      as (λ b.
        Fits 1
          (elim b as (λ x. List ℕ × Option (List ℕ)) [
            | true ↦ ([], some [])
            | false ↦ (c ∷ [], none)
          ]).1) [ true ↦ omega arith | false ↦ tt ]
unquote-Fits (c ∷ (d ∷ ds)) =
    cases (c == b'"') (c == 92 && d == b'"')
      (Fits-suc (suc (length ds)) (unquote ds).1
        (Fits-suc (length ds) (unquote ds).1 (unquote-Fits ds)))
      (Fits-suc (length (d ∷ ds)) (unquote (d ∷ ds)).1 (unquote-Fits (d ∷ ds)))
  where
    cases :
        (quote escaped : Bool)
        → Fits (length (c ∷ (d ∷ ds))) (unquote ds).1
        → Fits (length (c ∷ (d ∷ ds))) (unquote (d ∷ ds)).1
        → Fits
            (length (c ∷ (d ∷ ds)))
            (elim quote as (λ x. List ℕ × Option (List ℕ)) [
              | true ↦ ([], some (d ∷ ds))
              | false ↦ elim escaped as (λ x. List ℕ × Option (List ℕ)) [
                | true ↦ (b'"' ∷ (unquote ds).0, (unquote ds).1)
                | false ↦ (c ∷ (unquote (d ∷ ds)).0, (unquote (d ∷ ds)).1)
              ]
            ]).1
    cases true escaped h j = omega arith
    cases false true h j = h
    cases false false h j = j

read_number-shorter : (v : ℕ) (opts : List ℕ) → length (read_number v opts).1 ≤ length opts
unfolding read_number
read_number-shorter v [] = omega arith
read_number-shorter v (c ∷ cs) = cases (isdigit c) (read_number-shorter (v * 10 + (c - b'0')) cs)
  where
    cases :
        (digit : Bool)
        → length (read_number (v * 10 + (c - b'0')) cs).1 ≤ length cs
        → length
            (elim digit as (λ x. ℕ × List ℕ) [
              | true ↦ read_number (v * 10 + (c - b'0')) cs
              | false ↦ (v, c ∷ cs)
            ]).1
          ≤ length (c ∷ cs)
    cases true h = omega (arith, h)
    cases false h = omega arith

scale-shorter : (v : ℕ) (opts : List ℕ) → length (scale (v, opts)).1 ≤ length opts
unfolding scale
scale-shorter v [] = omega arith
scale-shorter v (c ∷ cs) = ground arith

abbrev Shrinks : ℕ → Progress → Type 0
Shrinks n (next_option rest g) = length rest ≤ n
Shrinks n (rejected g) = Unit
Shrinks n (unterminated g) = Unit

idle_option-Shrinks :
    (n : ℕ) (opts : List ℕ) (g : Globals)
    → length opts ≤ n
    → Ensures (Shrinks n) (idle_option opts g)
unfolding idle_option
idle_option-Shrinks n opts g h =
    let r = read_number 0 opts in
    Ensures-if (leb (2 ^ 31) (scale r).0) (fails (λ e. cc))
      (returns (omega (arith, h, scale-shorter r.0 r.1, read_number-shorter 0 opts)))

Fits-le : (m n : ℕ) (o : Option (List ℕ)) → m ≤ n → Fits m o → Fits n o
Fits-le m n none h k = tt
Fits-le m n (some rest) h k = omega (arith, h, k)

-- The options with a text in quotes.
quoted-Shrinks :
    (f : List ℕ → Bool) (n : ℕ) (opts : List ℕ) (g : Globals)
    → length opts ≤ n
    → Shrinks n (command_option opts g)
      × Shrinks n (environment_option opts g)
      × Shrinks n (from_option f opts g)
unfolding command_option environment_option from_option
quoted-Shrinks f n opts g h =
    cases (unquote opts).0 (unquote opts).1
      (Fits-le (length opts) n (unquote opts).1 h (unquote-Fits opts))
  where
    cases :
        (text : List ℕ) (o : Option (List ℕ))
        → Fits n o
        → Shrinks n (elim o as (λ x. Progress) [
          | none ↦
              unterminated (record g { forced_command = some text; command_terminated = false })
          | some rest ↦
              next_option rest (record g { forced_command = some text; command_terminated = true })
        ])
          × Shrinks n (elim o as (λ x. Progress) [
            | none ↦ unterminated g
            | some rest ↦
                next_option rest (record g { custom_environment = text ∷ g.custom_environment })
          ])
          × Shrinks n (elim o as (λ x. Progress) [
            | none ↦ unterminated g
            | some rest ↦ if f text then next_option rest g else rejected g
          ])
    cases text none h = (tt, tt, tt)
    cases text (some rest) h = (
      h,
      h,
      elim (f text) as (λ b. Shrinks n (if b then next_option rest g else rejected g)) [
        | true ↦ h
        | false ↦ tt
      ],
    )

one_option-Shrinks :
    (f : List ℕ → Bool) (opts : List ℕ) (g : Globals)
    → Ensures (Shrinks (length opts)) (one_option f opts g)
unfolding one_option
one_option-Shrinks f opts g =
    let n : ℕ = length opts in
    let after : (k : ℕ) → length (drop k opts) ≤ length opts =
      λ k. omega (arith, length-drop k opts) in
    let quoted : (k : ℕ)
        → Shrinks n (command_option (drop k opts) g)
          × Shrinks n (environment_option (drop k opts) g)
          × Shrinks n (from_option f (drop k opts) g) =
      λ k. quoted-Shrinks f n (drop k opts) g (after k) in
    Ensures-if (option_compare opts (codes "no-port-forwarding")) (returns (after 18)) (
      Ensures-if (option_compare opts (codes "no-agent-forwarding")) (returns (after 19)) (
        Ensures-if (option_compare opts (codes "no-x11-forwarding")) (returns (after 17)) (
          Ensures-if (option_compare opts (codes "no-pty")) (returns (after 6)) (
            Ensures-if (option_compare opts (codes "idle-timeout="))
              (idle_option-Shrinks n (drop 13 opts) g (after 13))
              (Ensures-if (option_compare opts (codes "command=\"")) (returns (quoted 9).0) (
                Ensures-if (option_compare opts (codes "environment=\"")) (returns (quoted 13).1) (
                  Ensures-if (option_compare opts (codes "from=\"")) (returns (quoted 6).2)
                    (returns tt))))))))

step_over-Anything :
    (n : ℕ) (again : List ℕ → Globals → Result (Bool × Globals)) (p : Progress)
    → Shrinks n p
    → ((opts : List ℕ) (g : Globals) → length opts < n → Ensures Anything (again opts g))
    → Ensures Anything (step_over again p)
unfolding step_over
step_over-Anything n again (rejected g) h k = returns tt
step_over-Anything n again (unterminated g) h k = returns tt
step_over-Anything n again (next_option [] g) h k = fails (λ e. cc)
step_over-Anything n again (next_option (c ∷ cs) g) h k =
    Ensures-if (is_blank c) (returns tt)
      (elim (c == b',')
        as (λ b. Ensures Anything (elim b as (λ x. Result (Bool × Globals)) [
          | true ↦ again cs g
          | false ↦ ok (false, g)
        ])) [ true ↦ k cs g (omega (arith, h)) | false ↦ returns tt ])

options_loop-Anything :
    (fuel : ℕ) (f : List ℕ → Bool) (opts : List ℕ) (g : Globals)
    → length opts < fuel
    → Ensures Anything (options_loop fuel f opts g)
unfolding options_loop
options_loop-Anything zero f opts g h = absurd (omega arith)
options_loop-Anything (suc fuel) f [] g h = returns tt
options_loop-Anything (suc fuel) f (c ∷ cs) g h =
    cases (is_blank c) λ opts g j. options_loop-Anything fuel f opts g (omega (arith, h, j))
  where
    cases :
        (blank : Bool)
        → ((opts : List ℕ) (g : Globals)
            → length opts < length (c ∷ cs)
            → Ensures Anything (options_loop fuel f opts g))
        → Ensures Anything (elim blank as (λ x. Result (Bool × Globals)) [
          | true ↦ ok (true, g)
          | false ↦
              one_option f (c ∷ cs) g >>= λ p. step_over (λ opts h. options_loop fuel f opts h) p
        ])
    cases true again = returns tt
    cases false again =
        Ensures-bind (Shrinks (length (c ∷ cs))) Anything (one_option-Shrinks f (c ∷ cs) g) λ p j.
          step_over-Anything (length (c ∷ cs)) (λ opts h. options_loop fuel f opts h) p j again

-- Whatever stands in front of a key, the loop over its options ends.
pub process_options-Finished :
    (f : List ℕ → Bool) (opts : List ℕ) (g : Globals) → Ensures Anything (process_options f opts g)
unfolding process_options
process_options-Finished f opts g = options_loop-Anything (suc (length opts)) f opts g (omega arith)
