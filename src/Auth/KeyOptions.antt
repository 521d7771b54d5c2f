-- ===== src/Auth/KeyOptions.antt =====
-- The options of an authorized key in auth-rsa.c. `match_hostname` of hostfile.c is a parameter.
pub mod Finished
pub mod Rejected
use ssh_1_history.Prelude.{
  ℕ, zero, suc, ◌+◌, ◌-◌, ◌*◌, ◌^◌, Bool, true, false, not, ◌&&◌, ◌||◌, List, [], ◌∷◌, Option, none,
  some, Result, ok, err, ◌>>=◌, out_of_fuel, undefined_behaviour, internal_bug, length, map, take,
  drop, ltb, leb, ◌==◌, if◌then◌else◌,
}
use Prim.Native.String.{String}
use Prim.Native.Char.{code}
use ssh_1_history.Auth.{Globals}

-- The characters of a string constant.
abbrev pub codes : String → List ℕ
codes String.[] = []
codes (String.◌∷◌ c s) = code c ∷ codes s

abbrev pub tolower : ℕ → ℕ
tolower c = if leb b'A' c && leb c b'Z' then c + 32 else c

abbrev pub isdigit : ℕ → Bool
isdigit c = leb b'0' c && leb c b'9'

abbrev pub is_blank : ℕ → Bool
is_blank c = c == b' ' || c == 9

pub same_string : List ℕ → List ℕ → Bool
same_string [] [] = true
same_string [] (y ∷ ys) = false
same_string (x ∷ xs) [] = false
same_string (x ∷ xs) (y ∷ ys) = x == y && same_string xs ys

pub option_compare : List ℕ → List ℕ → Bool
unfolding same_string
option_compare options_line option_name =
    if ltb (length options_line) (length option_name)
    then false
    else same_string (map (λ c. tolower c) (take (length option_name) options_line)) option_name

-- The characters up to the next quote, in which \" stands for a quote, and what follows the quote.
pub unquote : List ℕ → List ℕ × Option (List ℕ)
unquote [] = ([], none)
unquote (c ∷ []) = elim (c == b'"') [ true ↦ ([], some []) | false ↦ (c ∷ [], none) ]
unquote (c ∷ (d ∷ ds)) = elim (c == b'"') [
  | true ↦ ([], some (d ∷ ds))
  | false ↦ elim (c == 92 && d == b'"') [
    | true ↦ let r = unquote ds in (b'"' ∷ r.0, r.1)
    | false ↦ let r = unquote (d ∷ ds) in (c ∷ r.0, r.1)
  ]
]

pub read_number : ℕ → List ℕ → ℕ × List ℕ
read_number value [] = (value, [])
read_number value (c ∷ cs) = elim (isdigit c) [
  | true ↦ read_number (value * 10 + (c - b'0')) cs
  | false ↦ (value, c ∷ cs)
]

-- The unit behind the number of a timeout.
pub scale : ℕ × List ℕ → ℕ × List ℕ
scale (value, []) = (value, [])
scale (value, c ∷ cs) =
    let u = tolower c in
    if u == b'w'
    then (value * (7 * 24 * 60 * 60), cs)
    else if u == b'd'
    then (value * (24 * 60 * 60), cs)
    else if u == b'h'
    then (value * (60 * 60), cs)
    else if u == b'm'
    then (value * 60, cs)
    else if u == b's'
    then (value, cs)
    else (value, u ∷ cs)

-- What becomes of one option: the next one, a key that is rejected, or a text that has no end quote,
-- behind which the loop finds the end of the line.
pub data Progress : Type 0 where
  next_option : List ℕ → Globals → Progress
  rejected : Globals → Progress
  unterminated : Globals → Progress

-- A `signed int` that overflows is undefined.
pub idle_option : List ℕ → Globals → Result Progress
unfolding read_number scale
idle_option opts g =
    let r = scale (read_number 0 opts) in
    if leb (2 ^ 31) r.0
    then err undefined_behaviour
    else ok (next_option r.1 (record g { idle_timeout = r.0 }))

-- Without an end quote, the command stays without the null at its end.
pub command_option : List ℕ → Globals → Progress
unfolding unquote
command_option opts g =
    let r = unquote opts in
    let forced = record g { forced_command = some r.0; command_terminated = true } in
    elim r.1 [
      | none ↦ unterminated (record forced { command_terminated = false })
      | some rest ↦ next_option rest forced
    ]

pub environment_option : List ℕ → Globals → Progress
unfolding unquote
environment_option opts g =
    let r = unquote opts in
    elim r.1 [
      | none ↦ unterminated g
      | some rest ↦ next_option rest (record g { custom_environment = r.0 ∷ g.custom_environment })
    ]

pub from_option : (List ℕ → Bool) → List ℕ → Globals → Progress
unfolding unquote
from_option match_hostname opts g =
    let r = unquote opts in
    elim r.1 [
      | none ↦ unterminated g
      | some rest ↦ if match_hostname r.0 then next_option rest g else rejected g
    ]

-- One round of the loop over the options, which starts in front of an option.
pub one_option : (List ℕ → Bool) → List ℕ → Globals → Result Progress
unfolding option_compare idle_option command_option environment_option from_option
one_option match_hostname opts g =
    let after : String → List ℕ = λ name. drop (length (codes name)) opts in
    if option_compare opts (codes "no-port-forwarding")
    then ok (next_option (after "no-port-forwarding") (record g { no_port_forwarding = true }))
    else if option_compare opts (codes "no-agent-forwarding")
    then ok (next_option (after "no-agent-forwarding") (record g { no_agent_forwarding = true }))
    else if option_compare opts (codes "no-x11-forwarding")
    then ok (next_option (after "no-x11-forwarding") (record g { no_x11_forwarding = true }))
    else if option_compare opts (codes "no-pty")
    then ok (next_option (after "no-pty") (record g { no_pty = true }))
    else if option_compare opts (codes "idle-timeout=")
    then idle_option (after "idle-timeout=") g
    else if option_compare opts (codes "command=\"")
    then ok (command_option (after "command=\"") g)
    else if option_compare opts (codes "environment=\"")
    then ok (environment_option (after "environment=\"") g)
    else if option_compare opts (codes "from=\"")
    then ok (from_option match_hostname (after "from=\"") g)
    else ok (rejected g)

-- The rest of the round, where the next option starts behind a comma.
pub step_over : (List ℕ → Globals → Result (Bool × Globals)) → Progress → Result (Bool × Globals)
step_over again (rejected g) = ok (false, g)
step_over again (unterminated g) = ok (true, g)
step_over again (next_option [] g) = err internal_bug
step_over again (next_option (c ∷ cs) g) =
    if is_blank c
    then ok (true, g)
    else elim (c == b',') [ true ↦ again cs g | false ↦ ok (false, g) ]

-- The loop: whether the key is still accepted at its end.
pub options_loop : ℕ → (List ℕ → Bool) → List ℕ → Globals → Result (Bool × Globals)
unfolding one_option step_over
options_loop zero match_hostname opts g = err out_of_fuel
options_loop (suc fuel) match_hostname [] g = ok (true, g)
options_loop (suc fuel) match_hostname (c ∷ cs) g = elim (is_blank c) [
  | true ↦ ok (true, g)
  | false ↦ one_option match_hostname (c ∷ cs) g >>= λ p.
      step_over (λ opts h. options_loop fuel match_hostname opts h) p
]

-- Each round takes at least a character.
unfoldable pub process_options : (List ℕ → Bool) → List ℕ → Globals → Result (Bool × Globals)
unfolding options_loop
process_options match_hostname opts g = options_loop (suc (length opts)) match_hostname opts g
