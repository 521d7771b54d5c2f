-- ===== src/Auth/Keys.antt =====
-- `auth_rsa` of auth-rsa.c: the search of the authorized keys, which fills the interface of the
-- requests. What userfile.c reads, the syntax of a key (auth_rsa_read_key of hostfile.c) and
-- match_hostname are an interface.
pub mod Authorized
pub mod Composed
use mathlib.Core.List.{Mem, mem-cons_self, mem-cons_of_mem}
use ssh_1_history.Prelude.{
  ℕ, zero, suc, ◌+◌, ◌≤◌, ◌<◌, ◌≡◌, ◌∙◌, refl, ap, Bool, true, false, not, ◌&&◌, ◌||◌, List, [],
  ◌∷◌, Option, none, some, Result, ok, err, ◌>>=◌, Ensures, Ensures-bind, Ensures-bind_eq,
  Ensures-mono, returns, fails, length, leb, ◌==◌, if◌then◌else◌, Bool-cases, Option-cases, inl,
  inr, arith,
}
use ssh_1_history.Buffer.Queue.{Queue}
use ssh_1_history.Bufaux.Reads.{Anything}
use ssh_1_history.Bufaux.MpInt.{Gmp}
use ssh_1_history.Auth.{Session, Passwd, Globals}
use ssh_1_history.Auth.KeyOptions.{is_blank, isdigit, process_options}
use ssh_1_history.Auth.KeyOptions.Finished.{process_options-Finished}
use ssh_1_history.Auth.Dialog.{Rsa, challenge_dialog}
use ssh_1_history.Auth.Requests.{Login}

-- The lines of the file of authorized keys, or `none` if it must not or cannot be read.
pub record KeyFiles (g : Gmp) : Type 0 where
  pub key_lines : Passwd → Option (List (List ℕ))
  pub read_key : List ℕ → Option (ℕ × (g.Mpz × g.Mpz))
  pub match_hostname : List ℕ → Bool

pub skip_blanks : List ℕ → List ℕ
skip_blanks [] = []
skip_blanks (c ∷ cs) = elim (is_blank c) [ true ↦ skip_blanks cs | false ↦ c ∷ cs ]

pub is_comment : List ℕ → Bool
is_comment [] = true
is_comment (c ∷ cs) = c == 10 || c == b'#'

-- Blanks in quotes do not end the options, and \" is no quote.
pub skip_options : Bool → List ℕ → List ℕ
skip_options quoted [] = []
skip_options quoted (c ∷ []) = elim (quoted || not (is_blank c)) [ true ↦ [] | false ↦ c ∷ [] ]
skip_options quoted (c ∷ (d ∷ ds)) = elim (quoted || not (is_blank c)) [
  | false ↦ c ∷ (d ∷ ds)
  | true ↦ elim (c == 92 && d == b'"') [
    | true ↦ skip_options quoted ds
    | false ↦ skip_options (if c == b'"' then not quoted else quoted) (d ∷ ds)
  ]
]

-- Where the options are, if there are any, and where the key is.
pub split_line : List ℕ → Option (List ℕ) × List ℕ
unfolding skip_options
split_line [] = (none, [])
split_line (c ∷ cs) =
    if isdigit c then (none, c ∷ cs) else (some (c ∷ cs), skip_options false (c ∷ cs))

pub with_options : (List ℕ → Bool) → Option (List ℕ) → Globals → Result (Bool × Globals)
with_options match_hostname none g = ok (true, g)
with_options match_hostname (some opts) g = process_options match_hostname opts g

module _ {g : Gmp} {r : Rsa g} where
  -- The dialog and then the options, once the key is found.
  pub try_key :
      KeyFiles g
      → List ℕ
      → Option (List ℕ)
      → ℕ
      → (e n : g.Mpz) → Login g r
      → Result (Bool × Login g r)
  unfolding with_options
  try_key f session_id opts bits e n s =
      challenge_dialog g r session_id bits e n (s.generator, s.session) >>= λ a.
      let t = record s { generator = a.1.0; session = a.1.1 } in
      elim a.0 [
        | false ↦ ok (false, t)
        | true ↦ with_options f.match_hostname opts t.globals >>= λ b.
            ok (b.0, record t { globals = b.1 })
      ]

  -- A line that holds the key that the client names, or is not about it.
  pub try_line : KeyFiles g → List ℕ → g.Mpz → List ℕ → Login g r → Result (Bool × Login g r)
  unfolding skip_blanks is_comment split_line try_key
  try_line f session_id client_n line s =
      let cp = skip_blanks line in
      let p = split_line cp in
      elim (is_comment cp) [
        | true ↦ ok (false, s)
        | false ↦ elim (f.read_key p.1) [
          | none ↦ ok (false, s)
          | some (bits, (e, n)) ↦ elim (g.same n client_n) [
            | false ↦ ok (false, s)
            | true ↦ try_key f session_id p.0 bits e n s
          ]
        ]
      ]

  pub try_lines :
      KeyFiles g → List ℕ → g.Mpz → List (List ℕ) → Login g r → Result (Bool × Login g r)
  unfolding try_line
  try_lines f session_id client_n [] s = ok (false, s)
  try_lines f session_id client_n (line ∷ lines) s = try_line f session_id client_n line s >>= λ a.
      elim a.0 [ true ↦ ok (true, a.1) | false ↦ try_lines f session_id client_n lines a.1 ]

  pub auth_rsa : KeyFiles g → List ℕ → Passwd → g.Mpz → Login g r → Result (Bool × Login g r)
  unfolding try_lines
  auth_rsa f session_id pw client_n s = elim (f.key_lines pw) [
    | none ↦ ok (false, s)
    | some lines ↦ try_lines f session_id client_n lines s
  ]
