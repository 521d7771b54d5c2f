-- ===== src/Auth/Dialog.antt =====
-- `auth_rsa_challenge_dialog` of auth-rsa.c, and its counterpart in the agent. rsa.c, mpaux.c and
-- md5.c are an interface.
pub mod Agreement
pub mod Left
use ssh_1_history.Prelude.{
  ℕ, zero, suc, ◌≡◌, Bool, true, false, ◌&&◌, List, [], ◌∷◌, ◌++◌, Option, none, some,
  cannot_encrypt, Result, ok, err, ◌>>=◌, ◌==◌,
}
use ssh_1_history.Buffer.Queue.{Queue}
use ssh_1_history.Bufaux.MpInt.{Gmp, put_mp_int}
use ssh_1_history.Agent.Client.{get_chars}
use ssh_1_history.Auth.{Session, send, read_expect}
use ssh_1_history.Auth.Code

-- `random_integer` is rsa_random_integer of 256 bits, `State` the state of the generator. A modulus of
-- zero ends the program in mpz_mod; here `public_encrypt` has no result for it.
pub record Rsa (g : Gmp) : Type 1 where
  pub State : Type 0
  pub random_integer : State → g.Mpz × State
  pub mod_ : g.Mpz → g.Mpz → g.Mpz
  -- `none` if it ends the program: the key is bad, or the input too long for its bits
  pub public_encrypt : (input : g.Mpz) (bits : ℕ) (e n : g.Mpz) → State → Option (g.Mpz × State)
  pub linearize_msb_first : ℕ → g.Mpz → List ℕ
  pub md5 : List ℕ → List ℕ

-- memcmp of as many bytes as both have.
pub same_bytes : List ℕ → List ℕ → Bool
same_bytes [] [] = true
same_bytes [] (y ∷ ys) = false
same_bytes (x ∷ xs) [] = false
same_bytes (x ∷ xs) (y ∷ ys) = x == y && same_bytes xs ys

-- The random challenge, and what the response to it must be.
unfoldable pub challenge : (g : Gmp) (r : Rsa g) → g.Mpz → r.State → g.Mpz
challenge g r n state = r.mod_ (r.random_integer state).0 n

pub expected : (g : Gmp) (r : Rsa g) → List ℕ → g.Mpz → List ℕ
expected g r session_id c = r.md5 (r.linearize_msb_first 32 c ++ session_id)

-- From the encryption of the challenge on.
pub ask :
    (g : Gmp) (r : Rsa g)
    → List ℕ
    → g.Mpz
    → Session
    → Option (g.Mpz × r.State)
    → Result (Bool × (r.State × Session))
unfolding expected
ask g r session_id c s none = err cannot_encrypt
ask g r session_id c s (some (encrypted, state)) = do
  msg ← put_mp_int g [] encrypted
  (answer, t) ← read_expect Code.auth_rsa_response (send s Code.auth_rsa_challenge msg)
  response ← get_chars 16 answer
  ok (same_bytes response (expected g r session_id c), (state, t))

pub challenge_dialog :
    (g : Gmp) (r : Rsa g)
    → List ℕ
    → ℕ
    → (e n : g.Mpz) → r.State × Session
    → Result (Bool × (r.State × Session))
unfolding challenge ask
challenge_dialog g r session_id bits e n (state, s) =
    let c = challenge g r n state in
    ask g r session_id c s (r.public_encrypt c bits e n (r.random_integer state).1)
