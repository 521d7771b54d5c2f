-- ===== src/Auth/Dialog/Left.antt =====
-- What the dialog leaves of the packets that come.
use ssh_1_history.Prelude.{
  ℕ, zero, suc, refl, Option, none, some, List, [], ◌∷◌, Ensures, Ensures-bind, Ensures-guard,
  returns, fails, ◌==◌,
}
use ssh_1_history.Buffer.Queue.{Queue}
use ssh_1_history.Bufaux.MpInt.{Gmp}
use ssh_1_history.Bufaux.MpInt.RoundTrip.{put_mp_int-ok}
use ssh_1_history.Bufaux.Reads.{Anything, get_char-Ensures}
use ssh_1_history.Agent.Client.{get_chars}
use ssh_1_history.Auth
use ssh_1_history.Auth.{Session, Suffix, send, read_expect}
use ssh_1_history.Auth.Code
use ssh_1_history.Auth.Dialog.{Rsa, challenge, ask, challenge_dialog}

get_chars-Ensures : (n : ℕ) (q : Queue) → Ensures Anything (get_chars n q)
unfolding get_chars
get_chars-Ensures zero q = returns tt
get_chars-Ensures (suc n) q =
    Ensures-bind Anything Anything (get_char-Ensures q)
      λ r _. Ensures-bind Anything Anything (get_chars-Ensures n r.1) λ s _. returns tt

read_expect-Suffix :
    (t : ℕ) (s : Session) → Ensures (λ a. Suffix a.1.incoming s.incoming) (read_expect t s)
unfolding read_expect Auth.read
read_expect-Suffix t s = go s.incoming
  where
    go :
        (ps : List (ℕ × Queue))
        → Ensures (λ a. Suffix a.1.incoming ps) (read_expect t (record s { incoming = ps }))
    go [] = fails (λ e. cc)
    go (p ∷ ps) =
        Ensures-bind _ _ (Ensures-guard (p.0 == t) (λ e. cc)) λ u e. returns (p ∷ [], refl)

pub challenge_dialog-Suffix :
    (g : Gmp) (r : Rsa g) (session_id : List ℕ) (bits : ℕ) (e n : g.Mpz) (s : r.State × Session)
    → Ensures (λ a. Suffix a.1.1.incoming s.1.incoming) (challenge_dialog g r session_id bits e n s)
unfolding challenge_dialog challenge ask send
challenge_dialog-Suffix g r session_id bits e n (state, s) =
    go (r.public_encrypt (challenge g r n state) bits e n (r.random_integer state).1)
  where
    go :
        (x : Option (g.Mpz × r.State))
        → Ensures
            (λ a. Suffix a.1.1.incoming s.incoming)
            (ask g r session_id (challenge g r n state) s x)
    go none = fails (λ e. cc)
    go (some (encrypted, state')) = rw (put_mp_int-ok g) (
        Ensures-bind _ _ (read_expect-Suffix Code.auth_rsa_response _)
          λ a h. Ensures-bind Anything _ (get_chars-Ensures 16 a.0) λ b _. returns h)
