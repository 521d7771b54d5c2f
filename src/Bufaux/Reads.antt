-- ===== src/Bufaux/Reads.antt =====
-- Reading from a buffer ends, whatever is in the buffer.
use ssh_1_history.Prelude.{
  ℕ, zero, suc, ◌+◌, ◌*◌, ◌/◌, ◌≡◌, Ensures, Ensures-bind, Ensures-if, Ensures-guard, not, ◌==◌,
  returns, fails, length, length-drop, ltb, not-ltb→le, Bool-cases, inl, inr, arith,
}
use ssh_1_history.Buffer.Queue
use ssh_1_history.Buffer.Queue.{Queue}
use ssh_1_history.Bufaux
use ssh_1_history.Bufaux.MpInt.{Gmp, get_16bit, read_hex, get_mp_int}

abbrev pub Anything {ℓ} : {A : Type ℓ} → A → Type 0
Anything a = Unit

pub consume-Ensures :
    (q : Queue) (n : ℕ) → Ensures (λ r. length r + n ≡ length q) (Queue.consume q n)
unfolding Queue.consume
consume-Ensures q n = elim (Bool-cases (ltb (length q) n)) [
  | inl few ↦ rw few (fails (λ e. cc))
  | inr enough ↦
      rw enough (returns (omega (arith, length-drop n q, not-ltb→le (length q) n enough)))
]

pub get-Ensures : (q : Queue) (n : ℕ) → Ensures Anything (Queue.get q n)
unfolding Queue.get
get-Ensures q n = Ensures-if (ltb (length q) n) (fails (λ e. cc)) (returns tt)

pub consume_end-Ensures : (q : Queue) (n : ℕ) → Ensures Anything (Queue.consume_end q n)
unfolding Queue.consume_end
consume_end-Ensures q n = Ensures-if (ltb (length q) n) (fails (λ e. cc)) (returns tt)

pub get_char-Ensures : (q : Queue) → Ensures Anything (Bufaux.get_char q)
unfolding Bufaux.get_char
get_char-Ensures q = Ensures-bind Anything Anything (get-Ensures q 1) (λ r _. returns tt)

pub get_int-Ensures : (q : Queue) → Ensures Anything (Bufaux.get_int q)
unfolding Bufaux.get_int
get_int-Ensures q = Ensures-bind Anything Anything (get-Ensures q 4) (λ r _. returns tt)

pub get_string-Ensures : (q : Queue) → Ensures Anything (Bufaux.get_string q)
unfolding Bufaux.get_string
get_string-Ensures q =
    Ensures-bind Anything Anything (get_int-Ensures q)
      λ r _. Ensures-if (ltb (256 * 1024) r.0) (fails (λ e. cc)) (get-Ensures r.1 r.0)

read_hex-Ensures : (n : ℕ) (q : Queue) → Ensures Anything (read_hex n q)
unfolding read_hex
read_hex-Ensures zero q = returns tt
read_hex-Ensures (suc n) q =
    Ensures-bind Anything Anything (get-Ensures q 1)
      λ r _. Ensures-bind Anything Anything (read_hex-Ensures n r.1) λ s _. returns tt

pub get_mp_int-Ensures : (g : Gmp) (q : Queue) (old : g.Mpz) → Ensures Anything (get_mp_int g q old)
unfolding get_mp_int
get_mp_int-Ensures g q old = Ensures-bind Anything Anything (get-Ensures q 2) λ r _.
    Ensures-bind _ Anything (Ensures-guard (not (get_16bit r.0 == 0)) (λ e. cc)) λ v _.
      Ensures-bind Anything Anything (read_hex-Ensures ((get_16bit r.0 + 7) / 8) r.1)
        λ s _. returns tt
