-- ===== src/Prelude/Results.antt =====
-- A run that may end the process: `fatal` with its reason, an assertion that fails, or a memory
-- access out of bounds, which C leaves undefined.
use mathlib.Core.Bool.{Bool, true, false}
use mathlib.Core.Path.{◌≡◌, refl, ap}
use mathlib.Core.Logic.{◌≢◌, ◌⊎◌, inl, inr}
use Prim.Native.Nat.{ℕ}
use ssh_1_history.Prelude.Tests.{if◌then◌else◌}
use mathlib.Core.List.{List}

-- Why `packet_disconnect` was called.
pub data Reason : Type 0 where
  bad_packet_length : ℕ → Reason
  junk_left : Reason
  attack_detected : Reason
  corrupted_check_bytes : Reason
  unexpected_type : ℕ → Reason
  nonexistent_channel : ℕ → Reason
  non_opening_channel : ℕ → Reason
  data_after_eof : ℕ → Reason
  double_ieof : Reason
  double_close : Reason
  too_many_attempts : Reason
  root_login_refused : Reason
  cannot_change_user : Reason

pub data Failure : Type 0 where
  no_memory : Failure
  too_many_bytes : Failure
  bad_string_length : ℕ → Failure
  assertion_failed : Failure
  undefined_behaviour : Failure
  out_of_fuel : Failure
  disconnected : Reason → Failure
  -- the other side sent SSH_MSG_DISCONNECT with this text
  told_to_disconnect : List ℕ → Failure
  packet_too_big : ℕ → Failure
  compression_enabled_twice : Failure
  corrupt_stream : Failure
  internal_bug : Failure
  reply_too_long : ℕ → Failure
  incomplete_reply : Failure
  bad_reply : ℕ → Failure
  too_many_identities : ℕ → Failure
  bad_response_type : ℕ → Failure
  old_protocol : Failure
  unknown_cipher : ℕ → Failure
  cannot_encrypt : Failure
  cannot_decrypt : Failure
  -- the other side closed the connection
  connection_closed : Failure

pub data Result {ℓ} (A : Type ℓ) : Type ℓ where
  ok : A → Result A
  err : Failure → Result A

-- A check of the source, with what it does if the check fails.
abbrev pub guard : (passes : Bool) (otherwise : Failure) → Result (Unit {0})
guard false otherwise = err otherwise
guard true otherwise = ok tt

infixl 5 ◌>>=◌ ◌>>◌
abbrev pub ◌>>=◌ {ℓ κ} : {A : Type ℓ} {B : Type κ} (r : Result A) (next : A → Result B) → Result B
err reason >>= next = err reason
ok x >>= next = next x

abbrev pub ◌>>◌ {ℓ} : {B : Type ℓ} (check : Result (Unit {0})) (next : Result B) → Result B
check >> next = check >>= λ done. next

pub Result-cases {ℓ} :
    {A : Type ℓ} (r : Result A) → ((a : A) × (r ≡ ok a)) ⊎ ((e : Failure) × (r ≡ err e))
Result-cases (ok a) = inl (a, refl)
Result-cases (err e) = inr (e, refl)

value_or {ℓ} : {A : Type ℓ} → A → Result A → A
value_or a (ok b) = b
value_or a (err e) = a

pub ok-injective {ℓ} : {A : Type ℓ} {a b : A} → ok a ≡ ok b → a ≡ b
unfolding value_or
ok-injective {a} e = ap (value_or a) e

-- Of a run: it does not end for lack of fuel, and its result satisfies `P`.
pub data Ensures {ℓ} {A : Type ℓ} (P : A → Type 0) : Result A → Type ℓ where
  returns : {a : A} → P a → Ensures P (ok a)
  fails : {e : Failure} → e ≢ out_of_fuel → Ensures P (err e)

pub Ensures-bind {ℓ κ} :
    {A : Type ℓ} {B : Type κ} (Q : A → Type 0) (P : B → Type 0) {m : Result A} {f : A → Result B}
    → Ensures Q m
    → ((a : A) → Q a → Ensures P (f a))
    → Ensures P (m >>= f)
Ensures-bind Q P (returns {a = a} h) k = k a h
Ensures-bind Q P (fails h) k = fails h

pub Ensures-guard :
    (b : Bool) {e : Failure} → e ≢ out_of_fuel → Ensures (λ (u : Unit {0}). b ≡ true) (guard b e)
Ensures-guard true k = returns refl
Ensures-guard false k = fails k

pub Ensures-if {ℓ} :
    {A : Type ℓ} {P : A → Type 0} (b : Bool) {x y : Result A}
    → Ensures P x
    → Ensures P y
    → Ensures P (if b then x else y)
Ensures-if true h k = h
Ensures-if false h k = k

-- `Ensures-bind` that keeps the equation of the first run.
pub Ensures-bind_eq {κ} :
    {A : Type 0} {B : Type κ} (Q : A → Type 0) (P : B → Type 0) (m : Result A) {f : A → Result B}
    → Ensures Q m
    → ((a : A) → Q a → m ≡ ok a → Ensures P (f a))
    → Ensures P (m >>= f)
Ensures-bind_eq Q P (ok a) (returns h) k = k a h refl
Ensures-bind_eq Q P (err e) (fails h) k = fails h

pub Ensures-mono {ℓ} :
    {A : Type ℓ} {P Q : A → Type 0} {r : Result A}
    → Ensures P r
    → ((a : A) → P a → Q a)
    → Ensures Q r
Ensures-mono (returns {a = a} h) k = returns (k a h)
Ensures-mono (fails h) k = fails h

WhenOk : {A : Type 0} → (A → Type 0) → Result A → Type 0
WhenOk P (ok a) = P a
WhenOk P (err e) = Unit

pub Ensures-ok : {A : Type 0} (P : A → Type 0) (a : A) → Ensures P (ok a) → P a
unfolding WhenOk
Ensures-ok {A} P a h = go (ok a) h
  where
    go : (r : Result A) → Ensures P r → WhenOk P r
    go (ok b) (returns k) = k
    go (err e) (fails k) = tt
