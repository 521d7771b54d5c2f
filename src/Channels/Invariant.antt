-- ===== src/Channels/Invariant.antt =====
-- When the table of channels is consistent: `channels_used` counts the slots in use, and each channel
-- knows its own index.
use ssh_1_history.Prelude.{
  ℕ, zero, suc, ◌+◌, ◌≤◌, ◌<◌, ◌≡◌, ◌≢◌, refl, sym, ap, subst, ◌∙◌, true, false, List, [], ◌∷◌,
  length, get_or, set, length-set, get_or-set_self, get_or-set_ne, ltb, ltb→lt, if◌then◌else◌,
  arith, Bool-cases, inl, inr, ◌==◌,
}
use ssh_1_history.Channels.{is_free, Channel, Channels, Message, Call, blank, slot, put, send, call}

abbrev pub in_use : Channel → ℕ
in_use ch = if is_free ch.type then 0 else 1

-- How many slots are in use.
abbrev pub busy : List Channel → ℕ
busy [] = 0
busy (ch ∷ chs) = in_use ch + busy chs

pub record IsValid (s : Channels) : Type 0 where
  pub counted : s.used ≡ busy s.slots
  pub own : (i : ℕ) → is_free (slot s i).type ≡ false → (slot s i).local_id ≡ i

-- From `s` to `t` the table stays consistent and as large, and what is closed stays closed.
pub record After (s t : Channels) : Type 0 where
  pub valid : IsValid t
  pub size : length t.slots ≡ length s.slots
  pub inputs :
      (j : ℕ) → (slot s j).input_socket_closed ≡ true → (slot t j).input_socket_closed ≡ true
  pub outputs :
      (j : ℕ) → (slot s j).output_socket_closed ≡ true → (slot t j).output_socket_closed ≡ true

pub After-refl : (s : Channels) → IsValid s → After s s
After-refl s v = record { valid = v; size = refl; inputs = λ j e. e; outputs = λ j e. e }

pub After-trans : {s t u : Channels} → After s t → After t u → After s u
After-trans a b = record {
  valid = b.valid;
  size = b.size ∙ a.size;
  inputs = λ j e. b.inputs j (a.inputs j e);
  outputs = λ j e. b.outputs j (a.outputs j e);
}

pub busy-set :
    (xs : List Channel) (i : ℕ) (ch : Channel)
    → i < length xs
    → busy (set xs i ch) + in_use (get_or xs i blank) ≡ busy xs + in_use ch
busy-set [] i ch h = absurd (omega arith)
busy-set (x ∷ xs) zero ch h = omega arith
busy-set (x ∷ xs) (suc i) ch h = omega (arith, busy-set xs i ch (omega arith))

get_or_outside : (xs : List Channel) (i : ℕ) → length xs ≤ i → get_or xs i blank ≡ blank
get_or_outside [] i h = refl
get_or_outside (x ∷ xs) zero h = absurd (omega arith)
get_or_outside (x ∷ xs) (suc i) h = get_or_outside xs i (omega arith)

pub used_inside : (s : Channels) (i : ℕ) → is_free (slot s i).type ≡ false → i < length s.slots
used_inside s i taken = elim (Bool-cases (ltb i (length s.slots))) [
  | inl inside ↦ ltb→lt i (length s.slots) inside
  | inr outside ↦
      let e : is_free (slot s i).type ≡ true =
        ap (λ ch. is_free ch.type) (get_or_outside s.slots i (ground arith)) in
      absurd cc
]

-- A slot of the table after a write to another or the same slot.
pub slot-put :
    (P : Channel → Type 0) (s : Channels) (i j : ℕ) (ch : Channel)
    → i < length s.slots
    → (j ≡ i → P ch)
    → (j ≢ i → P (slot s j))
    → P (slot (put s i ch) j)
slot-put P s i j ch inside here there = elim (Bool-cases (j == i)) [
  | inl same ↦
      let e : j ≡ i = ground arith in
      subst P
        (sym (
          ap (λ k. get_or (set s.slots i ch) k blank) e
          ∙ get_or-set_self s.slots i ch blank inside))
        (here e)
  | inr other ↦
      let d : i ≢ j = ground arith in
      subst P (sym (get_or-set_ne s.slots i j ch blank d)) (there (ground arith))
]

pub put-After :
    (s : Channels) (i : ℕ) (ch : Channel)
    → IsValid s
    → i < length s.slots
    → is_free ch.type ≡ is_free (slot s i).type
    → ch.local_id ≡ (slot s i).local_id
    → ((slot s i).input_socket_closed ≡ true → ch.input_socket_closed ≡ true)
    → ((slot s i).output_socket_closed ≡ true → ch.output_socket_closed ≡ true)
    → After s (put s i ch)
put-After s i ch v inside types ids inp outp =
    let uses : in_use ch ≡ in_use (slot s i) = ap (λ b. if b then 0 else 1) types in
    record {
      valid = record {
        counted = omega (arith, v.counted, busy-set s.slots i ch inside, uses);
        own = λ j.
            slot-put (λ k. is_free k.type ≡ false → k.local_id ≡ j) s i j ch inside
              (λ e taken. ids ∙ v.own i (sym types ∙ taken) ∙ sym e) (λ e. v.own j);
      };
      size = length-set s.slots i ch;
      inputs = λ j e.
          slot-put (λ k. k.input_socket_closed ≡ true) s i j ch inside
            (λ same. inp (subst (λ n. (slot s n).input_socket_closed ≡ true) same e)) (λ other. e);
      outputs = λ j e.
          slot-put (λ k. k.output_socket_closed ≡ true) s i j ch inside
            (λ same. outp (subst (λ n. (slot s n).output_socket_closed ≡ true) same e))
            (λ other. e);
    }

pub send-After : {s t : Channels} (m : Message) → After s t → After s (send t m)
send-After m a = record {
  valid = record { counted = a.valid.counted; own = a.valid.own };
  size = a.size;
  inputs = a.inputs;
  outputs = a.outputs;
}

pub call-After : {s t : Channels} (c : Call) → After s t → After s (call t c)
call-After c a = record {
  valid = record { counted = a.valid.counted; own = a.valid.own };
  size = a.size;
  inputs = a.inputs;
  outputs = a.outputs;
}
