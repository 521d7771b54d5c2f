-- ===== src/Tests/Tables.antt =====
-- The table of channels at a concrete state.
use ssh_1_history.Prelude.{
  ℕ, zero, suc, ◌≡◌, refl, false, [], ◌∷◌, none, ok, err, ◌>>=◌, assertion_failed, Ensures, arith,
}
use ssh_1_history.Buffer.Queue.{Queue}
use ssh_1_history.Channels.{
  is_free, Channels, slot, opening, port_listener, close_input, close_output, receive_ieof,
  receive_oclosed,
}
use ssh_1_history.Channels.Table.{allocate}
use ssh_1_history.Channels.Table.Allocation.{Allocated, allocate-Allocated}
use ssh_1_history.Channels.Handlers.{
  input_data, input_close, input_close_confirmation, input_open_confirmation, input_open_failure,
}
use ssh_1_history.Channels.Handlers.Safety.{Handled, handlers-Handled}
use ssh_1_history.Channels.Invariant.{IsValid, After}
use ssh_1_history.Channels.Ending.{close-After, receive-After}
use ssh_1_history.Channels.Closing.{untouched, closing_unopened_fails}

-- One channel, which waits for the confirmation of the other side.
abbrev waiting : Channels
waiting = record {
  slots = untouched opening 7 3 0 [] [] none ∷ [];
  used = 1;
  max_fd = 7;
  sent = [];
  calls = [];
  old = false;
}

closing_unopened_fails_example :
    (receive_ieof waiting 0 >>= λ t. receive_oclosed t 0) ≡ err assertion_failed
closing_unopened_fails_example =
    closing_unopened_fails waiting 0 opening 7 3 [] [] none refl (omega arith) refl refl refl

waiting-own : (i : ℕ) → is_free (slot waiting i).type ≡ false → (slot waiting i).local_id ≡ i
waiting-own zero taken = refl
waiting-own (suc i) taken = absurd cc

waiting-IsValid : IsValid waiting
waiting-IsValid = record { counted = omega arith; own = waiting-own }

allocate-Allocated_example :
    (k : ℕ) × (t : Channels) × (allocate waiting port_listener 8 none ≡ ok (k, t))
    × Allocated waiting port_listener 8 k t
allocate-Allocated_example = allocate-Allocated waiting port_listener 8 none waiting-IsValid refl

close-After_example :
    Ensures (After waiting) (close_input waiting 0)
    × Ensures (After waiting) (close_output waiting 0)
close-After_example = close-After waiting 0 waiting-IsValid (omega arith)

receive-After_example :
    Ensures (After waiting) (receive_ieof waiting 0)
    × Ensures (After waiting) (receive_oclosed waiting 0)
receive-After_example = receive-After waiting 0 waiting-IsValid (omega arith)

abbrev packet : Queue
packet = 0 ∷ 0 ∷ 0 ∷ 0 ∷ 0 ∷ 0 ∷ 0 ∷ 1 ∷ 9 ∷ []

handlers-Handled_example :
    Handled waiting (input_data waiting packet)
    × Handled waiting (input_close waiting packet)
    × Handled waiting (input_close_confirmation waiting packet)
    × Handled waiting (input_open_confirmation waiting packet)
    × Handled waiting (input_open_failure waiting packet)
handlers-Handled_example = handlers-Handled waiting packet waiting-IsValid
