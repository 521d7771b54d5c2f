-- ===== src/Channels/Ending.antt =====
-- Closing a direction, and receiving the end of a channel, end and leave the table consistent,
-- also when old channels are emulated and the two directions close one another.
use ssh_1_history.Prelude.{
  ℕ, suc, ◌<◌, ◌≡◌, refl, ap, true, not, [], Result, ok, ◌>>=◌, disconnected, double_ieof,
  double_close, length, get_or-set_self, if◌then◌else◌, arith, Ensures, Ensures-bind, Ensures-guard,
  Ensures-if, returns, Bool-cases, inl, inr,
}
use ssh_1_history.Channels.{
  is_opened, Channel, Channels, blank, slot, put, call, shutdown_read, shutdown_write, send_ieof,
  close_input_loop, close_output_loop, close_input, close_output, receive_ieof, receive_oclosed,
}
use ssh_1_history.Channels.Invariant.{
  IsValid, After, After-refl, After-trans, put-After, call-After,
}
use ssh_1_history.Channels.Freeing.{
  Ensures-later, check_termination-After, send_ieof-After, send_oclosed-After,
}

-- A run from a state after `s` continued by another.
Ensures-chain :
    {s : Channels} {m : Result Channels} {f : Channels → Result Channels}
    → Ensures (After s) m
    → ((t : Channels) → After s t → Ensures (After t) (f t))
    → Ensures (After s) (m >>= f)
Ensures-chain {s} h k = Ensures-bind (After s) (After s) h (λ t a. Ensures-later a (k t a))

close_input_loop-closed :
    (fuel : ℕ) (s : Channels) (i : ℕ)
    → IsValid s
    → (slot s i).input_socket_closed ≡ true
    → Ensures (After s) (close_input_loop (suc fuel) s i)
unfolding close_input_loop
close_input_loop-closed fuel s i v e = rw e (returns (After-refl s v))

close_output_loop-closed :
    (fuel : ℕ) (s : Channels) (i : ℕ)
    → IsValid s
    → (slot s i).output_socket_closed ≡ true
    → Ensures (After s) (close_output_loop (suc fuel) s i)
unfolding close_output_loop
close_output_loop-closed fuel s i v e = rw e (returns (After-refl s v))

-- One call of `channel_close_output`, if what it calls ends.
close_output_loop-step :
    (fuel : ℕ) (s : Channels) (i : ℕ)
    → IsValid s
    → i < length s.slots
    → ((t : Channels)
        → After s t
        → (slot t i).output_socket_closed ≡ true
        → Ensures (After t) (close_input_loop fuel t i))
    → Ensures (After s) (close_output_loop (suc fuel) s i)
unfolding close_output_loop
close_output_loop-step fuel s i v inside input_ends =
    elim (Bool-cases (slot s i).output_socket_closed) [
      | inl closed ↦ rw closed (returns (After-refl s v))
      | inr writing ↦
          let ch : Channel = record (slot s i) { output_socket_closed = true; output = [] } in
          let t : Channels = call (put s i ch) (shutdown_write (slot s i).sock) in
          let a : After s t =
            call-After (shutdown_write (slot s i).sock)
              (put-After s i ch v inside refl refl (λ e. e) (λ e. refl)) in
          let closed : (slot t i).output_socket_closed ≡ true =
            ap (λ k. k.output_socket_closed) (get_or-set_self s.slots i ch blank inside) in
          rw writing (
            Ensures-later a (
              Ensures-if s.old (input_ends t a closed)
                (send_oclosed-After t i a.valid (omega (arith, a.size)))))
    ]

-- One call of `channel_close_input`, if what it calls ends.
close_input_loop-step :
    (fuel : ℕ) (s : Channels) (i : ℕ)
    → IsValid s
    → i < length s.slots
    → ((t : Channels)
        → After s t
        → (slot t i).input_socket_closed ≡ true
        → Ensures (After t) (close_output_loop fuel t i))
    → Ensures (After s) (close_input_loop (suc fuel) s i)
unfolding close_input_loop
close_input_loop-step fuel s i v inside output_ends =
    elim (Bool-cases (slot s i).input_socket_closed) [
      | inl closed ↦ rw closed (returns (After-refl s v))
      | inr reading ↦
          let ch : Channel = record (slot s i) { input_socket_closed = true } in
          let t : Channels = call (put s i ch) (shutdown_read (slot s i).sock) in
          let a : After s t =
            call-After (shutdown_read (slot s i).sock)
              (put-After s i ch v inside refl refl (λ e. refl) (λ e. e)) in
          let closed : (slot t i).input_socket_closed ≡ true =
            ap (λ k. k.input_socket_closed) (get_or-set_self s.slots i ch blank inside) in
          rw reading (
            Ensures-later a (
              Ensures-chain (said t a) λ u b.
                Ensures-if u.old (output_ends u (After-trans a b) (b.inputs i closed))
                  (returns (After-refl u b.valid))))
    ]
  where
    said :
        (t : Channels)
        → After s t
        → Ensures (After t) (if is_opened (slot s i).type then ok t else send_ieof t i)
    said t a =
        Ensures-if (is_opened (slot s i).type) (returns (After-refl t a.valid))
          (send_ieof-After t i a.valid (omega (arith, a.size)))

-- On a consistent table and a slot of it, `channel_close_input` and `channel_close_output` end,
-- although they may call one another; if they return, the table is consistent, of the same size, and
-- nothing in it that was closed is open again.
pub close-After :
    (s : Channels) (i : ℕ)
    → IsValid s
    → i < length s.slots
    → Ensures (After s) (close_input s i) × Ensures (After s) (close_output s i)
unfolding close_input close_output
close-After s i v inside = (
  close_input_loop-step 2 s i v inside λ t a closed.
      close_output_loop-step 1 t i a.valid (omega (arith, a.size))
        λ u b also. close_input_loop-closed 0 u i b.valid (b.inputs i closed),
  close_output_loop-step 2 s i v inside λ t a closed.
      close_input_loop-step 1 t i a.valid (omega (arith, a.size))
        λ u b also. close_output_loop-closed 0 u i b.valid (b.outputs i closed),
)

-- On a consistent table and a slot of it, `channel_receive_ieof` and `channel_receive_oclosed` end,
-- and if they return, the table is consistent, of the same size, and nothing in it that was closed is
-- open again.
pub receive-After :
    (s : Channels) (i : ℕ)
    → IsValid s
    → i < length s.slots
    → Ensures (After s) (receive_ieof s i) × Ensures (After s) (receive_oclosed s i)
unfolding receive_ieof receive_oclosed
receive-After s i v inside = (
  Ensures-bind _ (After s)
      (Ensures-guard (not (slot s i).eof_received) {e = disconnected double_ieof} (λ e. cc))
      (λ w e. Ensures-later marked (
        Ensures-chain (x_closed marked) λ t a.
          Ensures-chain (unopened_closed t a) λ u b.
            check_termination-After u i b.valid (omega (arith, marked.size, a.size, b.size)))),
  Ensures-bind _ (After s)
      (Ensures-guard (not (slot s i).close_received) {e = disconnected double_close} (λ e. cc))
      (λ w e. Ensures-later cleared (
        Ensures-chain (close-After _ i cleared.valid (omega (arith, cleared.size))).0
          λ t a. check_termination-After t i a.valid (omega (arith, cleared.size, a.size)))),
)
  where
    ended : Channel
    ended = record (slot s i) { eof_received = true }

    marked : After s (put s i ended)
    marked = put-After s i ended v inside refl refl (λ e. e) (λ e. e)

    cleared : After s (put s i (record (slot s i) { close_received = true; input = [] }))
    cleared = put-After s i _ v inside refl refl (λ e. e) (λ e. e)

    x_closed :
        After s (put s i ended)
        → Ensures (After (put s i ended)) (
            if (slot s i).is_x_connection
            then close_input (put s i ended) i
            else ok (put s i ended))
    x_closed a =
        Ensures-if (slot s i).is_x_connection (close-After _ i a.valid (omega (arith, a.size))).0
          (returns (After-refl _ a.valid))

    unopened_closed :
        (t : Channels)
        → After (put s i ended) t
        → Ensures (After t) (if is_opened (slot t i).type then ok t else close_output t i)
    unopened_closed t a =
        Ensures-if (is_opened (slot t i).type) (returns (After-refl t a.valid))
          (close-After t i a.valid (omega (arith, marked.size, a.size))).1
