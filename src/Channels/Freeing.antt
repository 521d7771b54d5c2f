-- ===== src/Channels/Freeing.antt =====
-- `channel_free` and what calls it directly leave the table consistent.
use ssh_1_history.Prelude.{
  ℕ, ◌-◌, ◌<◌, ◌≡◌, refl, subst, Bool, true, false, not, ◌&&◌, ◌||◌, [], none, Result,
  assertion_failed, length, length-set, ltb, arith, Ensures, Ensures-bind, Ensures-guard, returns,
  fails, Bool-cases, inl, inr,
}
use ssh_1_history.Channels.{
  is_free, Channel, Channels, slot, put, call, close, free, close_confirmation, free_channel,
  is_terminated, check_termination, send_ieof, send_oclosed, input_eof, output_closed,
}
use ssh_1_history.Channels.Invariant.{
  in_use, busy-set, IsValid, After, After-refl, After-trans, slot-put, put-After, send-After,
}

abbrev vacated : Channels → ℕ → Channels
vacated s i =
    record (call
      (put s i (record (slot s i) { type = free; input = []; output = []; remote_name = none }))
      (close (slot s i).sock)) { used = s.used - 1 }

vacated-After :
    (s : Channels) (i : ℕ)
    → IsValid s
    → i < length s.slots
    → is_free (slot s i).type ≡ false
    → After s (vacated s i)
vacated-After s i v inside taken =
    let ch : Channel = record (slot s i) {
      type = free;
      input = [];
      output = [];
      remote_name = none;
    } in
    let was : in_use (slot s i) ≡ 1 = rw taken in
    record {
      valid = record {
        counted = omega (arith, v.counted, busy-set s.slots i ch inside, was);
        own = λ j.
            slot-put (λ k. is_free k.type ≡ false → k.local_id ≡ j) s i j ch inside
              (λ e f. absurd cc) (λ e. v.own j);
      };
      size = length-set s.slots i ch;
      inputs = λ j e.
          slot-put (λ k. k.input_socket_closed ≡ true) s i j ch inside
            (λ same. subst (λ n. (slot s n).input_socket_closed ≡ true) same e) (λ other. e);
      outputs = λ j e.
          slot-put (λ k. k.output_socket_closed ≡ true) s i j ch inside
            (λ same. subst (λ n. (slot s n).output_socket_closed ≡ true) same e) (λ other. e);
    }

pub free_channel-After : (s : Channels) (i : ℕ) → IsValid s → Ensures (After s) (free_channel s i)
unfolding free_channel
free_channel-After s i v =
    Ensures-bind _ (After s)
      (Ensures-guard (ltb i (length s.slots) && not (is_free (slot s i).type))
        {e = assertion_failed} (λ e. cc))
      λ u e. returns (vacated-After s i v (ground arith) (ground arith))

-- `Ensures` of a relation that starts one step later.
pub Ensures-later :
    {s t : Channels} {r : Result Channels} → After s t → Ensures (After t) r → Ensures (After s) r
Ensures-later a (returns b) = returns (After-trans a b)
Ensures-later a (fails h) = fails h

pub check_termination-After :
    (s : Channels) (i : ℕ)
    → IsValid s
    → i < length s.slots
    → Ensures (After s) (check_termination s i)
unfolding check_termination is_terminated
check_termination-After s i v inside = elim (Bool-cases (is_terminated (slot s i))) [
  | inr goes_on ↦ rw goes_on (returns (After-refl s v))
  | inl over ↦ elim (Bool-cases (s.old && not (slot s i).kludge_a)) [
    | inl half ↦ rw (over, half) (returns (put-After s i _ v inside refl refl (λ e. e) (λ e. e)))
    | inr whole ↦
        let confirm : Bool = s.old && (slot s i).kludge_b in
        elim (Bool-cases confirm) [
          | inl says ↦
              let a = send-After (close_confirmation (slot s i).remote_id) (After-refl s v) in
              rw (over, whole, says)
                (Ensures-later a (free_channel-After _ (slot s i).local_id a.valid))
          | inr silent ↦ rw (over, whole, silent) (free_channel-After s (slot s i).local_id v)
        ]
  ]
]

pub send_ieof-After :
    (s : Channels) (i : ℕ) → IsValid s → i < length s.slots → Ensures (After s) (send_ieof s i)
unfolding send_ieof
send_ieof-After s i v inside = elim (Bool-cases (slot s i).eof_sent) [
  | inl sent ↦ rw sent (returns (After-refl s v))
  | inr unsent ↦
      let ch : Channel = record (slot s i) {
        eof_sent = true;
        close_sent = s.old || (slot s i).close_sent;
      } in
      let a =
        send-After (input_eof (slot s i).remote_id)
          (put-After s i ch v inside refl refl (λ e. e) (λ e. e)) in
      rw unsent (Ensures-later a (check_termination-After _ i a.valid (omega (arith, a.size))))
]

pub send_oclosed-After :
    (s : Channels) (i : ℕ) → IsValid s → i < length s.slots → Ensures (After s) (send_oclosed s i)
unfolding send_oclosed
send_oclosed-After s i v inside = elim (Bool-cases (slot s i).close_sent) [
  | inl sent ↦ rw sent (returns (After-refl s v))
  | inr unsent ↦
      let ch : Channel = record (slot s i) { close_sent = true } in
      let a =
        send-After (output_closed (slot s i).remote_id)
          (put-After s i ch v inside refl refl (λ e. e) (λ e. e)) in
      rw unsent (Ensures-later a (check_termination-After _ i a.valid (omega (arith, a.size))))
]
