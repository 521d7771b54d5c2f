-- ===== src/Channels/Closing.antt =====
-- How a channel is closed: by `channel_receive_ieof`, `channel_receive_oclosed` and the closing of
-- its two directions.
use ssh_1_history.Prelude.{
  ℕ, ◌<◌, ◌≡◌, refl, ap, subst, ◌∙◌, true, false, ◌||◌, List, [], Option, ok, err, ◌>>=◌,
  assertion_failed, length, if◌then◌else◌,
}
use ssh_1_history.Buffer.Queue.{Queue}
use ssh_1_history.Channels.{
  ChannelType, is_free, is_opened, Channel, Channels, slot, put, send, output_closed, input_eof,
  shutdown_read, shutdown_write, free_channel, is_terminated, check_termination, send_ieof,
  send_oclosed, close_input_loop, close_output_loop, close_input, close_output, receive_ieof,
  receive_oclosed,
}
use ssh_1_history.Channels.Slot.{
  if_false, At, put-At, send-At, call-At, check_termination-goes_on, check_termination-frees, freed,
  free_channel-At, free_channel-twice,
}

-- A channel for which neither side has sent or received anything about its end.
abbrev pub untouched : ChannelType → ℕ → ℕ → ℕ → Queue → Queue → Option (List ℕ) → Channel
untouched type sock remote i input output name = record {
  type = type;
  sock = sock;
  remote_id = remote;
  local_id = i;
  input_socket_closed = false;
  output_socket_closed = false;
  eof_sent = false;
  eof_received = false;
  close_sent = false;
  close_received = false;
  kludge_a = false;
  kludge_b = false;
  input = input;
  output = output;
  remote_name = name;
  is_x_connection = false;
}

send_oclosed-At :
    {i : ℕ} {ch : Channel} {s : Channels}
    → At i ch s
    → ch.close_sent ≡ false
    → is_terminated (record ch { close_sent = true }) ≡ false
    → (t : Channels) × (send_oclosed s i ≡ ok t) × At i (record ch { close_sent = true }) t
unfolding send_oclosed
send_oclosed-At {i} {ch} {s} a unsent more =
    let ch' = record ch { close_sent = true } in
    let b = send-At (output_closed ch.remote_id) (put-At ch' a) in
    (
      send (put s i ch') (output_closed ch.remote_id),
      rw (a.is, unsent) (check_termination-goes_on b more),
      b,
    )

send_ieof-At :
    {i : ℕ} {ch : Channel} {s : Channels}
    → At i ch s
    → ch.eof_sent ≡ false
    → ch.local_id ≡ i
    → is_free ch.type ≡ false
    → is_terminated (record ch { eof_sent = true }) ≡ true
    → (t : Channels) × (send_ieof s i ≡ ok t) × At i (freed (record ch { eof_sent = true })) t
unfolding send_ieof
send_ieof-At {i} {ch} {s} a unsent own taken done =
    let ch' = record ch { eof_sent = true; close_sent = s.old || ch.close_sent } in
    let same : ch' ≡ record ch { eof_sent = true } =
      ap (λ o. record ch { eof_sent = true; close_sent = o || ch.close_sent }) a.new in
    let s' = send (put s i ch') (input_eof ch.remote_id) in
    let b = subst (λ k. At i k s') same (send-At (input_eof ch.remote_id) (put-At ch' a)) in
    let (t, e, c) = free_channel-At b taken in
    (
      t,
      rw a.is (if_false _ _ unsent ∙ check_termination-frees b done ∙ ap (free_channel _) own ∙ e),
      c,
    )

-- Closing the output of a channel says so to the other side.
close_output-At :
    {i : ℕ} {ch : Channel} {s : Channels}
    → At i ch s
    → ch.output_socket_closed ≡ false
    → ch.close_sent ≡ false
    → ch.input_socket_closed ≡ false
    → (t : Channels) × (close_output s i ≡ ok t)
      × At i (record ch { output_socket_closed = true; output = []; close_sent = true }) t
unfolding close_output close_output_loop is_terminated
close_output-At {i} {ch} {s} a unclosed unsent reading =
    let ch' = record ch { output_socket_closed = true; output = [] } in
    let b = call-At (shutdown_write ch.sock) (put-At ch' a) in
    let (t, e, c) = send_oclosed-At b unsent (rw reading) in
    (t, rw a.is (if_false _ _ unclosed ∙ if_false _ _ a.new ∙ e), c)

-- Closing the input of a channel that is not open, and of which all else is over, frees it.
close_input-At :
    {i : ℕ} {ch : Channel} {s : Channels}
    → At i ch s
    → ch.input_socket_closed ≡ false
    → is_opened ch.type ≡ false
    → ch.eof_sent ≡ false
    → ch.local_id ≡ i
    → is_free ch.type ≡ false
    → is_terminated (record ch { input_socket_closed = true; eof_sent = true }) ≡ true
    → (t : Channels) × (close_input s i ≡ ok t)
      × At i (freed (record ch { input_socket_closed = true; eof_sent = true })) t
unfolding close_input close_input_loop
close_input-At {i} {ch} {s} a unclosed unopened unsent own taken done =
    let ch' = record ch { input_socket_closed = true } in
    let b = call-At (shutdown_read ch.sock) (put-At ch' a) in
    let (t, e, c) = send_ieof-At b unsent own taken done in
    (
      t,
      rw a.is (
          if_false _ _ unclosed
          ∙ ap (λ r. r >>= λ u. if u.old then close_output_loop 2 u i else ok u)
              (if_false _ _ unopened ∙ e)
          ∙ if_false _ _ c.new),
      c,
    )

-- Of a channel that is not open, `channel_receive_ieof` closes the output.
receive_ieof-At :
    {i : ℕ} {ch : Channel} {s : Channels}
    → At i ch s
    → ch.eof_received ≡ false
    → ch.is_x_connection ≡ false
    → is_opened ch.type ≡ false
    → ch.output_socket_closed ≡ false
    → ch.close_sent ≡ false
    → ch.input_socket_closed ≡ false
    → (t : Channels) × (receive_ieof s i ≡ ok t)
      × At i
          (record ch {
            eof_received = true;
            output_socket_closed = true;
            output = [];
            close_sent = true;
          })
          t
unfolding receive_ieof is_terminated
receive_ieof-At {i} {ch} {s} a first no_x unopened unclosed unsent reading =
    let b = put-At (record ch { eof_received = true }) a in
    let (t, e, c) = close_output-At b unclosed unsent reading in
    let still : is_opened (slot (put s i (record ch { eof_received = true })) i).type ≡ false =
      ap (λ k. is_opened k.type) b.is ∙ unopened in
    (
      t,
      rw (a.is, first)
          (ap
              (λ r. r >>= λ u.
                (if is_opened (slot u i).type then ok u else close_output u i) >>= λ v.
                check_termination v i)
              (if_false _ _ no_x)
            ∙ ap (λ r. r >>= λ v. check_termination v i) (if_false _ _ still ∙ e)
            ∙ check_termination-goes_on c (rw reading)),
      c,
    )

-- Then `channel_receive_oclosed` closes the input, which frees the channel, and frees it again.
receive_oclosed-fails :
    {i : ℕ} {ch : Channel} {s : Channels}
    → At i ch s
    → ch.close_received ≡ false
    → ch.input_socket_closed ≡ false
    → is_opened ch.type ≡ false
    → ch.eof_sent ≡ false
    → ch.local_id ≡ i
    → is_free ch.type ≡ false
    → is_terminated
        (record ch { close_received = true; input_socket_closed = true; eof_sent = true })
      ≡ true
    → receive_oclosed s i ≡ err assertion_failed
unfolding receive_oclosed
receive_oclosed-fails {i} {ch} {s} a first unclosed unopened unsent own taken done =
    let b = put-At (record ch { close_received = true; input = [] }) a in
    let (t, e, c) =
      close_input-At b unclosed unopened unsent own taken (unfold is_terminated in done) in
    rw (a.is, first, e)
      (check_termination-frees c (unfold is_terminated in done)
        ∙ ap (free_channel t) own
        ∙ free_channel-twice c refl)

-- On a channel that is in use but not open, of which neither side has said that it ends, a message
-- SSH_MSG_CHANNEL_INPUT_EOF and then a message SSH_MSG_CHANNEL_OUTPUT_CLOSED end the program by the
-- assertion of `channel_free`: closing the input frees the channel, and it is freed again. The channel
-- is not an X connection that is closed eagerly, and old channels are not emulated.
pub closing_unopened_fails :
    (s : Channels) (i : ℕ) (type : ChannelType) (sock remote : ℕ) (input output : Queue)
    (name : Option (List ℕ))
    → s.old ≡ false
    → i < length s.slots
    → is_opened type ≡ false
    → is_free type ≡ false
    → slot s i ≡ untouched type sock remote i input output name
    → (receive_ieof s i >>= λ t. receive_oclosed t i) ≡ err assertion_failed
unfolding is_terminated
closing_unopened_fails s i type sock remote input output name new inside unopened taken is =
    let a : At i (untouched type sock remote i input output name) s = record {
      inside = inside;
      is = is;
      new = new;
    } in
    let (t, e, c) = receive_ieof-At a refl refl unopened refl refl refl in
    rw e (receive_oclosed-fails c refl refl unopened refl refl taken refl)
