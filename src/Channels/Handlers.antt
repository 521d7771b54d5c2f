-- ===== src/Channels/Handlers.antt =====
-- What the messages about channels do. Each handler reads its arguments from the incoming packet.
pub mod Safety
use ssh_1_history.Prelude.{
  ℕ, ◌^◌, Bool, true, false, not, ◌&&◌, ◌||◌, List, [], Result, ok, err, ◌>>=◌, ◌>>◌, guard,
  disconnected, nonexistent_channel, non_opening_channel, data_after_eof, length, ltb, ◌++◌,
  if◌then◌else◌,
}
use ssh_1_history.Buffer.Queue.{Queue}
use ssh_1_history.Bufaux
use ssh_1_history.Channels.{
  ChannelType, is_free, is_opened, is_opening, is_x11_open, opened, Channel, Channels, slot, put,
  free_channel, receive_ieof, receive_oclosed,
}

-- channel >= 0 && channel < channels_alloc, of an `int` with 32 bits.
pub in_table : Channels → ℕ → Bool
in_table s n = ltb n (2 ^ 31) && ltb n (length s.slots)

-- The index that most handlers begin with.
pub get_channel : Channels → Queue → Result (ℕ × Queue)
unfolding in_table
get_channel s packet = do
  (n, rest) ← Bufaux.get_int packet
  guard (in_table s n && not (is_free (slot s n).type)) (disconnected (nonexistent_channel n))
  ok (n, rest)

pub ieof : Channels → Queue → Result (Channels × Queue)
ieof s packet = do (n, rest) ← get_channel s packet; t ← receive_ieof s n; ok (t, rest)

pub oclosed : Channels → Queue → Result (Channels × Queue)
oclosed s packet = do (n, rest) ← get_channel s packet; t ← receive_oclosed s n; ok (t, rest)

pub emulated_close : Bool → Channels → Queue → Result (Channels × Queue)
emulated_close set_a s packet = do
  (n, rest) ← get_channel s packet
  let ch = slot s n
  t ←
      receive_ieof
        (put s n (if set_a then record ch { kludge_a = true } else record ch { kludge_b = true })) n
  u ← receive_oclosed t n
  ok (u, rest)

pub input_close_confirmation : Channels → Queue → Result (Channels × Queue)
input_close_confirmation s packet = if s.old then emulated_close true s packet else oclosed s packet

pub input_close : Channels → Queue → Result (Channels × Queue)
input_close s packet = if s.old then emulated_close false s packet else ieof s packet

-- Behind the index; `packet_get_all` throws the rest of the packet away.
pub take_data : Channels → ℕ → Queue → Result (Channels × Queue)
take_data s n rest =
    let ch = slot s n in
    if not (is_opened ch.type) && not (is_x11_open ch.type)
    then ok (s, [])
    else if ch.eof_received
    then err (disconnected (data_after_eof n))
    else if not ch.output_socket_closed
    then (Bufaux.get_string rest >>= λ r.
        ok (put s n (record ch { output = ch.output ++ r.0 }), r.1))
    else ok (s, [])

pub input_data : Channels → Queue → Result (Channels × Queue)
input_data s packet = do (n, rest) ← get_channel s packet; take_data s n rest

pub get_opening_channel : Channels → Queue → Result (ℕ × Queue)
unfolding in_table
get_opening_channel s packet = do
  (n, rest) ← Bufaux.get_int packet
  guard (in_table s n && is_opening (slot s n).type) (disconnected (non_opening_channel n))
  ok (n, rest)

pub input_open_confirmation : Channels → Queue → Result (Channels × Queue)
input_open_confirmation s packet = do
  (n, rest) ← get_opening_channel s packet
  (remote, rest') ← Bufaux.get_int rest
  ok (put s n (record (slot s n) { remote_id = remote; type = opened }), rest')

pub input_open_failure : Channels → Queue → Result (Channels × Queue)
input_open_failure s packet = do
  (n, rest) ← get_opening_channel s packet
  t ← free_channel s n
  ok (t, rest)
