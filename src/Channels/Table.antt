-- ===== src/Channels/Table.antt =====
-- The operations on the whole table: allocation, which grows it by ten slots at a time, and the
-- walks over all channels.
pub mod Allocation
use ssh_1_history.Prelude.{
  ℕ, zero, suc, ◌+◌, ◌-◌, ◌/◌, ◌*◌, ◌^◌, Bool, true, false, not, ◌&&◌, List, [], ◌∷◌, ◌++◌, Option,
  none, some, Result, ok, err, ◌>>=◌, internal_bug, length, get_or, set, replicate, take, drop, ltb,
  ◌==◌, if◌then◌else◌, min,
}
use ssh_1_history.Channels.{
  ChannelType, free, x11_listener, port_listener, opening, opened, x11_open, auth_listener, is_free,
  is_opened, Channel, Channels, Message, channel_data, close, blank, slot, put, send, call,
  free_channel, send_ieof,
}

-- The first free slot from index `i` on; the list is the table from there.
pub find_free : ℕ → List Channel → Option ℕ
find_free i [] = none
find_free i (ch ∷ chs) = if is_free ch.type then some i else find_free (i + 1) chs

-- The table with a slot to spare, and the index where the search begins.
pub make_room : Channels → ℕ × Channels
make_room s =
    let t = if length s.slots == 0 then record s { slots = replicate 10 blank } else s in
    if t.used == length t.slots
    then (t.used, record t { slots = t.slots ++ replicate 10 blank })
    else (0, t)

-- The slot `i` taken for a new channel.
pub occupy : Channels → ℕ → ChannelType → ℕ → Option (List ℕ) → Channels
occupy s i type sock name =
    record (put s i (record blank { type = type; sock = sock; local_id = i; remote_name = name })) {
      used = s.used + 1;
    }

pub allocate : Channels → ChannelType → ℕ → Option (List ℕ) → Result (ℕ × Channels)
unfolding make_room occupy
allocate s type sock name =
    let (i, t) = make_room (record s { max_fd = if ltb s.max_fd sock then sock else s.max_fd }) in
    elim (find_free i (drop i t.slots)) [
      | none ↦ err internal_bug
      | some k ↦ ok (k, occupy t k type sock name)
    ]

-- `channel_still_open`
pub still_open : List Channel → Bool
still_open [] = false
still_open (ch ∷ chs) = elim ch.type [
  | opening ↦ true
  | opened ↦ true
  | x11_open ↦ true
  | _ ↦ still_open chs
]

-- `channel_close_all`
pub close_all_from : List Channel → Channels → Channels
close_all_from [] s = s
close_all_from (ch ∷ chs) s =
    close_all_from chs (if is_free ch.type then s else call s (close ch.sock))

pub close_all : Channels → Channels
close_all s = close_all_from s.slots s

is_closing_listener : ChannelType → Bool
is_closing_listener port_listener = true
is_closing_listener x11_listener = true
is_closing_listener _ = false

-- The loop of `channel_stop_listening` from index `i` on; `auth_delete_socket`, which removes the
-- agent's socket from the file system, does not touch the table.
pub stop_listening_from : ℕ → ℕ → Channels → Result Channels
unfolding is_closing_listener
stop_listening_from zero i s = ok s
stop_listening_from (suc left) i s =
    let next =
      (if is_closing_listener (slot s i).type
        then free_channel (call s (close (slot s i).sock)) i
        else ok s) in
    next >>= λ t. stop_listening_from left (i + 1) t

pub stop_listening : Channels → Result Channels
stop_listening s = stop_listening_from (length s.slots) 0 s

-- What `channel_output_poll` asks of packet.c.
pub record Link : Type 0 where
  -- packet_not_very_much_data_to_write, after these messages
  pub has_room : List Message → Bool
  pub is_interactive : Bool
  pub max_size : ℕ

-- How many of `n` buffered bytes go into one message.
unfoldable pub chunk : Link → ℕ → ℕ
chunk l n = if l.is_interactive then min n 512 else min (min n 8192) (l.max_size / 2)

unfoldable pub poll_channel : Link → Channels → ℕ → Result Channels
unfolding chunk
poll_channel l s i =
    let ch = slot s i in
    let n = length ch.input in
    if not (is_opened ch.type)
    then ok s
    else if ltb 0 n
    then ok (
        send (put s i (record ch { input = drop (chunk l n) ch.input }))
          (channel_data ch.remote_id (take (chunk l n) ch.input)))
    else if ch.input_socket_closed && not ch.eof_sent
    then send_ieof s i
    else ok s

-- The loop of `channel_output_poll` from index `i` on.
pub output_poll_from : Link → ℕ → ℕ → Channels → Result Channels
output_poll_from l zero i s = ok s
output_poll_from l (suc left) i s =
    let rest = poll_channel l s i >>= λ t. output_poll_from l left (i + 1) t in
    if l.has_room s.sent then rest else ok s

pub output_poll : Link → Channels → Result Channels
output_poll l s = output_poll_from l (length s.slots) 0 s
