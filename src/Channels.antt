-- ===== src/Channels.antt =====
-- newchannels.c: the table of forwarded connections and the closing protocol of each. A `Channel *`
-- is an index into the table. The bits of `status_flags` are fields of their own. Messages that are
-- sent, and calls of the operating system, are listed in their order. `old` stands for the test of
-- EMULATE_OLD_CHANNEL_CODE. The functions are channel_allocate, channel_free, ... without their
-- prefix.
pub mod Table
pub mod Handlers
pub mod Invariant
pub mod Freeing
pub mod Ending
pub mod Slot
pub mod Closing
use ssh_1_history.Prelude.{
  ℕ, zero, suc, ◌+◌, ◌-◌, ◌^◌, Bool, true, false, not, ◌&&◌, ◌||◌, List, [], ◌∷◌, ◌++◌, Option,
  none, some, Result, ok, err, ◌>>=◌, ◌>>◌, guard, assertion_failed, out_of_fuel, disconnected,
  double_ieof, double_close, length, get_or, set, ltb, ◌==◌, if◌then◌else◌,
}
use ssh_1_history.Buffer.Queue.{Queue}

-- The channel types, SSH_CHANNEL_FREE to SSH_CHANNEL_AUTH_LISTENER.
pub data ChannelType : Type 0 where
  free x11_listener port_listener opening opened x11_open auth_listener : ChannelType

abbrev pub is_free : ChannelType → Bool
is_free free = true
is_free _ = false

abbrev pub is_opened : ChannelType → Bool
is_opened opened = true
is_opened _ = false

abbrev pub is_opening : ChannelType → Bool
is_opening opening = true
is_opening _ = false

abbrev pub is_x11_open : ChannelType → Bool
is_x11_open x11_open = true
is_x11_open _ = false

pub record Channel : Type 0 where
  pub type : ChannelType
  pub sock : ℕ
  pub remote_id : ℕ
  pub local_id : ℕ
  pub input_socket_closed : Bool
  pub output_socket_closed : Bool
  pub eof_sent : Bool
  pub eof_received : Bool
  pub close_sent : Bool
  pub close_received : Bool
  pub kludge_a : Bool
  pub kludge_b : Bool
  pub input : Queue
  pub output : Queue
  pub remote_name : Option (List ℕ)
  pub is_x_connection : Bool

pub data Message : Type 0 where
  input_eof output_closed close_confirmation : ℕ → Message
  channel_data : ℕ → List ℕ → Message

pub data Call : Type 0 where
  shutdown_read shutdown_write close : ℕ → Call

pub record Channels : Type 0 where
  pub slots : List Channel
  pub used : ℕ
  pub max_fd : ℕ
  pub sent : List Message
  pub calls : List Call
  pub old : Bool

-- A slot whose fields are not initialized but for its type. (remote_id -1 is 2 ^ 32 - 1.)
abbrev pub blank : Channel
blank = record {
  type = free;
  sock = 0;
  remote_id = 2 ^ 32 - 1;
  local_id = 0;
  input_socket_closed = false;
  output_socket_closed = false;
  eof_sent = false;
  eof_received = false;
  close_sent = false;
  close_received = false;
  kludge_a = false;
  kludge_b = false;
  input = [];
  output = [];
  remote_name = none;
  is_x_connection = false;
}

-- `*ch`; every caller's index is in range.
abbrev pub slot : Channels → ℕ → Channel
slot s i = get_or s.slots i blank

abbrev pub put : Channels → ℕ → Channel → Channels
put s i ch = record s { slots = set s.slots i ch }

abbrev pub send : Channels → Message → Channels
send s m = record s { sent = s.sent ++ (m ∷ []) }

abbrev pub call : Channels → Call → Channels
call s c = record s { calls = s.calls ++ (c ∷ []) }

-- `channel_free`
pub free_channel : Channels → ℕ → Result Channels
free_channel s i =
    let ch = slot s i in
    guard (ltb i (length s.slots) && not (is_free ch.type)) assertion_failed
    >> ok
        (record (call
          (put s i (record ch { type = free; input = []; output = []; remote_name = none }))
          (close ch.sock)) { used = s.used - 1 })

-- (status_flags & STATUS_TERMINATE) == STATUS_TERMINATE
pub is_terminated : Channel → Bool
is_terminated ch =
    ch.input_socket_closed
    && (ch.output_socket_closed
        && (ch.eof_sent && (ch.eof_received && (ch.close_sent && ch.close_received))))

pub check_termination : Channels → ℕ → Result Channels
unfolding is_terminated
check_termination s i =
    let ch = slot s i in
    if not (is_terminated ch)
    then ok s
    else if s.old && not ch.kludge_a
    then ok (put s i (record ch { close_received = false; eof_received = false }))
    else free_channel (if s.old && ch.kludge_b then send s (close_confirmation ch.remote_id) else s)
        ch.local_id

pub send_ieof : Channels → ℕ → Result Channels
send_ieof s i =
    let ch = slot s i in
    if ch.eof_sent
    then ok s
    else check_termination
        (send (put s i (record ch { eof_sent = true; close_sent = s.old || ch.close_sent }))
          (input_eof ch.remote_id))
        i

pub send_oclosed : Channels → ℕ → Result Channels
send_oclosed s i =
    let ch = slot s i in
    if ch.close_sent
    then ok s
    else check_termination
        (send (put s i (record ch { close_sent = true })) (output_closed ch.remote_id)) i

-- The two directions call one another when old channels are emulated; the fuel counts these calls.
mutual
  pub close_input_loop : ℕ → Channels → ℕ → Result Channels
  close_input_loop zero s i = err out_of_fuel
  close_input_loop (suc fuel) s i =
      let ch = slot s i in
      let marked =
        call (put s i (record ch { input_socket_closed = true })) (shutdown_read ch.sock) in
      let body = (if is_opened ch.type then ok marked else send_ieof marked i) >>= λ t.
      if t.old then close_output_loop fuel t i else ok t in
      if ch.input_socket_closed then ok s else body

  pub close_output_loop : ℕ → Channels → ℕ → Result Channels
  close_output_loop zero s i = err out_of_fuel
  close_output_loop (suc fuel) s i =
      let ch = slot s i in
      let marked =
        call (put s i (record ch { output_socket_closed = true; output = [] }))
          (shutdown_write ch.sock) in
      let body = if s.old then close_input_loop fuel marked i else send_oclosed marked i in
      if ch.output_socket_closed then ok s else body

pub close_input : Channels → ℕ → Result Channels
close_input s i = close_input_loop 3 s i

pub close_output : Channels → ℕ → Result Channels
close_output s i = close_output_loop 3 s i

pub receive_ieof : Channels → ℕ → Result Channels
receive_ieof s i = do
  let ch = slot s i
  guard (not ch.eof_received) (disconnected double_ieof)
  let marked = put s i (record ch { eof_received = true })
  t ← if ch.is_x_connection then close_input marked i else ok marked
  u ← if is_opened (slot t i).type then ok t else close_output t i
  check_termination u i

pub receive_oclosed : Channels → ℕ → Result Channels
receive_oclosed s i = do
  let ch = slot s i
  guard (not ch.close_received) (disconnected double_close)
  t ← close_input (put s i (record ch { close_received = true; input = [] })) i
  check_termination t i
