-- ===== src/Channels/Handlers/Safety.antt =====
-- The table of channels after the handlers of messages.
use ssh_1_history.Prelude.{
  ℕ, ◌^◌, ◌<◌, ◌≡◌, refl, sym, Bool, true, false, not, ◌&&◌, Result, disconnected,
  nonexistent_channel, non_opening_channel, length, ltb, if◌then◌else◌, arith, Ensures,
  Ensures-bind, Ensures-guard, Ensures-if, returns, fails,
}
use ssh_1_history.Buffer.Queue.{Queue}
use ssh_1_history.Bufaux.Reads.{get_int-Ensures, get_string-Ensures}
use ssh_1_history.Channels.{
  ChannelType, free, x11_listener, port_listener, opening, x11_open, auth_listener, is_free,
  is_opened, is_opening, is_x11_open, opened, Channel, Channels, slot, put,
}
use ssh_1_history.Channels.Invariant.{IsValid, After, After-refl, After-trans, put-After}
use ssh_1_history.Channels.Freeing.{free_channel-After}
use ssh_1_history.Channels.Ending.{receive-After}
use ssh_1_history.Channels.Handlers.{
  in_table, get_channel, ieof, oclosed, emulated_close, input_close_confirmation, input_close,
  take_data, input_data, get_opening_channel, input_open_confirmation, input_open_failure,
}

-- The handler ends, and what it leaves of the table is consistent.
abbrev pub Handled : Channels → Result (Channels × Queue) → Type 0
Handled s r = Ensures (λ a. After s a.0) r

-- An index that a handler goes on with is the index of a slot.
get_channel-Ensures :
    (s : Channels) (q : Queue) → Ensures (λ r. r.0 < length s.slots) (get_channel s q)
unfolding get_channel in_table
get_channel-Ensures s q = Ensures-bind _ _ (get_int-Ensures q) λ r _.
    Ensures-bind _ _
      (Ensures-guard
        ((ltb r.0 (2 ^ 31) && ltb r.0 (length s.slots)) && not (is_free (slot s r.0).type))
        {e = disconnected (nonexistent_channel r.0)} (λ e. cc))
      λ u e. returns (ground arith)

get_opening_channel-Ensures :
    (s : Channels) (q : Queue)
    → Ensures
        (λ r. (r.0 < length s.slots) × (is_opening (slot s r.0).type ≡ true))
        (get_opening_channel s q)
unfolding get_opening_channel in_table
get_opening_channel-Ensures s q = Ensures-bind _ _ (get_int-Ensures q) λ r _.
    Ensures-bind _ _
      (Ensures-guard
        ((ltb r.0 (2 ^ 31) && ltb r.0 (length s.slots)) && is_opening (slot s r.0).type)
        {e = disconnected (non_opening_channel r.0)} (λ e. cc))
      λ u e. returns (ground arith, ground arith)

ieof-Handled : (s : Channels) (q : Queue) → IsValid s → Handled s (ieof s q)
unfolding ieof
ieof-Handled s q v =
    Ensures-bind _ _ (get_channel-Ensures s q)
      λ r inside. Ensures-bind (After s) _ (receive-After s r.0 v inside).0 λ t a. returns a

oclosed-Handled : (s : Channels) (q : Queue) → IsValid s → Handled s (oclosed s q)
unfolding oclosed
oclosed-Handled s q v =
    Ensures-bind _ _ (get_channel-Ensures s q)
      λ r inside. Ensures-bind (After s) _ (receive-After s r.0 v inside).1 λ t a. returns a

-- A mark of the emulation changes nothing that matters here.
marked-After :
    (set_a : Bool) (s : Channels) (n : ℕ)
    → IsValid s
    → n < length s.slots
    → After s (
        put s n (
          if set_a
          then record (slot s n) { kludge_a = true }
          else record (slot s n) { kludge_b = true }))
marked-After true s n v inside = put-After s n _ v inside refl refl (λ e. e) (λ e. e)
marked-After false s n v inside = put-After s n _ v inside refl refl (λ e. e) (λ e. e)

emulated_close-Handled :
    (set_a : Bool) (s : Channels) (q : Queue) → IsValid s → Handled s (emulated_close set_a s q)
unfolding emulated_close
emulated_close-Handled set_a s q v = Ensures-bind _ _ (get_channel-Ensures s q) λ r inside.
    let m = marked-After set_a s r.0 v inside in
    Ensures-bind (After _) _ (receive-After _ r.0 m.valid (omega (arith, m.size))).0 λ t a.
      Ensures-bind (After t) _ (receive-After t r.0 a.valid (omega (arith, m.size, a.size))).1
        λ u b. returns (After-trans m (After-trans a b))

take_data-Handled :
    (s : Channels) (n : ℕ) (q : Queue)
    → IsValid s
    → n < length s.slots
    → Handled s (take_data s n q)
unfolding take_data
take_data-Handled s n q v inside =
    Ensures-if (not (is_opened (slot s n).type) && not (is_x11_open (slot s n).type))
      (returns (After-refl s v))
      (Ensures-if (slot s n).eof_received (fails (λ e. cc)) (
        Ensures-if (not (slot s n).output_socket_closed)
          (Ensures-bind _ _ (get_string-Ensures q)
            λ r _. returns (put-After s n _ v inside refl refl (λ e. e) (λ e. e)))
          (returns (After-refl s v))))

input_data-Handled : (s : Channels) (q : Queue) → IsValid s → Handled s (input_data s q)
unfolding input_data
input_data-Handled s q v =
    Ensures-bind _ _ (get_channel-Ensures s q) λ r inside. take_data-Handled s r.0 r.1 v inside

opening-IsUsed : (ch : Channel) → is_opening ch.type ≡ true → is_free ch.type ≡ false
opening-IsUsed ch e = go ch.type e
  where
    go : (t : ChannelType) → is_opening t ≡ true → is_free t ≡ false
    go free e = absurd cc
    go x11_listener e = refl
    go port_listener e = refl
    go opening e = refl
    go opened e = refl
    go x11_open e = refl
    go auth_listener e = refl

input_open_confirmation-Handled :
    (s : Channels) (q : Queue) → IsValid s → Handled s (input_open_confirmation s q)
unfolding input_open_confirmation
input_open_confirmation-Handled s q v =
    Ensures-bind _ _ (get_opening_channel-Ensures s q) λ r waits.
      Ensures-bind _ _ (get_int-Ensures r.1) λ a _. returns (
        put-After s r.0 _ v waits.0 (sym (opening-IsUsed (slot s r.0) waits.1)) refl (λ e. e)
          (λ e. e))

input_open_failure-Handled :
    (s : Channels) (q : Queue) → IsValid s → Handled s (input_open_failure s q)
unfolding input_open_failure
input_open_failure-Handled s q v =
    Ensures-bind _ _ (get_opening_channel-Ensures s q)
      λ r waits. Ensures-bind (After s) _ (free_channel-After s r.0 v) λ t a. returns a

-- Whatever the rest of the message is: on a consistent table, each of the five handlers of messages
-- about a channel ends, and if it returns, the table is consistent and of the same size, and nothing in
-- it that was closed is open again.
pub handlers-Handled :
    (s : Channels) (packet : Queue)
    → IsValid s
    → Handled s (input_data s packet)
      × Handled s (input_close s packet)
      × Handled s (input_close_confirmation s packet)
      × Handled s (input_open_confirmation s packet)
      × Handled s (input_open_failure s packet)
unfolding input_close input_close_confirmation
handlers-Handled s packet v = (
  input_data-Handled s packet v,
  Ensures-if s.old (emulated_close-Handled false s packet v) (ieof-Handled s packet v),
  Ensures-if s.old (emulated_close-Handled true s packet v) (oclosed-Handled s packet v),
  input_open_confirmation-Handled s packet v,
  input_open_failure-Handled s packet v,
)
