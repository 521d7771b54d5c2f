-- ===== src/Channels/Slot.antt =====
-- One slot of the table at a time: what a write to it, its check and its release leave there.
use ssh_1_history.Prelude.{
  ℕ, ◌-◌, ◌<◌, ◌≡◌, Bool, true, false, [], none, ok, err, assertion_failed, length, length-set,
  get_or-set_self, ltb, lt→ltb, if◌then◌else◌, arith,
}
use ssh_1_history.Channels.{
  is_free, Channel, Channels, blank, slot, put, send, call, Message, Call, close, free,
  free_channel, is_terminated, check_termination,
}

pub if_false {ℓ} : {A : Type ℓ} {b : Bool} (x y : A) → b ≡ false → (if b then x else y) ≡ y
if_false x y e = rw e

-- The slot `i` is in the table and holds `ch`; old channels are not emulated.
pub record At (i : ℕ) (ch : Channel) (s : Channels) : Type 0 where
  pub inside : i < length s.slots
  pub is : slot s i ≡ ch
  pub new : s.old ≡ false

pub put-At :
    {i : ℕ} {ch : Channel} {s : Channels} (ch' : Channel) → At i ch s → At i ch' (put s i ch')
put-At {i} {ch} {s} ch' a = record {
  inside = omega (arith, a.inside, length-set s.slots i ch');
  is = get_or-set_self s.slots i ch' blank a.inside;
  new = a.new;
}

pub send-At : {i : ℕ} {ch : Channel} {s : Channels} (m : Message) → At i ch s → At i ch (send s m)
send-At m a = record { inside = a.inside; is = a.is; new = a.new }

pub call-At : {i : ℕ} {ch : Channel} {s : Channels} (k : Call) → At i ch s → At i ch (call s k)
call-At k a = record { inside = a.inside; is = a.is; new = a.new }

pub check_termination-goes_on :
    {i : ℕ} {ch : Channel} {s : Channels}
    → At i ch s
    → is_terminated ch ≡ false
    → check_termination s i ≡ ok s
unfolding check_termination
check_termination-goes_on {i} {ch} {s} a e = rw (a.is, e)

pub check_termination-frees :
    {i : ℕ} {ch : Channel} {s : Channels}
    → At i ch s
    → is_terminated ch ≡ true
    → check_termination s i ≡ free_channel s ch.local_id
unfolding check_termination
check_termination-frees {i} {ch} {s} a e = rw (a.is, e, a.new)

-- What `channel_free` leaves in the slot.
abbrev pub freed : Channel → Channel
freed ch = record ch { type = free; input = []; output = []; remote_name = none }

pub free_channel-At :
    {i : ℕ} {ch : Channel} {s : Channels}
    → At i ch s
    → is_free ch.type ≡ false
    → (t : Channels) × (free_channel s i ≡ ok t) × At i (freed ch) t
unfolding free_channel
free_channel-At {i} {ch} {s} a taken =
    let inside : ltb i (length s.slots) ≡ true = lt→ltb _ _ a.inside in
    let b = put-At (freed ch) a in
    (
      record (call (put s i (freed ch)) (close ch.sock)) { used = s.used - 1 },
      rw (a.is, inside, taken),
      record { inside = b.inside; is = b.is; new = b.new },
    )

pub free_channel-twice :
    {i : ℕ} {ch : Channel} {s : Channels}
    → At i ch s
    → is_free ch.type ≡ true
    → free_channel s i ≡ err assertion_failed
unfolding free_channel
free_channel-twice {i} {ch} {s} a gone =
    let inside : ltb i (length s.slots) ≡ true = lt→ltb _ _ a.inside in rw (a.is, inside, gone)
