-- ===== src/Packet.antt =====
-- packet.c: the binary packet protocol. Buffers are the queues of their bytes (`Buffer.Run`); the
-- scratch buffer for compression is cleared before each use and so is a local value. The functions
-- are packet_start, packet_send, packet_read_poll, ... without their prefix. `packet_disconnect`
-- never returns and is a failure with its reason.
pub mod Build
pub mod Send
pub mod Receive
pub mod RoundTrip
pub mod Poll
use ssh_1_history.Prelude.{
  ℕ, zero, suc, ◌+◌, ◌-◌, ◌*◌, ◌/◌, ◌%◌, ◌^◌, ◌≡◌, Bool, true, false, ◌||◌, ◌&&◌, not, List, [],
  ◌∷◌, Option, none, some, Result, ok, err, ◌>>=◌, ◌>>◌, guard, disconnected, bad_packet_length,
  junk_left, attack_detected, corrupted_check_bytes, out_of_fuel, told_to_disconnect,
  packet_too_big, compression_enabled_twice, assertion_failed, corrupt_stream, length, take, drop,
  set, get_or, replicate, ltb, leb, ◌==◌, if◌then◌else◌,
}
use ssh_1_history.Buffer.Queue
use ssh_1_history.Buffer.Queue.{Queue}
use ssh_1_history.Bufaux
use ssh_1_history.Bufaux.{byte, put_32bit, get_32bit}
use ssh_1_history.Crc32.{crc32}
use ssh_1_history.Cipher.{Cipher, Codec, Generator, ssh_cipher_none, ssh_cipher_idea}

abbrev pub ssh_msg_none : ℕ
ssh_msg_none = 0

abbrev pub ssh_msg_disconnect : ℕ
ssh_msg_disconnect = 1

abbrev pub ssh_msg_ignore : ℕ
ssh_msg_ignore = 32

abbrev pub ssh_msg_debug : ℕ
ssh_msg_debug = 36

-- The module's variables. The fields of the two directions are independent of one another.
pub record Packet (c : Cipher) (z : Codec) (g : Generator) : Type 0 where
  pub input : Queue
  pub output : Queue
  pub outgoing_packet : Queue
  pub incoming_packet : Queue
  pub packet_compression : Bool
  pub cipher_type : ℕ
  pub send_context : c.Context
  pub receive_context : c.Context
  pub outgoing_stream : z.Deflate
  pub incoming_stream : z.Inflate
  pub random_state : g.State
  pub max_packet_size : ℕ
  pub interactive_mode : Bool

-- `(len + 8) & ~7`; a length that gets here is far below 2 ^ 32 - 8.
abbrev pub padded : ℕ → ℕ
padded len = (len + 8) / 8 * 8

-- `cp[7 - i] = random_get_byte (random_state)` for `i` up to `padding`, with `left` rounds to go.
pub fill_padding : (g : Generator) → ℕ → ℕ → Queue → g.State → Queue × g.State
fill_padding g zero i q r = (q, r)
fill_padding g (suc left) i q r =
    let (b, r') = g.get_byte r in fill_padding g left (i + 1) (set q (7 - i) b) r'

-- `buffer_compress`, which leaves an empty input alone.
unfoldable pub compress : (z : Codec) → z.Deflate → Queue → Queue × z.Deflate
compress z o [] = ([], o)
compress z o (b ∷ q) = z.compress o (b ∷ q)

unfoldable pub encrypt : (c : Cipher) → c.Context → List ℕ → Result (List ℕ × c.Context)
encrypt c s src = guard (length src % 8 == 0) assertion_failed >> ok (c.encrypt s src)

-- deattack.c: whether the ciphertext, with the initialization vector if it has one, looks forged.
abbrev pub Detector : Type 0
Detector = List ℕ → Option (List ℕ) → Bool

unfoldable pub attacked : (c : Cipher) → Detector → c.Context → List ℕ → Bool
attacked c detect r src =
    if c.type r == ssh_cipher_idea
    then detect src (some (c.idea_iv r))
    else if c.type r == ssh_cipher_none
    then false
    else detect src none

pub decrypt : (c : Cipher) → Detector → c.Context → List ℕ → Result (List ℕ × c.Context)
unfolding attacked
decrypt c detect r src = do
  guard (length src % 8 == 0) assertion_failed
  guard (not (attacked c detect r src)) (disconnected attack_detected)
  ok (c.decrypt r src)

or_corrupt {ℓ} : {A : Type ℓ} → Option A → Result A
or_corrupt none = err corrupt_stream
or_corrupt (some a) = ok a

module _ {c : Cipher} {z : Codec} {g : Generator} where
  pub start : Packet c z g → ℕ → Packet c z g
  start p type = record p {
    outgoing_packet = Queue.append [] (0 ∷ 0 ∷ 0 ∷ 0 ∷ 0 ∷ 0 ∷ 0 ∷ 0 ∷ byte type ∷ []);
  }

  pub put_char : Packet c z g → ℕ → Packet c z g
  put_char p value = record p { outgoing_packet = Bufaux.put_char p.outgoing_packet value }

  pub put_int : Packet c z g → ℕ → Packet c z g
  put_int p value = record p { outgoing_packet = Bufaux.put_int p.outgoing_packet value }

  pub put_string : Packet c z g → List ℕ → Packet c z g
  put_string p bytes = record p { outgoing_packet = Bufaux.put_string p.outgoing_packet bytes }

  -- The outgoing packet, compressed behind eight new bytes of padding if compression is on.
  unfoldable pub compress_outgoing : Packet c z g → Result (Queue × z.Deflate)
  unfolding compress
  compress_outgoing p =
      if p.packet_compression
      then (Queue.consume p.outgoing_packet 8 >>= λ q.
          let (r, o) = compress z p.outgoing_stream q in ok (Queue.append (replicate 8 0) r, o))
      else ok (p.outgoing_packet, p.outgoing_stream)

  -- `max_packet_size - 30`, in 32 bits.
  unfoldable pub send_limit : Packet c z g → ℕ
  send_limit p = (p.max_packet_size + 2 ^ 32 - 30) % 2 ^ 32

  -- Random padding, unless nothing is encrypted.
  unfoldable pub pad : Packet c z g → ℕ → Queue → Queue × g.State
  pad p padding q =
      if p.cipher_type == ssh_cipher_none
      then (q, p.random_state)
      else fill_padding g padding 0 q p.random_state

  -- From the computation of the length on; `q` is the packet with eight bytes of padding in front.
  unfoldable pub send_padded : Packet c z g → Queue → z.Deflate → Result (Packet c z g)
  unfolding encrypt
  send_padded p q o = do
    let len = length q + 4 - 8
    let padding = 8 - len % 8
    let (filled, r) = pad p padding q
    body ← Queue.consume filled (8 - padding)
    let whole = Queue.append body (put_32bit (crc32 body))
    (sealed, s) ← encrypt c p.send_context whole
    ok (record p {
      output = Queue.append (Queue.append p.output (put_32bit len)) sealed;
      outgoing_packet = [];
      send_context = s;
      outgoing_stream = o;
      random_state = r;
    })

  unfoldable pub send : Packet c z g → Result (Packet c z g)
  unfolding send_limit
  send p =
      if leb (send_limit p) (length p.outgoing_packet)
      then err (packet_too_big (length p.outgoing_packet))
      else (compress_outgoing p >>= λ r. send_padded p r.0 r.1)

  pub uncompress_incoming : Packet c z g → Queue → Result (Queue × z.Inflate)
  unfolding or_corrupt
  uncompress_incoming p payload =
      if p.packet_compression
      then or_corrupt (z.uncompress p.incoming_stream payload)
      else ok (payload, p.incoming_stream)

  -- The packet that stands complete at the front of the input, decrypted and checked, up to the byte
  -- of its type; `len` is its length.
  pub open_packet : Detector → Packet c z g → ℕ → Result (ℕ × Packet c z g)
  unfolding decrypt
  open_packet detect p len = do
    input ← Queue.consume p.input 4
    guard (length p.incoming_packet == 0) (disconnected junk_left)
    (plain, r) ← decrypt c detect p.receive_context (take (padded len) input)
    input' ← Queue.consume input (padded len)
    let checksum = crc32 (take (length plain - 4) plain)
    body ← Queue.consume plain (8 - len % 8)
    guard (len == length body) assertion_failed
    guard (checksum == get_32bit (drop (len - 4) body)) (disconnected corrupted_check_bytes)
    payload ← Queue.consume_end body 4
    (content, i) ← uncompress_incoming p payload
    (buf, rest) ← Queue.get content 1
    ok (
      get_or buf 0 0,
      record p { input = input'; incoming_packet = rest; receive_context = r; incoming_stream = i },
    )

  -- From the label `restart` to the type of the packet; `none` if no packet is there in full.
  pub next_packet : Detector → Packet c z g → Result (Option (ℕ × Packet c z g))
  next_packet detect p =
      let len = get_32bit (take 4 p.input) in
      if ltb (length p.input) (4 + 8)
      then ok none
      else if ltb len (1 + 2 + 2) || ltb (256 * 1024) len
      then err (disconnected (bad_packet_length len))
      else if ltb (length p.input) (4 + padded len)
      then ok none
      else (open_packet detect p len >>= λ r. ok (some r))

  -- `packet_get_string` of a packet that stays within this module.
  pub skip_string : Packet c z g → Result (Packet c z g)
  skip_string p = do
    (text, rest) ← Bufaux.get_string p.incoming_packet
    ok (record p { incoming_packet = rest })

  -- What is done with a packet: `restart` goes on with the next.
  pub dispatch :
      (Packet c z g → Result (ℕ × Packet c z g))
      → Packet c z g
      → Option (ℕ × Packet c z g)
      → Result (ℕ × Packet c z g)
  unfolding skip_string
  dispatch restart p none = ok (ssh_msg_none, p)
  dispatch restart p (some (type, q)) =
      if type == ssh_msg_disconnect
      then (Bufaux.get_string q.incoming_packet >>= λ r. err (told_to_disconnect r.0))
      else if type == ssh_msg_ignore || type == ssh_msg_debug
      then (skip_string q >>= restart)
      else ok (type, q)

  -- The fuel counts the jumps to `restart`, one for each ignored message.
  pub read_poll_loop : ℕ → Detector → Packet c z g → Result (ℕ × Packet c z g)
  read_poll_loop zero detect p = err out_of_fuel
  read_poll_loop (suc fuel) detect p =
      next_packet detect p >>= dispatch (λ q. read_poll_loop fuel detect q) p

  -- Each message takes at least twelve bytes of input, so their number is fuel enough.
  pub read_poll : Detector → Packet c z g → Result (ℕ × Packet c z g)
  read_poll detect p = read_poll_loop (suc (length p.input)) detect p

  pub process_incoming : Packet c z g → List ℕ → Packet c z g
  process_incoming p bytes = record p { input = Queue.append p.input bytes }
