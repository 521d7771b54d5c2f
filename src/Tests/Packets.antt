-- ===== src/Tests/Packets.antt =====
-- The packet protocol with the cipher `none`, a codec that marks its output, and a generator that counts.
use ssh_1_history.Prelude.{
  ℕ, ◌+◌, ◌%◌, ◌*◌, ◌<◌, ◌≡◌, refl, true, false, List, [], ◌∷◌, ◌++◌, Option, none, some, ok, drop,
  Ensures, arith,
}
use ssh_1_history.Cipher.{Codec, Generator}
use ssh_1_history.Cipher.Instances.{cipher_none}
use ssh_1_history.Buffer.Queue
use ssh_1_history.Crc32
use ssh_1_history.Bufaux.{byte, put_32bit}
use ssh_1_history.Packet
use ssh_1_history.Packet.{Packet, Detector}
use ssh_1_history.Packet.Build.{put-IsBuilt}
use ssh_1_history.Packet.Send.{Sent, send_padded-Sent}
use ssh_1_history.Packet.RoundTrip.{IsBuilt, InStep, wire, send_succeeds, next_packet-send}
use ssh_1_history.Packet.Poll.{Visible, read_poll-Visible}

abbrev unmark : List ℕ → Option (List ℕ × Unit {0})
unmark [] = none
unmark (c ∷ s) = some (s, tt)

abbrev marking : Codec
marking = record {
  Deflate = Unit;
  Inflate = Unit;
  compress = λ o src. (1 ∷ src, o);
  uncompress = λ i src. unmark src;
  Synced = λ o i. Unit;
  compress-IsByte = λ o src bytes. (omega arith, bytes);
  compress_some = λ o src. omega arith;
  uncompress-compress = λ o i src synced. (tt, refl, tt);
}

abbrev counting : Generator
counting = record {
  State = ℕ;
  get_byte = λ s. (s % 256, s + 1);
  get_byte-IsByte = λ s. omega arith;
}

-- A side that has just been set up, with or without compression.
abbrev fresh : Packet cipher_none marking counting
fresh = record {
  input = [];
  output = [];
  outgoing_packet = [];
  incoming_packet = [];
  packet_compression = true;
  cipher_type = 0;
  send_context = tt;
  receive_context = tt;
  outgoing_stream = tt;
  incoming_stream = tt;
  random_state = 0;
  max_packet_size = 256 * 1024;
  interactive_mode = false;
}

abbrev quiet : Detector
quiet src iv = false

-- A message of type 16 that carries two bytes.
abbrev built : Packet cipher_none marking counting
built = record fresh { outgoing_packet = 0 ∷ 0 ∷ 0 ∷ 0 ∷ 0 ∷ 0 ∷ 0 ∷ 0 ∷ 16 ∷ 5 ∷ 6 ∷ [] }

built-IsBuilt : IsBuilt built 16 (5 ∷ 6 ∷ [])
built-IsBuilt = record {
  front = 0 ∷ 0 ∷ 0 ∷ 0 ∷ 0 ∷ 0 ∷ 0 ∷ 0 ∷ [];
  eight = refl;
  parts = refl;
  bytes = omega arith;
}

put-IsBuilt_example :
    IsBuilt (Packet.put_char built 7) 16 (5 ∷ 6 ∷ byte 7 ∷ [])
    × IsBuilt (Packet.put_int built 7) 16 (5 ∷ 6 ∷ put_32bit 7)
    × IsBuilt (Packet.put_string built (8 ∷ [])) 16 (5 ∷ 6 ∷ (put_32bit 1 ++ (8 ∷ [])))
put-IsBuilt_example = put-IsBuilt built 16 (5 ∷ 6 ∷ []) 7 (8 ∷ []) built-IsBuilt (omega arith)

send_padded-Sent_example :
    (p' : Packet cipher_none marking counting) × (Packet.send_padded built built.outgoing_packet tt
      ≡ ok p')
    × Sent built built.outgoing_packet tt p'
send_padded-Sent_example =
    send_padded-Sent built built.outgoing_packet tt (omega arith) (omega arith)

small : 11 < Packet.send_limit built
unfolding Packet.send_limit
small = omega arith

send_succeeds_example :
    (p' : Packet cipher_none marking counting) × (Packet.send built ≡ ok p')
    × (p'.outgoing_packet ≡ [])
send_succeeds_example = send_succeeds built 16 (5 ∷ 6 ∷ []) built-IsBuilt small

read_poll-Visible_example : Ensures Visible (Packet.read_poll quiet fresh)
read_poll-Visible_example = read_poll-Visible quiet fresh

abbrev built_sent : Packet cipher_none marking counting
built_sent = record built {
  output =
      0 ∷ 0 ∷ 0 ∷ 8 ∷ 0 ∷ 0 ∷ 0 ∷ 0 ∷ 0 ∷ 0 ∷ 0 ∷ 0 ∷ 1 ∷ 16 ∷ 5 ∷ 6 ∷ 48 ∷ 142 ∷ 149 ∷ 101 ∷ [];
  outgoing_packet = [];
}

sends : Packet.send built ≡ ok built_sent
unfolding Packet.send Packet.send_limit Packet.compress_outgoing Packet.compress Packet.send_padded
    Packet.pad Packet.encrypt Queue.append Queue.consume put_32bit Crc32.crc32 Crc32.crc32_from
    Crc32.crc32_update Crc32.crc32_tab
sends = refl

-- A receiver into whose input the message has come, and three bytes of the next.
abbrev reader : Packet cipher_none marking counting
reader = record fresh { input = wire built built_sent ++ (1 ∷ 2 ∷ 3 ∷ []) }

in_step : InStep built reader
in_step = record { ciphers = tt; streams = tt; compression = refl }

calm : Packet.attacked cipher_none quiet tt (drop 4 (wire built built_sent)) ≡ false
unfolding Packet.attacked
calm = refl

next_packet-send_example :
    (q' : Packet cipher_none marking counting) × (Packet.next_packet quiet reader
      ≡ ok (some (16, q')))
    × (q'.incoming_packet ≡ 5 ∷ 6 ∷ [])
    × (q'.input ≡ 1 ∷ 2 ∷ 3 ∷ [])
    × InStep built_sent q'
next_packet-send_example =
    next_packet-send quiet built built_sent reader 16 (5 ∷ 6 ∷ []) (1 ∷ 2 ∷ 3 ∷ []) built-IsBuilt
      small sends in_step refl refl (omega arith) calm
