-- ===== src/Packet/Send.antt =====
-- What `packet_send` puts on the wire: a length, then the encryption of padding, content and check
-- sum, in whole blocks of eight bytes.
use ssh_1_history.Prelude.{
  ℕ, zero, suc, ◌+◌, ◌-◌, ◌%◌, ◌≤◌, ◌≡◌, refl, ap, ◌∙◌, true, false, List, [], ◌++◌, ok, length,
  drop, set, length-set, length-drop, length-append, drop-drop, drop-set, All, All-set, All-append,
  All-drop, ltb, ◌==◌, ==_iff, arith, Bool-cases, inl, inr,
}
use ssh_1_history.Buffer.Queue
use ssh_1_history.Buffer.Queue.{Queue}
use ssh_1_history.Bufaux.{put_32bit}
use ssh_1_history.Crc32.{crc32}
use ssh_1_history.Cipher.{Cipher, Codec, Generator, IsByte, ssh_cipher_none}
use ssh_1_history.Packet.{Packet, fill_padding, encrypt, pad, send_padded}

-- A change of the eight bytes in front alone.
record SameBehind (q q' : Queue) : Type 0 where
  size : length q' ≡ length q
  behind : drop 8 q' ≡ drop 8 q
  bytes : All IsByte q → All IsByte q'

fill_padding-SameBehind :
    (g : Generator) (left i : ℕ) (q : Queue) (r : g.State)
    → i + left ≤ 8
    → SameBehind q (fill_padding g left i q r).0
unfolding fill_padding
fill_padding-SameBehind g zero i q r h = record { size = refl; behind = refl; bytes = λ b. b }
fill_padding-SameBehind g (suc left) i q r h =
    let v : ℕ = (g.get_byte r).0 in
    let rest =
      fill_padding-SameBehind g left (i + 1) (set q (7 - i) v) (g.get_byte r).1 (omega arith) in
    record {
      size = rest.size ∙ length-set q (7 - i) v;
      behind = rest.behind ∙ drop-set 8 (7 - i) q v (omega arith);
      bytes = λ b. rest.bytes (All-set IsByte q (7 - i) v b (g.get_byte-IsByte r));
    }

pub put_32bit-IsByte : (v : ℕ) → All IsByte (put_32bit v)
unfolding put_32bit
put_32bit-IsByte v = omega arith

pub length-put_32bit : (v : ℕ) → length (put_32bit v) ≡ 4
unfolding put_32bit
length-put_32bit v = refl

-- How many bytes of padding stand in front of a packet of length `len`.
abbrev pub padding : ℕ → ℕ
padding len = 8 - len % 8

module _ {c : Cipher} {z : Codec} {g : Generator} where
  -- The packet `q`, without its eight bytes in front, was sent from `p` behind the padding of `body`.
  pub record Sent (p : Packet c z g) (q : Queue) (o : z.Deflate) (p' : Packet c z g) : Type 0 where
    pub body : List ℕ
    pub whole : List ℕ
    pub len : ℕ
    pub len_eq : len ≡ length q - 4
    pub whole_eq : whole ≡ body ++ put_32bit (crc32 body)
    pub content : drop (padding len) body ≡ drop 8 q
    pub size : length whole ≡ padding len + len
    pub bytes : All IsByte whole
    pub output : p'.output ≡ (p.output ++ put_32bit len) ++ (c.encrypt p.send_context whole).0
    pub context : p'.send_context ≡ (c.encrypt p.send_context whole).1
    pub stream : p'.outgoing_stream ≡ o
    pub cleared : p'.outgoing_packet ≡ []
    pub input : p'.input ≡ p.input
    pub incoming : p'.incoming_packet ≡ p.incoming_packet
    pub compression : p'.packet_compression ≡ p.packet_compression
    pub reading : p'.receive_context ≡ p.receive_context

  pad-SameBehind : (p : Packet c z g) (n : ℕ) (q : Queue) → n ≤ 8 → SameBehind q (pad p n q).0
  unfolding pad
  pad-SameBehind p n q h = elim (Bool-cases (p.cipher_type == ssh_cipher_none)) [
    | inl plain ↦ rw plain (record { size = refl; behind = refl; bytes = λ b. b })
    | inr sealed ↦ rw sealed (fill_padding-SameBehind g n 0 q p.random_state (omega arith))
  ]

  -- Of a packet with its eight bytes of padding and at least one more byte, made of bytes, the rest
  -- of `packet_send` always succeeds.
  pub send_padded-Sent :
      (p : Packet c z g) (q : Queue) (o : z.Deflate)
      → 9 ≤ length q
      → All IsByte q
      → (p' : Packet c z g) × (send_padded p q o ≡ ok p') × Sent p q o p'
  unfolding send_padded Queue.consume Queue.append encrypt
  send_padded-Sent p q o long bytes = (
    record p {
      output = (p.output ++ put_32bit len) ++ (c.encrypt p.send_context whole).0;
      outgoing_packet = [];
      send_context = (c.encrypt p.send_context whole).1;
      outgoing_stream = o;
      random_state = (pad p (padding len) q).1;
    },
    rw (room, blocks),
    record {
      body = body;
      whole = whole;
      len = len;
      len_eq = omega arith;
      whole_eq = refl;
      content =
          drop-drop (padding len) (8 - padding len) filled
          ∙ ap (λ k. drop k filled) {y = 8} (omega arith)
          ∙ same.behind;
      size = size;
      bytes =
          All-append IsByte body (put_32bit (crc32 body))
            (All-drop IsByte (8 - padding len) filled (same.bytes bytes))
            (put_32bit-IsByte (crc32 body));
      output = refl;
      context = refl;
      stream = refl;
      cleared = refl;
      input = refl;
      incoming = refl;
      compression = refl;
      reading = refl;
    },
  )
    where
      len : ℕ
      len = length q + 4 - 8

      filled : Queue
      filled = (pad p (padding len) q).0

      same : SameBehind q filled
      same = pad-SameBehind p (padding len) q (omega arith)

      body : List ℕ
      body = drop (8 - padding len) filled

      whole : List ℕ
      whole = body ++ put_32bit (crc32 body)

      size : length whole ≡ padding len + len
      size = omega (
        arith,
        length-append body (put_32bit (crc32 body)),
        length-put_32bit (crc32 body),
        length-drop (8 - padding len) filled,
        same.size,
      )

      room : ltb (length filled) (8 - padding len) ≡ false
      room = ground (arith, same.size)

      blocks : (length whole % 8 == 0) ≡ true
      blocks = (==_iff _ 0).1 (omega (arith, size))
