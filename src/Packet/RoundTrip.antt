-- ===== src/Packet/RoundTrip.antt =====
-- From `packet_send` on one side to `packet_read_poll` on the other.
use ssh_1_history.Prelude.{
  ℕ, ◌+◌, ◌*◌, ◌≤◌, ◌<◌, ◌≡◌, refl, sym, ap, subst, ◌∙◌, ok-injective, false, List, [], ◌∷◌, ◌++◌,
  append_assoc, ok, some, length, drop, replicate, length-append, drop-append, All, All-append,
  All-drop, leb, arith, Bool-cases, inl, inr,
}
use ssh_1_history.Buffer.Queue
use ssh_1_history.Buffer.Queue.{Queue}
use ssh_1_history.Bufaux.{put_32bit}
use ssh_1_history.Crc32.{crc32}
use ssh_1_history.Cipher.{Cipher, Codec, Generator, IsByte}
use ssh_1_history.Packet.{
  Packet, Detector, attacked, compress, compress_outgoing, send_limit, send, or_corrupt,
  uncompress_incoming, next_packet,
}
use ssh_1_history.Packet.Send.{Sent, padding, send_padded-Sent, length-put_32bit}
use ssh_1_history.Packet.Receive.{Arrived, behind, next_packet-Arrived, consume-front}

module _ {c : Cipher} {z : Codec} {g : Generator} where
  -- A packet under construction: eight bytes for padding, its type, its payload; all of them bytes.
  pub record IsBuilt (p : Packet c z g) (type : ℕ) (payload : List ℕ) : Type 0 where
    pub front : List ℕ
    pub eight : length front ≡ 8
    pub parts : p.outgoing_packet ≡ front ++ (type ∷ payload)
    pub bytes : All IsByte p.outgoing_packet

  -- The sender `p` and the receiver `q` agree on compression and are in step.
  pub record InStep (p q : Packet c z g) : Type 0 where
    pub ciphers : c.Synced p.send_context q.receive_context
    pub streams : z.Synced p.outgoing_stream q.incoming_stream
    pub compression : q.packet_compression ≡ p.packet_compression

  -- What `packet_send` takes over from compression, and that the receiver's stream undoes it.
  record Squeezed (p : Packet c z g) (text : List ℕ) (r : Queue) (o : z.Deflate) : Type 0 where
    long : 9 ≤ length r
    bytes : All IsByte r
    undone :
        (q : Packet c z g)
        → z.Synced p.outgoing_stream q.incoming_stream
        → q.packet_compression ≡ p.packet_compression
        → (j : z.Inflate) × (uncompress_incoming q (drop 8 r) ≡ ok (text, j)) × z.Synced o j

  compress_outgoing-Squeezed :
      (p : Packet c z g) (type : ℕ) (payload : List ℕ)
      → IsBuilt p type payload
      → (r : Queue) × (o : z.Deflate) × (compress_outgoing p ≡ ok (r, o))
        × Squeezed p (type ∷ payload) r o
  unfolding compress_outgoing compress uncompress_incoming or_corrupt Queue.append
  compress_outgoing-Squeezed p type payload b = elim (Bool-cases p.packet_compression) [
    | inr plain ↦ (
      p.outgoing_packet,
      p.outgoing_stream,
      rw plain,
      record {
        long = omega (arith, ap length b.parts, length-append b.front (type ∷ payload), b.eight);
        bytes = b.bytes;
        undone = λ q streams same. (
          q.incoming_stream,
          rw (same, plain, b.parts, drop-append 8 b.front (type ∷ payload) (sym b.eight)),
          streams,
        );
      },
    )
    | inl on ↦
        let text : List ℕ = type ∷ payload in
        let clean : All IsByte text =
          subst (All IsByte) (ap (drop 8) b.parts ∙ drop-append 8 b.front text (sym b.eight))
            (All-drop IsByte 8 p.outgoing_packet b.bytes) in
        let (out, o) = z.compress p.outgoing_stream text in
        (
          replicate 8 0 ++ out,
          o,
          rw (on, b.parts, consume-front 8 b.front text (sym b.eight)),
          record {
            long = omega (arith, z.compress_some p.outgoing_stream text);
            bytes =
                All-append IsByte (replicate 8 0) out (omega arith)
                  (z.compress-IsByte p.outgoing_stream text clean);
            undone = λ q streams same.
                let (j, e, k) =
                  z.uncompress-compress p.outgoing_stream q.incoming_stream text streams in
                (j, rw (same, on, e), k);
          },
        )
  ]

  -- `packet_send` succeeds on every built packet below the limit.
  send-Sent :
      (p : Packet c z g) (type : ℕ) (payload : List ℕ)
      → IsBuilt p type payload
      → length p.outgoing_packet < send_limit p
      → (r : Queue) × (o : z.Deflate) × (p' : Packet c z g) × (send p ≡ ok p')
        × Sent p r o p'
        × Squeezed p (type ∷ payload) r o
  unfolding send
  send-Sent p type payload b small =
      let (r, o, e, sq) = compress_outgoing-Squeezed p type payload b in
      let (p', e', s) = send_padded-Sent p r o sq.long sq.bytes in
      let fits : leb (send_limit p) (length p.outgoing_packet) ≡ false = ground arith in
      (r, o, p', rw (fits, e, e'), s, sq)

  -- What a call of `packet_send` added to the output.
  abbrev pub wire : Packet c z g → Packet c z g → List ℕ
  wire p p' = drop (length p.output) p'.output

  wire-Sent :
      (p p' : Packet c z g) (r : Queue) (o : z.Deflate) (s : Sent p r o p')
      → wire p p' ≡ put_32bit s.len ++ (c.encrypt p.send_context s.whole).0
  wire-Sent p p' r o s =
      ap (drop (length p.output)) (s.output ∙ append_assoc p.output (put_32bit s.len) _)
      ∙ drop-append (length p.output) p.output _ refl

  module _ (detect : Detector) (p p' q : Packet c z g) (type : ℕ) (payload more : List ℕ)
      (r : Queue) (o : z.Deflate) (s : Sent p r o p') (sq : Squeezed p (type ∷ payload) r o)
      (step : InStep p q) (empty : q.incoming_packet ≡ []) (input : q.input ≡ wire p p' ++ more)
      (fits : length (wire p p') ≤ 256 * 1024)
      (calm : attacked c detect q.receive_context (drop 4 (wire p p')) ≡ false) where
    abbrev sealed : List ℕ
    sealed = (c.encrypt p.send_context s.whole).0

    wire_is : wire p p' ≡ put_32bit s.len ++ sealed
    wire_is = wire-Sent p p' r o s

    sealed_size : length sealed ≡ padding s.len + s.len
    sealed_size = c.length-encrypt p.send_context s.whole ∙ s.size

    opened :
        ((c.decrypt q.receive_context sealed).0 ≡ s.whole)
        × c.Synced (c.encrypt p.send_context s.whole).1 (c.decrypt q.receive_context sealed).1
    opened =
        c.decrypt-encrypt p.send_context q.receive_context s.whole step.ciphers
          (omega (arith, s.size)) s.bytes

    expanded :
        (j : z.Inflate) × (uncompress_incoming q (drop 8 r) ≡ ok (type ∷ payload, j)) × z.Synced o j
    expanded = sq.undone q step.streams step.compression

    wire-Arrived : Arrived detect q type payload more
    wire-Arrived = record {
      len = s.len;
      sealed = sealed;
      body = s.body;
      text = drop 8 r;
      stream = expanded.0;
      least = omega (arith, s.len_eq, sq.long);
      most = omega (
        arith,
        ap length wire_is,
        length-append (put_32bit s.len) sealed,
        length-put_32bit s.len,
        sealed_size,
        fits,
      );
      input = input ∙ ap (λ w. w ++ more) wire_is ∙ append_assoc (put_32bit s.len) sealed more;
      size = sealed_size;
      plain = opened.0 ∙ s.whole_eq;
      body_size = omega (
        arith,
        ap length s.whole_eq,
        length-append s.body (put_32bit (crc32 s.body)),
        length-put_32bit (crc32 s.body),
        s.size,
      );
      content = s.content;
      calm =
          ap (λ w. attacked c detect q.receive_context w)
            (sym (
              ap (drop 4) wire_is
              ∙ drop-append 4 (put_32bit s.len) sealed (sym (length-put_32bit s.len))))
          ∙ calm;
      empty = empty;
      expands = expanded.1;
    }

    behind-InStep : InStep p' (behind detect q type payload more wire-Arrived)
    unfolding wire-Arrived
    behind-InStep = record {
      ciphers =
          subst (λ t. c.Synced t (c.decrypt q.receive_context sealed).1) (sym s.context) opened.1;
      streams = subst (λ t. z.Synced t expanded.0) (sym s.stream) expanded.2;
      compression = step.compression ∙ sym s.compression;
    }

    received :
        (q' : Packet c z g) × (next_packet detect q ≡ ok (some (type, q')))
        × (q'.incoming_packet ≡ payload)
        × (q'.input ≡ more)
        × InStep p' q'
    received = (
      behind detect q type payload more wire-Arrived,
      next_packet-Arrived detect q type payload more wire-Arrived,
      refl,
      refl,
      behind-InStep,
    )

  -- `packet_send` does not fail on a packet of bytes that was built by `packet_start` and is below
  -- the size limit.
  pub send_succeeds :
      (p : Packet c z g) (type : ℕ) (payload : List ℕ)
      → IsBuilt p type payload
      → length p.outgoing_packet < send_limit p
      → (p' : Packet c z g) × (send p ≡ ok p') × (p'.outgoing_packet ≡ [])
  send_succeeds p type payload b small =
      let (r, o, p', e, s, sq) = send-Sent p type payload b small in (p', e, s.cleared)

  -- What one side sends the other receives. The sender holds a built packet of bytes below its
  -- limit; the receiver is in step with it, has read its last packet to the end, and its input
  -- begins with what this call of `packet_send` put out, at most 256 kB, in which the attack
  -- detector finds nothing. Then the receiver takes the packet off its input with nothing else,
  -- returns its type, holds its payload, and the two are in step again; with or without compression.
  pub next_packet-send :
      (detect : Detector) (p p' q : Packet c z g) (type : ℕ) (payload more : List ℕ)
      → IsBuilt p type payload
      → length p.outgoing_packet < send_limit p
      → send p ≡ ok p'
      → InStep p q
      → q.incoming_packet ≡ []
      → q.input ≡ wire p p' ++ more
      → length (wire p p') ≤ 256 * 1024
      → attacked c detect q.receive_context (drop 4 (wire p p')) ≡ false
      → (q' : Packet c z g) × (next_packet detect q ≡ ok (some (type, q')))
        × (q'.incoming_packet ≡ payload)
        × (q'.input ≡ more)
        × InStep p' q'
  next_packet-send detect p p' q type payload more b small sends step empty input fits calm =
      let (r, o, p'', e, s, sq) = send-Sent p type payload b small in
      let same : p'' ≡ p' = ok-injective (sym e ∙ sends) in
      received detect p p' q type payload more r o (subst (λ t. Sent p r o t) same s) sq step empty
        input fits calm
