-- ===== src/Packet/Receive.antt =====
-- What `packet_read_poll` makes of the bytes that `packet_send` put on the wire.
use ssh_1_history.Prelude.{
  ℕ, ◌+◌, ◌-◌, ◌*◌, ◌%◌, ◌≤◌, ◌≡◌, refl, sym, ap, ◌∙◌, true, false, ◌||◌, List, [], ◌∷◌, ◌++◌, ok,
  some, length, take, drop, length-append, length-drop, take-append, drop-append, drop-append_short,
  ltb, ◌==◌, ==_iff, arith,
}
use ssh_1_history.Buffer.Queue
use ssh_1_history.Buffer.Queue.{Queue}
use ssh_1_history.Bufaux.{put_32bit, get_32bit}
use ssh_1_history.Bufaux.Words.{get_32bit-put_32bit}
use ssh_1_history.Crc32.{crc32}
use ssh_1_history.Crc32.Detects.{crc32-IsWord}
use ssh_1_history.Cipher.{Cipher, Codec, Generator}
use ssh_1_history.Packet.{
  Packet, Detector, padded, attacked, decrypt, uncompress_incoming, open_packet, next_packet,
}
use ssh_1_history.Packet.Send.{padding, length-put_32bit}

pub consume-front :
    (n : ℕ) (xs rest : List ℕ) → n ≡ length xs → Queue.consume (xs ++ rest) n ≡ ok rest
unfolding Queue.consume
consume-front n xs rest e =
    let enough : ltb (length (xs ++ rest)) n ≡ false = ground (arith, length-append xs rest) in
    rw (enough, drop-append n xs rest e)

consume-within :
    (n : ℕ) (xs ys : List ℕ) → n ≤ length xs → Queue.consume (xs ++ ys) n ≡ ok (drop n xs ++ ys)
unfolding Queue.consume
consume-within n xs ys h =
    let enough : ltb (length (xs ++ ys)) n ≡ false = ground (arith, length-append xs ys) in
    rw (enough, drop-append_short n xs ys h)

get_first : (type : ℕ) (payload : List ℕ) → Queue.get (type ∷ payload) 1 ≡ ok (type ∷ [], payload)
unfolding Queue.get
get_first type payload =
    let enough : ltb (length (type ∷ payload)) 1 ≡ false = ground arith in rw enough

consume_end-back : (n : ℕ) (xs ys : List ℕ) → n ≡ length ys → Queue.consume_end (xs ++ ys) n ≡ ok xs
unfolding Queue.consume_end
consume_end-back n xs ys e =
    let enough : ltb (length (xs ++ ys)) n ≡ false = ground (arith, length-append xs ys) in
    let rest : length (xs ++ ys) - n ≡ length xs = omega (arith, length-append xs ys) in
    rw (enough, take-append (length (xs ++ ys) - n) xs ys rest)

module _ {c : Cipher} {z : Codec} {g : Generator} where
  -- What stands at the front of the input: `len`, and `sealed`, which decrypts to `whole`: padding,
  -- the content `text` and its check sum. `type` and `payload` are what `text` stands for.
  pub record Arrived (detect : Detector) (p : Packet c z g) (type : ℕ) (payload more : List ℕ)
      : Type 0 where
    pub len : ℕ
    pub sealed : List ℕ
    pub body : List ℕ
    pub text : List ℕ
    pub stream : z.Inflate
    pub least : 5 ≤ len
    pub most : len ≤ 256 * 1024
    pub input : p.input ≡ put_32bit len ++ (sealed ++ more)
    pub size : length sealed ≡ padding len + len
    pub plain : (c.decrypt p.receive_context sealed).0 ≡ body ++ put_32bit (crc32 body)
    pub body_size : length body + 4 ≡ padding len + len
    pub content : drop (padding len) body ≡ text
    pub calm : attacked c detect p.receive_context sealed ≡ false
    pub empty : p.incoming_packet ≡ []
    pub expands : uncompress_incoming p text ≡ ok (type ∷ payload, stream)

  -- The state behind that packet.
  abbrev pub behind :
      (detect : Detector) (p : Packet c z g) (type : ℕ) (payload more : List ℕ)
      → Arrived detect p type payload more
      → Packet c z g
  behind detect p type payload more a = record p {
    input = more;
    incoming_packet = payload;
    receive_context = (c.decrypt p.receive_context a.sealed).1;
    incoming_stream = a.stream;
  }

  module _ (detect : Detector) (p : Packet c z g) (type : ℕ) (payload more : List ℕ)
      (a : Arrived detect p type payload more) where
    open a use {len, sealed, body, text}

    decrypt-sealed :
        decrypt c detect p.receive_context (take (padded len) (sealed ++ more))
        ≡ ok (body ++ put_32bit (crc32 body), (c.decrypt p.receive_context sealed).1)
    unfolding decrypt
    decrypt-sealed =
        let exact : take (padded len) (sealed ++ more) ≡ sealed =
          take-append (padded len) sealed more (omega (arith, a.size)) in
        let blocks : (length sealed % 8 == 0) ≡ true = (==_iff _ 0).1 (omega (arith, a.size)) in
        rw (exact, blocks, a.calm, ← a.plain)

    abbrev sum : ℕ
    sum = crc32 body

    -- Everything but the last four bytes.
    check_sum_over : take (length (body ++ put_32bit sum) - 4) (body ++ put_32bit sum) ≡ body
    check_sum_over =
        take-append _ body (put_32bit sum)
          (omega (arith, length-append body (put_32bit sum), length-put_32bit sum))

    text_length : length text ≡ len - 4
    text_length =
        omega (arith, ap length a.content, length-drop (padding len) body, a.body_size, a.least)

    whole_length : (len == length (text ++ put_32bit sum)) ≡ true
    whole_length = (==_iff len _).1 (
        omega
          (arith, length-append text (put_32bit sum), text_length, length-put_32bit sum, a.least))

    check_sum_back : get_32bit (drop (len - 4) (text ++ put_32bit sum)) ≡ sum
    check_sum_back =
        ap get_32bit (drop-append (len - 4) text (put_32bit sum) (sym text_length))
        ∙ get_32bit-put_32bit sum (crc32-IsWord body)

    same_sum : (sum == sum) ≡ true
    same_sum = (==_iff sum sum).1 refl

    open_packet-Arrived : open_packet detect p len ≡ ok (type, behind detect p type payload more a)
    unfolding open_packet uncompress_incoming
    open_packet-Arrived = rw (
      a.input,
      consume-front 4 (put_32bit len) (sealed ++ more) (sym (length-put_32bit len)),
      a.empty,
      decrypt-sealed,
      consume-front (padded len) sealed more (omega (arith, a.size)),
      check_sum_over,
      consume-within (padding len) body (put_32bit sum) (omega (arith, a.body_size)),
      a.content,
      whole_length,
      check_sum_back,
      same_sum,
      consume_end-back 4 text (put_32bit sum) (sym (length-put_32bit sum)),
      a.expands,
      get_first type payload,
    )

    -- A packet that has arrived in full is taken off the input, decrypted and checked; its type is
    -- returned and its payload left to be read.
    pub next_packet-Arrived :
        next_packet detect p ≡ ok (some (type, behind detect p type payload more a))
    unfolding next_packet
    next_packet-Arrived =
        let head : get_32bit (take 4 p.input) ≡ len =
          ap (λ q. get_32bit (take 4 q)) a.input
          ∙ ap get_32bit
              (take-append 4 (put_32bit len) (sealed ++ more) (sym (length-put_32bit len)))
          ∙ get_32bit-put_32bit len (omega (arith, a.most)) in
        let all_there : length p.input ≡ 4 + (padding len + len + length more) = omega (
          arith,
          ap length a.input,
          length-append (put_32bit len) (sealed ++ more),
          length-append sealed more,
          length-put_32bit len,
          a.size,
        ) in
        let long : ltb (length p.input) (4 + 8) ≡ false = ground (arith, a.least) in
        let good : (ltb len (1 + 2 + 2) || ltb (256 * 1024) len) ≡ false =
          ground (arith, a.least, a.most) in
        let whole : ltb (length p.input) (4 + padded len) ≡ false = ground arith in
        rw (head, long, good, whole, open_packet-Arrived)
