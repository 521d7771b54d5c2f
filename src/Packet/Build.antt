-- ===== src/Packet/Build.antt =====
-- Between `packet_start` and `packet_send`: the packet under construction.
use ssh_1_history.Prelude.{
  ℕ, ◌≡◌, refl, ap, ◌∙◌, List, [], ◌∷◌, ◌++◌, append_assoc, length, All, All-append, arith,
}
use ssh_1_history.Buffer.Queue
use ssh_1_history.Bufaux
use ssh_1_history.Bufaux.{byte, put_32bit}
use ssh_1_history.Cipher.{Cipher, Codec, Generator, IsByte}
use ssh_1_history.Packet.{Packet, start, put_char, put_int, put_string}
use ssh_1_history.Packet.Send.{put_32bit-IsByte}
use ssh_1_history.Packet.RoundTrip.{IsBuilt}

module _ {c : Cipher} {z : Codec} {g : Generator} where
  -- `packet_start` throws away what was begun before and begins a packet of the type's low byte with
  -- an empty payload.
  pub start-IsBuilt : (p : Packet c z g) (type : ℕ) → IsBuilt (start p type) (byte type) []
  unfolding start Queue.append
  start-IsBuilt p type = record {
    front = 0 ∷ 0 ∷ 0 ∷ 0 ∷ 0 ∷ 0 ∷ 0 ∷ 0 ∷ [];
    eight = refl;
    parts = refl;
    bytes = omega arith;
  }

  -- Bytes appended to the packet are appended to its payload.
  extended :
      (p q : Packet c z g) (type : ℕ) (payload more : List ℕ)
      → IsBuilt p type payload
      → q.outgoing_packet ≡ p.outgoing_packet ++ more
      → All IsByte more
      → IsBuilt q type (payload ++ more)
  extended p q type payload more b e bytes = record {
    front = b.front;
    eight = b.eight;
    parts = e ∙ ap (λ t. t ++ more) b.parts ∙ append_assoc b.front (type ∷ payload) more;
    bytes = rw e (All-append IsByte p.outgoing_packet more b.bytes bytes);
  }

  -- The three calls that add to a packet under construction keep it one, and append to its payload a
  -- byte, an integer's four bytes, or a string of bytes behind its length.
  pub put-IsBuilt :
      (p : Packet c z g) (type : ℕ) (payload : List ℕ) (v : ℕ) (s : List ℕ)
      → IsBuilt p type payload
      → All IsByte s
      → IsBuilt (put_char p v) type (payload ++ (byte v ∷ []))
        × IsBuilt (put_int p v) type (payload ++ put_32bit v)
        × IsBuilt (put_string p s) type (payload ++ (put_32bit (length s) ++ s))
  unfolding put_char put_int put_string Bufaux.put_char Bufaux.put_int Bufaux.put_string
      Queue.append
  put-IsBuilt p type payload v s b bytes = (
    extended p (put_char p v) type payload (byte v ∷ []) b refl (omega arith),
    extended p (put_int p v) type payload (put_32bit v) b refl (put_32bit-IsByte v),
    extended p (put_string p s) type payload (put_32bit (length s) ++ s) b
        (append_assoc p.outgoing_packet (put_32bit (length s)) s)
        (All-append IsByte (put_32bit (length s)) s (put_32bit-IsByte (length s)) bytes),
  )
