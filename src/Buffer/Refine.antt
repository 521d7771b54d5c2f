-- ===== src/Buffer/Refine.antt =====
-- A valid `Buffer` behaves as the queue of the bytes that it holds.
use ssh_1_history.Prelude.{
  ℕ, ◌+◌, ◌-◌, ◌^◌, ◌≤◌, ◌<◌, ◌≡◌, sym, ap, ◌∙◌, false, List, [], ◌++◌, Result, Failure, ok, err,
  ◌>>=◌, no_memory, length, drop, ltb, arith, Bool-cases, not-ltb→le, inl, inr, ◌⊎◌,
}
use native.Mathlib.Nat.{le_refl, le_trans}
use ssh_1_history.Buffer.{
  Buffer, sub32, add32, len, append, append_space, get, consume, consume_end,
}
use ssh_1_history.Buffer.Memory.{
  Allocator, Refusal, region, splice, length-splice, length-region, region-splice, copy_in-ok,
  copy_out-ok, take-region, drop-region,
}
use ssh_1_history.Buffer.Queue
use ssh_1_history.Buffer.Queue.{Queue}
use ssh_1_history.Buffer.Space.{
  IsValid, contents, sub32_exact, Spaced, room, refused, append_space-Spaced,
}

pub length-contents : (b : Buffer) → IsValid b → length (contents b) ≡ b.end - b.offset
length-contents b v =
    length-region b.buf b.offset (b.end - b.offset) (omega (arith, v.ordered, v.within, v.sized))

-- `buffer_len` is the number of bytes stored.
pub len-contents : (b : Buffer) → IsValid b → len b ≡ length (contents b)
unfolding len
len-contents b v =
    sub32_exact b.end b.offset v.ordered (omega (arith, v.within, v.small))
    ∙ sym (length-contents b v)

-- A buffer that stands for the queue `q`, in a block of at most `bound` bytes.
pub record Holds (q : Queue) (bound : ℕ) (c : Buffer) : Type 0 where
  pub valid : IsValid c
  pub bytes : contents c ≡ q
  pub bounded : c.alloc ≤ bound

region_extended :
    (m : List ℕ) (i cp e : ℕ) (bytes : List ℕ)
    → i ≤ cp
    → e ≡ cp + length bytes
    → e ≤ length m
    → region (splice m cp bytes) i (e - i) ≡ region m i (cp - i) ++ bytes
region_extended m i cp e bytes h k fits =
    let start : cp ≡ i + (cp - i) = omega arith in
    let size : e - i ≡ cp - i + length bytes = omega arith in
    ap (λ t. region (splice m cp bytes) i t) size
    ∙ ap (λ t. region (splice m t bytes) i (cp - i + length bytes)) start
    ∙ region-splice m i (cp - i) bytes (omega arith)

-- `buffer_append` on a valid buffer, while no size wraps: it either stops because a call of
-- `realloc` gave no memory, or copies inside its block and leaves a valid buffer that holds the old bytes with the new
-- ones behind them.
pub append-Holds :
    (a : Allocator) (b : Buffer) (bytes : List ℕ)
    → IsValid b
    → b.alloc + length bytes + 4096 < 2 ^ 32
    → ((append a b bytes ≡ err no_memory) × Refusal a)
      ⊎ ((c : Buffer) × (append a b bytes ≡ ok c)
          × Holds (Queue.append (contents b) bytes) (b.alloc + length bytes + 4096) c)
unfolding append Queue.append
append-Holds a b bytes v small = go (append_space-Spaced a (length bytes) b v small)
  where
    go :
        Spaced a
          (contents b)
          (b.alloc + length bytes + 4096)
          (length bytes)
          (append_space a b (length bytes))
        → ((append a b bytes ≡ err no_memory) × Refusal a)
          ⊎ ((c : Buffer) × (append a b bytes ≡ ok c)
              × Holds (Queue.append (contents b) bytes) (b.alloc + length bytes + 4096) c)
    go (refused e refusal) = inl (rw e, refusal)
    go (room cp c e r) =
        let fits : cp + length bytes ≤ length c.buf = omega (arith, r.valid, r.ends) in
        inr (
          record c { buf = splice c.buf cp bytes },
          rw (e, copy_in-ok c.buf cp bytes fits),
          record {
            valid = omega (arith, r.valid, length-splice c.buf cp bytes fits);
            bytes =
                region_extended c.buf c.offset cp c.end bytes r.starts r.ends
                  (omega (arith, r.valid))
                ∙ ap (λ q. q ++ bytes) r.before;
            bounded = r.bounded;
          },
        )

-- The outcome of an operation on a buffer of at most `bound` bytes, against that of the queue.
pub data Agrees (bound : ℕ) : Result (List ℕ × Buffer) → Result (List ℕ × Queue) → Type 0 where
  both_ok :
      {out : List ℕ} {c : Buffer} {q : Queue}
      → Holds q bound c
      → Agrees bound (ok (out, c)) (ok (out, q))
  both_fail : {e : Failure} → Agrees bound (err e) (err e)

pub Agrees-mono :
    {k l : ℕ} (r : Result (List ℕ × Buffer)) (s : Result (List ℕ × Queue))
    → k ≤ l
    → Agrees k r s
    → Agrees l r s
Agrees-mono (ok (out, c)) (ok (out', q)) le (both_ok h) =
    both_ok (record { valid = h.valid; bytes = h.bytes; bounded = le_trans h.bounded le })
Agrees-mono (ok (out, c)) (err e) le h = elim h [ ]
Agrees-mono (err e) (ok (out, q)) le h = elim h [ ]
Agrees-mono (err e) (err e') le both_fail = both_fail

-- An operation with no output.
abbrev pub silent : {A : Type 0} → Result A → Result (List ℕ × A)
silent r = r >>= λ c. ok ([], c)

module _ (b : Buffer) (n : ℕ) (v : IsValid b) where
  abbrev stored : ℕ
  stored = b.end - b.offset

  sizes : sub32 b.end b.offset ≡ stored
  sizes = sub32_exact b.end b.offset v.ordered (omega (arith, v))

  moved_start : ltb stored n ≡ false → add32 b.offset n ≡ b.offset + n
  moved_start h = omega (arith, v, not-ltb→le stored n h)

  Holds-drop :
      ltb stored n ≡ false
      → Holds (drop n (contents b)) b.alloc (record b { offset = b.offset + n })
  Holds-drop h = record {
    valid = omega (arith, v, not-ltb→le stored n h);
    bytes =
        ap (λ t. region b.buf (b.offset + n) t) (omega (arith, not-ltb→le stored n h))
        ∙ sym (drop-region b.buf b.offset stored n);
    bounded = le_refl _;
  }

  -- On a valid buffer `buffer_get` and the `get` of the queue of its contents both fail, for the same
  -- reason, or both return the same first `n` bytes and hold the same rest; no copy leaves the block.
  pub get-Agrees : Agrees b.alloc (get b n) (Queue.get (contents b) n)
  unfolding get Queue.get
  get-Agrees = elim (Bool-cases (ltb stored n)) [
    | inl few ↦ rw (sizes, length-contents b v, few) both_fail
    | inr enough ↦
        let le : n ≤ stored = not-ltb→le stored n enough in
        rw
          (
            sizes,
            length-contents b v,
            enough,
            copy_out-ok b.buf b.offset n (omega (arith, v)),
            take-region b.buf b.offset stored n le,
            moved_start enough,
          )
          (both_ok (Holds-drop enough))
  ]

  -- On a valid buffer `buffer_consume` and the queue's `consume` both fail, for the same reason, or both
  -- leave the contents without their first `n` bytes, in a valid buffer.
  pub consume-Agrees : Agrees b.alloc (silent (consume b n)) (silent (Queue.consume (contents b) n))
  unfolding consume Queue.consume
  consume-Agrees = elim (Bool-cases (ltb stored n)) [
    | inl few ↦ rw (sizes, length-contents b v, few) both_fail
    | inr enough ↦
        rw (sizes, length-contents b v, enough, moved_start enough) (both_ok (Holds-drop enough))
  ]

  -- On a valid buffer `buffer_consume_end` and the queue's `consume_end` both fail, for the same reason,
  -- or both leave the contents without their last `n` bytes, in a valid buffer.
  pub consume_end-Agrees :
      Agrees b.alloc (silent (consume_end b n)) (silent (Queue.consume_end (contents b) n))
  unfolding consume_end Queue.consume_end
  consume_end-Agrees = elim (Bool-cases (ltb stored n)) [
    | inl few ↦ rw (sizes, length-contents b v, few) both_fail
    | inr enough ↦
        let le : n ≤ stored = not-ltb→le stored n enough in
        let ends : sub32 b.end n ≡ b.end - n = omega (arith, v) in
        rw (sizes, length-contents b v, enough, ends)
          (both_ok (record {
            valid = omega (arith, v);
            bytes =
                ap (region b.buf b.offset) {x = b.end - n - b.offset} (omega arith)
                ∙ sym (take-region b.buf b.offset stored (stored - n) (omega arith));
            bounded = le_refl _;
          }))
  ]
