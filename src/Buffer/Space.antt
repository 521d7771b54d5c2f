-- ===== src/Buffer/Space.antt =====
-- `buffer_append_space`: the loop ends within three rounds, and gives room behind the contents.
use mathlib.Core.Logic.{◌⊎◌, inl, inr}
use ssh_1_history.Prelude.{
  ℕ, suc, ◌+◌, ◌-◌, ◌/◌, ◌^◌, ◌≤◌, ◌<◌, ◌≡◌, refl, sym, ap, subst, ◌∙◌, true, false, List, some,
  Result, ok, err, no_memory, length, ltb, arith, Bool-cases, Option-cases, lt→ltb, ltb→lt, ◌==◌,
}
use ssh_1_history.Buffer.{
  Buffer, add32, sub32, len, clear, move_down, grow, append_space_loop, append_space,
}
use ssh_1_history.Buffer.Memory.{
  Allocator, Refusal, region, splice, length-splice, length-region, region-splice_zero, region-take,
  copy_in-ok, copy_out-ok,
}

-- The pointers are in order, and the block has the size on record.
pub record IsValid (b : Buffer) : Type 0 where
  pub ordered : b.offset ≤ b.end
  pub within : b.end ≤ b.alloc
  pub sized : length b.buf ≡ b.alloc
  pub small : b.alloc < 2 ^ 32

-- The bytes that are stored and not yet consumed.
abbrev pub contents : Buffer → List ℕ
contents b = region b.buf b.offset (b.end - b.offset)

-- The data moves down, and nothing else changes.
pub record Moved (b c : Buffer) : Type 0 where
  pub valid : IsValid c
  pub same : contents c ≡ contents b
  pub offset : c.offset ≡ 0
  pub alloc : c.alloc ≡ b.alloc

pub sub32_exact : (e o : ℕ) → o ≤ e → e < 2 ^ 32 → sub32 e o ≡ e - o
sub32_exact e o h k = omega arith

move_down-Moved : (b : Buffer) → IsValid b → (c : Buffer) × (move_down b ≡ ok c) × Moved b c
unfolding move_down len
move_down-Moved b v =
    let n : ℕ = b.end - b.offset in
    let bytes : List ℕ = contents b in
    let size : length bytes ≡ n = length-region b.buf b.offset n (omega arith) in
    (
      record { buf = splice b.buf 0 bytes; alloc = b.alloc; end = n; offset = 0 },
      rw (
        sub32_exact b.end b.offset v.ordered (omega arith),
        copy_out-ok b.buf b.offset n (omega arith),
        copy_in-ok b.buf 0 bytes (omega arith),
      ),
      record {
        valid = omega (arith, length-splice b.buf 0 bytes (omega arith));
        same = region-splice_zero b.buf bytes (n - 0) (omega arith);
        offset = refl;
        alloc = refl;
      },
    )

-- The block gets larger, and nothing else changes.
record Grown (b : Buffer) (n : ℕ) (c : Buffer) : Type 0 where
  valid : IsValid c
  same : contents c ≡ contents b
  ends : c.end ≡ b.end
  alloc : c.alloc ≡ b.alloc + n + 4096

grow-Grown :
    (a : Allocator) (b : Buffer) (n : ℕ)
    → IsValid b
    → b.alloc + n + 4096 < 2 ^ 32
    → ((grow a b n ≡ err no_memory) × Refusal a)
      ⊎ ((c : Buffer) × (grow a b n ≡ ok c) × Grown b n c)
unfolding grow
grow-Grown a b n v fits = elim (Option-cases (a.realloc b.buf size)) [
  | inl e ↦ inl (rw (exact, e), record { block = b.buf; size = size; turned_down = e })
  | inr (m, e) ↦ inr (record b { buf = m; alloc = size }, rw (exact, e), grown m e)
]
  where
    size : ℕ
    size = b.alloc + n + 4096

    exact : add32 b.alloc (add32 n 4096) ≡ size
    exact = omega arith

    grown :
        (m : List ℕ)
        → a.realloc b.buf size ≡ some m
        → Grown b n (record b { buf = m; alloc = size })
    grown m e =
        let longer : length b.buf ≤ size = omega arith in
        record {
          valid = omega (arith, a.realloc_size b.buf size m e);
          same =
              sym (region-take m (length b.buf) b.offset (b.end - b.offset) (omega arith))
              ∙ ap (λ k. region k b.offset (b.end - b.offset))
                  (a.realloc_keeps b.buf size m e longer);
          ends = refl;
          alloc = refl;
        }

-- Room for `n` bytes from `cp` on, behind the bytes `q`, in a block of at most `bound` bytes.
pub record Room (q : List ℕ) (bound n cp : ℕ) (c : Buffer) : Type 0 where
  pub valid : IsValid c
  pub starts : c.offset ≤ cp
  pub ends : c.end ≡ cp + n
  pub before : region c.buf c.offset (cp - c.offset) ≡ q
  pub bounded : c.alloc ≤ bound

-- The loop's only failure is the allocator's.
pub data Spaced (a : Allocator) (q : List ℕ) (bound n : ℕ) (r : Result (ℕ × Buffer)) : Type 0 where
  room : (cp : ℕ) (c : Buffer) → r ≡ ok (cp, c) → Room q bound n cp c → Spaced a q bound n r
  refused : r ≡ err no_memory → Refusal a → Spaced a q bound n r

module _ (a : Allocator) (n : ℕ) where
  loop_fits :
      (fuel : ℕ) (b : Buffer) (bound : ℕ)
      → IsValid b
      → b.end + n < b.alloc
      → b.alloc ≤ bound
      → Spaced a (contents b) bound n (append_space_loop a (suc fuel) b n)
  unfolding append_space_loop
  loop_fits fuel b bound v fits le =
      let exact : add32 b.end n ≡ b.end + n = omega arith in
      room b.end (record b { end = b.end + n }) (rw (exact, lt→ltb _ _ fits))
        (record {
          valid = omega arith;
          starts = v.ordered;
          ends = refl;
          before = refl;
          bounded = le;
        })

  loop_grows :
      (fuel : ℕ) (b : Buffer)
      → IsValid b
      → b.alloc + n + 4096 < 2 ^ 32
      → ltb (b.alloc / 2) b.offset ≡ false
      → Spaced a (contents b) (b.alloc + n + 4096) n (append_space_loop a (suc (suc fuel)) b n)
  unfolding append_space_loop
  loop_grows fuel b v small low = elim (Bool-cases (ltb (add32 b.end n) b.alloc)) [
    | inl fits ↦
        loop_fits (suc fuel) b (b.alloc + n + 4096) v (omega (arith, ltb→lt _ _ fits)) (omega arith)
    | inr full ↦ elim (grow-Grown a b n v small) [
      | inl (e, refusal) ↦ refused (rw (full, low, e)) refusal
      | inr (c, e, g) ↦
          rw (full, low, e, ← g.same)
            (loop_fits fuel c _ g.valid (omega (arith, g.ends, g.alloc)) (omega (arith, g.alloc)))
    ]
  ]

  loop_moves :
      (b : Buffer)
      → IsValid b
      → b.alloc + n + 4096 < 2 ^ 32
      → Spaced a (contents b) (b.alloc + n + 4096) n (append_space_loop a 3 b n)
  unfolding append_space_loop
  loop_moves b v small = elim (Bool-cases (ltb (b.alloc / 2) b.offset)) [
    | inr low ↦ loop_grows 1 b v small low
    | inl high ↦ elim (Bool-cases (ltb (add32 b.end n) b.alloc)) [
      | inl fits ↦
          loop_fits 2 b (b.alloc + n + 4096) v (omega (arith, ltb→lt _ _ fits)) (omega arith)
      | inr full ↦
          let (c, e, m) = move_down-Moved b v in
          rw (full, high, e, ← m.same)
            (subst (λ k. Spaced a (contents c) (k + n + 4096) n (append_space_loop a 2 c n)) m.alloc
              (loop_grows 0 c m.valid (omega (arith, m.alloc)) (ground (arith, m.offset))))
    ]
  ]

  -- `buffer_append_space` on a valid buffer, with `n` small enough that no size wraps, ends within
  -- its three rounds. It either stops because `realloc` gave no memory, or returns an index with
  -- room for `n` bytes directly behind unchanged contents, in a valid buffer that has grown by at
  -- most `n + 4096` bytes.
  pub append_space-Spaced :
      (b : Buffer)
      → IsValid b
      → b.alloc + n + 4096 < 2 ^ 32
      → Spaced a (contents b) (b.alloc + n + 4096) n (append_space a b n)
  unfolding append_space clear
  append_space-Spaced b v small = elim (Bool-cases (b.offset == b.end)) [
    | inr used ↦ rw used (loop_moves b v small)
    | inl empty ↦ rw empty (
        subst (λ q. Spaced a q (b.alloc + n + 4096) n (append_space_loop a 3 (clear b) n))
          (none_left empty) (loop_moves (clear b) (omega arith) small))
  ]
    where
      none_left : (b.offset == b.end) ≡ true → contents (clear b) ≡ contents b
      none_left h = let e : b.end - b.offset ≡ 0 = ground arith in rw e
