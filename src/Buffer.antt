-- ===== src/Buffer.antt =====
-- buffer.c: a growing byte queue in one block of memory, and xmalloc.c below it. The functions are
-- buffer_init, buffer_clear, buffer_append, ... without their prefix. Sizes are `unsigned int` of
-- 32 bits and wrap. A copy outside the block is `undefined_behaviour`.
pub mod Memory
pub mod Queue
pub mod Space
pub mod Refine
pub mod Run
use ssh_1_history.Prelude.{
  ℕ, zero, suc, ◌+◌, ◌-◌, ◌/◌, ◌%◌, ◌^◌, List, Option, none, some, Result, ok, err, ◌>>=◌,
  no_memory, too_many_bytes, out_of_fuel, length, replicate, ltb, ◌==◌, if◌then◌else◌,
}
use Memory.{Allocator, region, copy_in, copy_out}

pub record Buffer : Type 0 where
  pub buf : List ℕ
  pub alloc : ℕ
  pub offset : ℕ
  pub end : ℕ

abbrev pub add32 : ℕ → ℕ → ℕ
add32 a b = (a + b) % 2 ^ 32

abbrev pub sub32 : ℕ → ℕ → ℕ
sub32 a b = (a + 2 ^ 32 - b) % 2 ^ 32

abbrev or_no_memory : Option (List ℕ) → Result (List ℕ)
or_no_memory none = err no_memory
or_no_memory (some m) = ok m

pub clear : Buffer → Buffer
clear b = record b { offset = 0; end = 0 }

pub len : Buffer → ℕ
len b = sub32 b.end b.offset

pub get : Buffer → ℕ → Result (List ℕ × Buffer)
unfolding len
get b n =
    if ltb (len b) n
    then err too_many_bytes
    else (copy_out b.buf b.offset n >>= λ out. ok (out, record b { offset = add32 b.offset n }))

pub consume : Buffer → ℕ → Result Buffer
unfolding len
consume b n =
    if ltb (len b) n then err too_many_bytes else ok (record b { offset = add32 b.offset n })

pub consume_end : Buffer → ℕ → Result Buffer
unfolding len
consume_end b n =
    if ltb (len b) n then err too_many_bytes else ok (record b { end = sub32 b.end n })

-- `memmove` of the data to the beginning, in the loop of `buffer_append_space`.
pub move_down : Buffer → Result Buffer
unfolding len
move_down b = do
  bytes ← copy_out b.buf b.offset (len b)
  m ← copy_in b.buf 0 bytes
  ok (record b { buf = m; end = len b; offset = 0 })

-- `buffer_free` hands the block back to `free` with every byte cleared.
pub free : Buffer → Result (List ℕ)
free b = copy_in b.buf 0 (replicate b.alloc 0)

-- The index of the first byte that is not yet consumed.
pub ptr : Buffer → ℕ
ptr b = b.offset

module _ (a : Allocator) where
  pub xmalloc : ℕ → Result (List ℕ)
  xmalloc n = or_no_memory (a.malloc n)

  pub xrealloc : List ℕ → ℕ → Result (List ℕ)
  xrealloc m n = or_no_memory (a.realloc m n)

  pub init : Result Buffer
  unfolding xmalloc
  init = do m ← xmalloc 4096; ok (record { buf = m; alloc = 4096; offset = 0; end = 0 })

  pub grow : Buffer → ℕ → Result Buffer
  unfolding xrealloc
  grow b n = do
    let size = add32 b.alloc (add32 n 4096)
    m ← xrealloc b.buf size
    ok (record b { buf = m; alloc = size })

  -- From the label `restart`; the fuel counts the jumps to it.
  pub append_space_loop : ℕ → Buffer → ℕ → Result (ℕ × Buffer)
  append_space_loop zero b n = err out_of_fuel
  append_space_loop (suc fuel) b n =
      let moved = move_down b >>= λ c. append_space_loop fuel c n in
      let grown = grow b n >>= λ c. append_space_loop fuel c n in
      if ltb (add32 b.end n) b.alloc
      then ok (b.end, record b { end = add32 b.end n })
      else if ltb (b.alloc / 2) b.offset
      then moved
      else grown

  -- The result is the index where the caller may write, and the buffer.
  pub append_space : Buffer → ℕ → Result (ℕ × Buffer)
  append_space b n = append_space_loop 3 (if b.offset == b.end then clear b else b) n

  pub append : Buffer → List ℕ → Result Buffer
  append b bytes = do
    (cp, c) ← append_space b (length bytes)
    m ← copy_in c.buf cp bytes
    ok (record c { buf = m })
