-- ===== src/Arcfour/Permutation.antt =====
-- The 256 bytes of the state are always the numbers 0 to 255 in some order.
use ssh_1_history.Prelude.{
  ℕ, zero, suc, ◌+◌, ◌<◌, ◌≤◌, ◌≡◌, refl, ap, ◌∙◌, inl, inr, List, ok, length, get_or, set,
  length-set, get_or-set_self, get_or-set_ne, ltb, ltb→lt, lt→ltb, arith, Bool-cases, ◌==◌,
  if◌then◌else◌,
}
use ssh_1_history.Prelude.Bits.{bit_and}
use ssh_1_history.Prelude.Bits.Fields.{and_mask}
use ssh_1_history.Prelude.Counting.{count, count-set, count-get_or, one_if_eq}
use ssh_1_history.Arcfour.{ArcfourContext, swap, count_up, key_loop, init, next_byte}

-- Each number below 256 stands in the state exactly once, and nothing else stands there.
pub record IsPermutation (s : List ℕ) : Type 0 where
  pub size : length s ≡ 256
  pub once : (a : ℕ) → count a s ≡ (if ltb a 256 then 1 else 0)

pub record IsValid (ctx : ArcfourContext) : Type 0 where
  pub permutation : IsPermutation ctx.state
  pub x_in : ctx.x < 256
  pub y_in : ctx.y < 256

length-swap : (s : List ℕ) (i j : ℕ) → length (swap s i j) ≡ length s
unfolding swap
length-swap s i j =
    length-set (set s j (get_or s i 0)) i (get_or s j 0) ∙ length-set s j (get_or s i 0)

-- The entry at `i` after the first write of an exchange is still the old one.
first_write :
    (s : List ℕ) (i j : ℕ) → j < length s → get_or (set s j (get_or s i 0)) i 0 ≡ get_or s i 0
first_write s i j h = elim (Bool-cases (i == j)) [
  | inl same ↦
      let e : i ≡ j = ground arith in
      ap (λ k. get_or (set s j (get_or s i 0)) k 0) e ∙ get_or-set_self s j (get_or s i 0) 0 h
  | inr other ↦ get_or-set_ne s j i (get_or s i 0) 0 (ground arith)
]

count-swap :
    (a : ℕ) (s : List ℕ) (i j : ℕ) → i < length s → j < length s → count a (swap s i j) ≡ count a s
unfolding swap
count-swap a s i j hi hj =
    let first : List ℕ = set s j (get_or s i 0) in
    let kept : one_if_eq a (get_or first i 0) ≡ one_if_eq a (get_or s i 0) =
      ap (one_if_eq a) (first_write s i j hj) in
    omega (
      arith,
      kept,
      count-set a s j (get_or s i 0) hj,
      count-set a first i (get_or s j 0) (omega (arith, length-set s j (get_or s i 0))),
    )

swap-IsPermutation :
    (s : List ℕ) (i j : ℕ) → IsPermutation s → i < 256 → j < 256 → IsPermutation (swap s i j)
swap-IsPermutation s i j p hi hj = record {
  size = length-swap s i j ∙ p.size;
  once = λ a. count-swap a s i j (omega (arith, p.size)) (omega (arith, p.size)) ∙ p.once a;
}

low_byte-lt : (n : ℕ) → bit_and n 0xff < 256
low_byte-lt n = omega (arith, and_mask 8 n)

key_loop-IsPermutation :
    (key : List ℕ) (left counter keyindex stateindex : ℕ) (s : List ℕ)
    → counter + left ≤ 256
    → IsPermutation s
    → IsPermutation (key_loop key left counter keyindex stateindex s)
unfolding key_loop
key_loop-IsPermutation key zero counter keyindex stateindex s h p = p
key_loop-IsPermutation key (suc left) counter keyindex stateindex s h p =
    key_loop-IsPermutation key left (counter + 1) _ _ _ (omega arith)
      (swap-IsPermutation s counter _ p (omega arith) (low_byte-lt _))

count-count_up :
    (a n c : ℕ) → count a (count_up n c) ≡ (if ltb a c then 0 else if ltb a (c + n) then 1 else 0)
unfolding count_up
count-count_up a zero c = ground arith
count-count_up a (suc n) c = ground (arith, count-count_up a n (c + 1))

length-count_up : (n c : ℕ) → length (count_up n c) ≡ n
unfolding count_up
length-count_up zero c = refl
length-count_up (suc n) c = ap suc (length-count_up n (c + 1))

entry-lt : (s : List ℕ) (i : ℕ) → IsPermutation s → i < 256 → get_or s i 0 < 256
entry-lt s i p h = elim (Bool-cases (ltb (get_or s i 0) 256)) [
  | inl below ↦ ltb→lt _ _ below
  | inr above ↦
      let none_there : count (get_or s i 0) s ≡ 0 = p.once (get_or s i 0) ∙ rw above in
      absurd (omega (arith, none_there, count-get_or s i (omega (arith, p.size))))
]

-- `arcfour_init` accepts every key that is not empty, and starts from a state that holds
-- each of the numbers 0 to 255 exactly once.
pub init-IsValid :
    (key : List ℕ) → 0 < length key → (ctx : ArcfourContext) × (init key ≡ ok ctx) × IsValid ctx
unfolding init
init-IsValid key h = (
  record { state = key_loop key 256 0 0 0 (count_up 256 0); x = 0; y = 0 },
  rw (lt→ltb 0 (length key) h),
  record {
    permutation = key_loop-IsPermutation key 256 0 0 0 (count_up 256 0) (omega arith) start;
    x_in = omega arith;
    y_in = omega arith;
  },
)
  where
    start : IsPermutation (count_up 256 0)
    start = record {
      size = length-count_up 256 0;
      once = λ a. count-count_up a 256 0 ∙ ground arith;
    }

-- From a context whose state is a permutation of 0 to 255 and whose indices are in range, `arcfour_byte`
-- returns a number below 256 and leaves such a context behind.
pub next_byte-IsValid :
    (ctx : ArcfourContext) → IsValid ctx → ((next_byte ctx).0 < 256) × IsValid (next_byte ctx).1
unfolding next_byte
next_byte-IsValid ctx v =
    let x = bit_and (ctx.x + 1) 0xff in
    let y = bit_and (get_or ctx.state x 0 + ctx.y) 0xff in
    let p : IsPermutation (swap ctx.state x y) =
      swap-IsPermutation ctx.state x y v.permutation (low_byte-lt _) (low_byte-lt _) in
    (
      entry-lt (swap ctx.state x y) _ p (low_byte-lt _),
      record { permutation = p; x_in = low_byte-lt _; y_in = low_byte-lt _ },
    )
