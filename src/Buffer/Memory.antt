-- ===== src/Buffer/Memory.antt =====
-- Blocks of memory: what `malloc` and `realloc` of the C library promise, and copies with their
-- bounds.
use ssh_1_history.Prelude.{
  ℕ, zero, suc, ◌+◌, ◌-◌, ◌≤◌, ◌≡◌, refl, ap, ◌∙◌, List, [], ◌∷◌, ◌++◌, Option, none, some, Result,
  ok, err, undefined_behaviour, length, take, drop, length-take, length-drop, length-append,
  take-append, drop-drop, leb, le→leb, if◌then◌else◌, arith,
}

-- A block that is handed out has the size asked for, with any contents; `realloc` keeps what fits.
-- `none` is a null pointer.
pub record Allocator : Type 0 where
  pub malloc : ℕ → Option (List ℕ)
  pub realloc : List ℕ → ℕ → Option (List ℕ)
  pub malloc_size : (n : ℕ) (m : List ℕ) → malloc n ≡ some m → length m ≡ n
  pub realloc_size : (old : List ℕ) (n : ℕ) (m : List ℕ) → realloc old n ≡ some m → length m ≡ n
  pub realloc_keeps :
      (old : List ℕ) (n : ℕ) (m : List ℕ)
      → realloc old n ≡ some m
      → length old ≤ n
      → take (length old) m ≡ old

-- A request that `realloc` turned down.
pub record Refusal (a : Allocator) : Type 0 where
  pub block : List ℕ
  pub size : ℕ
  pub turned_down : a.realloc block size ≡ none

-- The `n` bytes from index `i` on.
abbrev pub region : List ℕ → ℕ → ℕ → List ℕ
region m i n = take n (drop i m)

-- The block with `bytes` written from index `i` on.
unfoldable pub splice : List ℕ → ℕ → List ℕ → List ℕ
splice m zero bytes = bytes ++ drop (length bytes) m
splice [] (suc i) bytes = []
splice (x ∷ m) (suc i) bytes = x ∷ splice m i bytes

unfoldable pub copy_in : List ℕ → ℕ → List ℕ → Result (List ℕ)
copy_in m i bytes =
    if leb (i + length bytes) (length m) then ok (splice m i bytes) else err undefined_behaviour

unfoldable pub copy_out : List ℕ → ℕ → ℕ → Result (List ℕ)
copy_out m i n = if leb (i + n) (length m) then ok (region m i n) else err undefined_behaviour

pub length-splice :
    (m : List ℕ) (i : ℕ) (bytes : List ℕ)
    → i + length bytes ≤ length m
    → length (splice m i bytes) ≡ length m
unfolding splice
length-splice m zero bytes h =
    omega (arith, length-append bytes (drop (length bytes) m), length-drop (length bytes) m)
length-splice [] (suc i) bytes h = refl
length-splice (x ∷ m) (suc i) bytes h = omega (arith, length-splice m i bytes)

pub length-region : (m : List ℕ) (i n : ℕ) → i + n ≤ length m → length (region m i n) ≡ n
length-region m i n h = omega (arith, length-take n (drop i m), length-drop i m)

-- Writing just behind a region extends it.
pub region-splice :
    (m : List ℕ) (i n : ℕ) (bytes : List ℕ)
    → i + n + length bytes ≤ length m
    → region (splice m (i + n) bytes) i (n + length bytes) ≡ region m i n ++ bytes
unfolding splice
region-splice m zero zero bytes h = take-append (0 + length bytes) bytes _ (omega arith)
region-splice [] zero (suc n) bytes h = absurd (omega arith)
region-splice (x ∷ m) zero (suc n) bytes h =
    let e : 0 + suc n ≡ suc (0 + n) = omega arith in
    let f : suc n + length bytes ≡ suc (n + length bytes) = omega arith in
    rw (e, f) (ap (λ t. x ∷ t) (region-splice m zero n bytes (omega arith)))
region-splice [] (suc i) n bytes h = absurd (omega arith)
region-splice (x ∷ m) (suc i) n bytes h =
    let e : suc i + n ≡ suc (i + n) = omega arith in rw e (region-splice m i n bytes (omega arith))

-- Writing a list at the beginning makes it the first region.
pub region-splice_zero :
    (m bytes : List ℕ) (n : ℕ) → n ≡ length bytes → region (splice m 0 bytes) 0 n ≡ bytes
unfolding splice
region-splice_zero m bytes n e = take-append n bytes _ e

pub region-take : (m : List ℕ) (k i n : ℕ) → i + n ≤ k → region (take k m) i n ≡ region m i n
region-take m zero zero zero h = refl
region-take m zero zero (suc n) h = absurd (omega arith)
region-take m zero (suc i) n h = absurd (omega arith)
region-take [] (suc k) i n h = refl
region-take (x ∷ m) (suc k) zero zero h = refl
region-take (x ∷ m) (suc k) zero (suc n) h = ap (λ t. x ∷ t) (region-take m k zero n (omega arith))
region-take (x ∷ m) (suc k) (suc i) n h = region-take m k i n (omega arith)

take-take : (k n : ℕ) (m : List ℕ) → k ≤ n → take k (take n m) ≡ take k m
take-take zero n m h = refl
take-take (suc k) zero m h = absurd (omega arith)
take-take (suc k) (suc n) [] h = refl
take-take (suc k) (suc n) (x ∷ m) h = ap (λ t. x ∷ t) (take-take k n m (omega arith))

drop-take : (k n : ℕ) (m : List ℕ) → drop k (take n m) ≡ take (n - k) (drop k m)
drop-take zero n m = ap (λ t. take t m) (omega arith)
drop-take (suc k) zero m = let e : 0 - suc k ≡ 0 = omega arith in rw e
drop-take (suc k) (suc n) [] = take_none (suc n - suc k)
  where
    take_none : (j : ℕ) → [] ≡ take {A = ℕ} j []
    take_none zero = refl
    take_none (suc j) = refl
drop-take (suc k) (suc n) (x ∷ m) =
    let e : suc n - suc k ≡ n - k = omega arith in rw e (drop-take k n m)

-- The first `k` bytes of a region, and the rest of it.
pub take-region : (m : List ℕ) (i n k : ℕ) → k ≤ n → take k (region m i n) ≡ region m i k
take-region m i n k h = take-take k n (drop i m) h

pub drop-region : (m : List ℕ) (i n k : ℕ) → drop k (region m i n) ≡ region m (i + k) (n - k)
drop-region m i n k = drop-take k n (drop i m) ∙ ap (take (n - k)) (drop-drop k i m)

pub copy_in-ok :
    (m : List ℕ) (i : ℕ) (bytes : List ℕ)
    → i + length bytes ≤ length m
    → copy_in m i bytes ≡ ok (splice m i bytes)
unfolding copy_in
copy_in-ok m i bytes h = rw (le→leb _ _ h)

pub copy_out-ok : (m : List ℕ) (i n : ℕ) → i + n ≤ length m → copy_out m i n ≡ ok (region m i n)
unfolding copy_out
copy_out-ok m i n h = rw (le→leb _ _ h)
