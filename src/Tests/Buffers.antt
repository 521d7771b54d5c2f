-- ===== src/Tests/Buffers.antt =====
-- buffer.c at a concrete buffer, with a `malloc` that always has memory.
use ssh_1_history.Prelude.{
  ℕ, ◌-◌, ◌≤◌, ◌≡◌, ◌⊎◌, refl, sym, ap, ◌∙◌, List, [], ◌∷◌, ◌++◌, some, ok, err, no_memory, length,
  some-injective, replicate, take, length-append, length-take, length-replicate, take_all,
  take-append, arith,
}
use ssh_1_history.Buffer
use ssh_1_history.Buffer.{Buffer}
use ssh_1_history.Buffer.Memory.{Allocator, Refusal}
use ssh_1_history.Buffer.Queue
use ssh_1_history.Buffer.Space.{IsValid, contents, Spaced, append_space-Spaced}
use ssh_1_history.Buffer.Refine.{Holds, append-Holds}
use ssh_1_history.Buffer.Run.{Op, put, fetch, skip, trim, run, queue_run, run_refines}

abbrev resized : List ℕ → ℕ → List ℕ
resized old n = take n old ++ replicate (n - length old) 0

length-resized : (old : List ℕ) (n : ℕ) → length (resized old n) ≡ n
length-resized old n = omega (
  arith,
  length-append (take n old) (replicate (n - length old) 0),
  length-take n old,
  length-replicate {A = ℕ} (n - length old) 0,
)

take-resized : (old : List ℕ) (n : ℕ) → length old ≤ n → take (length old) (resized old n) ≡ old
take-resized old n h =
    rw (take_all n old h) (take-append (length old) old (replicate (n - length old) 0) refl)

plenty : Allocator
plenty = record {
  malloc = λ n. some (replicate n 0);
  realloc = λ old n. some (resized old n);
  malloc_size = λ n m e. ap length (sym (some-injective e)) ∙ length-replicate n 0;
  realloc_size = λ old n m e. ap length (sym (some-injective e)) ∙ length-resized old n;
  realloc_keeps =
      λ old n m e h. ap (take (length old)) (sym (some-injective e)) ∙ take-resized old n h;
}

abbrev three : Buffer
three = record { buf = 1 ∷ 2 ∷ 3 ∷ 4 ∷ 5 ∷ 6 ∷ 7 ∷ 8 ∷ []; alloc = 8; offset = 4; end = 7 }

three-IsValid : IsValid three
three-IsValid = omega arith

append_space-Spaced_example :
    Spaced plenty (contents three) 4108 4 (Buffer.append_space plenty three 4)
append_space-Spaced_example = append_space-Spaced plenty 4 three three-IsValid (omega arith)

append-Holds_example :
    ((Buffer.append plenty three (9 ∷ 9 ∷ []) ≡ err no_memory) × Refusal plenty)
    ⊎ ((c : Buffer) × (Buffer.append plenty three (9 ∷ 9 ∷ []) ≡ ok c)
        × Holds (Queue.append (contents three) (9 ∷ 9 ∷ [])) 4106 c)
append-Holds_example = append-Holds plenty three (9 ∷ 9 ∷ []) three-IsValid (omega arith)

abbrev calls : List Op
calls = put (9 ∷ 9 ∷ 9 ∷ []) ∷ fetch 2 ∷ trim 1 ∷ skip 1 ∷ fetch 5 ∷ []

run_refines_example : run plenty three calls ≡ queue_run (contents three) calls
unfolding plenty
run_refines_example = run_refines plenty three calls (λ m n e. cc) three-IsValid (omega arith)
