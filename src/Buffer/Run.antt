-- ===== src/Buffer/Run.antt =====
-- A client's calls of buffer.c in order, against the same calls on a queue.
use ssh_1_history.Prelude.{
  ℕ, ◌+◌, ◌^◌, ◌<◌, ◌≤◌, ◌≡◌, ◌≢◌, refl, ap, ◌∙◌, List, [], ◌∷◌, Result, ok, err, length, arith,
  inl, inr, none,
}
use ssh_1_history.Buffer
use ssh_1_history.Buffer.{Buffer}
use ssh_1_history.Buffer.Memory.{Allocator}
use ssh_1_history.Buffer.Queue
use ssh_1_history.Buffer.Queue.{Queue}
use ssh_1_history.Buffer.Space.{IsValid, contents}
use ssh_1_history.Buffer.Refine.{
  Agrees, both_ok, both_fail, silent, Agrees-mono, append-Holds, get-Agrees, consume-Agrees,
  consume_end-Agrees,
}

pub data Op : Type 0 where
  put : List ℕ → Op
  fetch skip trim : ℕ → Op

pub step : Allocator → Buffer → Op → Result (List ℕ × Buffer)
step a b (put bytes) = silent (Buffer.append a b bytes)
step a b (fetch n) = Buffer.get b n
step a b (skip n) = silent (Buffer.consume b n)
step a b (trim n) = silent (Buffer.consume_end b n)

pub queue_step : Queue → Op → Result (List ℕ × Queue)
queue_step q (put bytes) = ok ([], Queue.append q bytes)
queue_step q (fetch n) = Queue.get q n
queue_step q (skip n) = silent (Queue.consume q n)
queue_step q (trim n) = silent (Queue.consume_end q n)

-- What each call returns, up to the first that ends the process.
pub run : Allocator → Buffer → List Op → List (Result (List ℕ))
run a b [] = []
run a b (op ∷ ops) = elim (step a b op) [ ok (out, c) ↦ ok out ∷ run a c ops | err e ↦ err e ∷ [] ]

pub queue_run : Queue → List Op → List (Result (List ℕ))
queue_run q [] = []
queue_run q (op ∷ ops) = elim (queue_step q op) [
  | ok (out, r) ↦ ok out ∷ queue_run r ops
  | err e ↦ err e ∷ []
]

-- By how much a call may let the block grow.
abbrev pub growth : Op → ℕ
growth (put bytes) = length bytes + 4096
growth (fetch n) = 0
growth (skip n) = 0
growth (trim n) = 0

abbrev pub total_growth : List Op → ℕ
total_growth [] = 0
total_growth (op ∷ ops) = growth op + total_growth ops

abbrev pub NeverFull : Allocator → Type 0
NeverFull a = (m : List ℕ) (n : ℕ) → a.realloc m n ≢ none

step-Agrees :
    (a : Allocator) (b : Buffer) (op : Op)
    → NeverFull a
    → IsValid b
    → b.alloc + growth op < 2 ^ 32
    → Agrees (b.alloc + growth op) (step a b op) (queue_step (contents b) op)
unfolding step queue_step
step-Agrees a b (put bytes) never v small = elim (append-Holds a b bytes v (omega arith)) [
  | inl (e, r) ↦ absurd (never r.block r.size r.turned_down)
  | inr (c, e, h) ↦
      rw e
        (both_ok (record { valid = h.valid; bytes = h.bytes; bounded = omega (arith, h.bounded) }))
]
step-Agrees a b (fetch n) never v small = Agrees-mono _ _ (omega arith) (get-Agrees b n v)
step-Agrees a b (skip n) never v small = Agrees-mono _ _ (omega arith) (consume-Agrees b n v)
step-Agrees a b (trim n) never v small = Agrees-mono _ _ (omega arith) (consume_end-Agrees b n v)

abbrev after {ℓ} :
    {S : Type ℓ} → (S → List (Result (List ℕ))) → Result (List ℕ × S) → List (Result (List ℕ))
after rest r = elim r [ ok (out, s) ↦ ok out ∷ rest s | err e ↦ err e ∷ [] ]

after-Agrees :
    {bound : ℕ} (f : Buffer → List (Result (List ℕ))) (g : Queue → List (Result (List ℕ)))
    (r : Result (List ℕ × Buffer)) (s : Result (List ℕ × Queue))
    → Agrees bound r s
    → ((c : Buffer) → IsValid c → c.alloc ≤ bound → f c ≡ g (contents c))
    → after f r ≡ after g s
after-Agrees f g (ok (out, c)) (ok (out', q)) (both_ok h) rest =
    ap (λ t. ok out ∷ t) (rest c h.valid h.bounded ∙ ap g h.bytes)
after-Agrees f g (err e) (err e') both_fail rest = refl
after-Agrees f g (ok (out, c)) (err e) h rest = elim h [ ]
after-Agrees f g (err e) (ok (out, q)) h rest = elim h [ ]

-- While no size can wrap and `realloc` finds memory, no sequence of calls tells a valid buffer from
-- the queue of its contents: every call returns the same bytes, and a call ends the process exactly
-- when the queue's does, for the same reason.
pub run_refines :
    (a : Allocator) (b : Buffer) (ops : List Op)
    → NeverFull a
    → IsValid b
    → b.alloc + total_growth ops < 2 ^ 32
    → run a b ops ≡ queue_run (contents b) ops
unfolding run queue_run
run_refines a b [] never v small = refl
run_refines a b (op ∷ ops) never v small =
    after-Agrees (λ c. run a c ops) (λ q. queue_run q ops) (step a b op)
      (queue_step (contents b) op) (step-Agrees a b op never v (omega arith))
      (λ c w le. run_refines a c ops never w (omega arith))
