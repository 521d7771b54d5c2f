-- ===== src/Channels/Table/Allocation.antt =====
-- `channel_allocate` finds or makes a free slot.
use ssh_1_history.Prelude.{
  ℕ, zero, suc, ◌+◌, ◌≤◌, ◌<◌, ◌≡◌, ◌≢◌, refl, sym, ap, subst, ◌∙◌, inl, inr, true, false, List, [],
  ◌∷◌, ◌++◌, Option, none, some, ok, err, internal_bug, length, get_or, set, replicate, drop,
  length-append, drop-append, get_or-set_ne, get_or-set_self, ltb, ◌==◌, if◌then◌else◌, arith,
  Bool-cases,
}
use ssh_1_history.Channels.{ChannelType, is_free, Channel, Channels, blank, slot}
use ssh_1_history.Channels.Table.{find_free, make_room, occupy, allocate}
use ssh_1_history.Channels.Invariant.{in_use, busy, busy-set, IsValid, slot-put}

-- While not all slots are in use, the search finds one that is not.
find_free-found :
    (i : ℕ) (xs : List Channel)
    → busy xs < length xs
    → (j : ℕ) × (find_free i xs ≡ some (i + j))
      × (j < length xs)
      × (is_free (get_or xs j blank).type ≡ true)
unfolding find_free
find_free-found i [] h = absurd (omega arith)
find_free-found i (ch ∷ chs) h = elim (Bool-cases (is_free ch.type)) [
  | inl empty ↦ let e : i ≡ i + 0 = omega arith in (0, rw empty (ap some e), omega arith, empty)
  | inr taken ↦
      let one : in_use ch ≡ 1 = rw taken in
      let (j, e, inside, empty) = find_free-found (i + 1) chs (omega arith) in
      let n : i + 1 + j ≡ i + suc j = omega arith in
      (suc j, rw taken (e ∙ ap some n), omega arith, empty)
]

busy-le : (xs : List Channel) → busy xs ≤ length xs
busy-le [] = omega arith
busy-le (ch ∷ chs) = elim (Bool-cases (is_free ch.type)) [
  | inl empty ↦ let e : in_use ch ≡ 0 = rw empty in omega (arith, busy-le chs)
  | inr taken ↦ let e : in_use ch ≡ 1 = rw taken in omega (arith, busy-le chs)
]

busy-append : (xs ys : List Channel) → busy (xs ++ ys) ≡ busy xs + busy ys
busy-append [] ys = omega arith
busy-append (x ∷ xs) ys = omega (arith, busy-append xs ys)

get_or-blank : (n j : ℕ) → get_or (replicate n blank) j blank ≡ blank
get_or-blank zero j = refl
get_or-blank (suc n) zero = refl
get_or-blank (suc n) (suc j) = get_or-blank n j

-- Slots added behind the table are like the slots that are not there.
get_or-append_blank :
    (xs : List Channel) (n j : ℕ) → get_or (xs ++ replicate n blank) j blank ≡ get_or xs j blank
get_or-append_blank [] n j = get_or-blank n j
get_or-append_blank (x ∷ xs) n zero = refl
get_or-append_blank (x ∷ xs) n (suc j) = get_or-append_blank xs n j

-- The table `t` is `s` with room, and the search from `i` finds the free slot `k`.
record Roomy (s : Channels) (i : ℕ) (t : Channels) : Type 0 where
  k : ℕ
  found : find_free i (drop i t.slots) ≡ some k
  inside : k < length t.slots
  empty : is_free (slot t k).type ≡ true
  used : t.used ≡ s.used
  count : busy t.slots ≡ busy s.slots
  same : (j : ℕ) → slot t j ≡ slot s j

-- A full table gets ten slots more.
extended :
    (s : Channels)
    → s.used ≡ length s.slots
    → Roomy s s.used (record s { slots = s.slots ++ replicate 10 blank })
unfolding find_free
extended s full = record {
  k = s.used;
  found = rw (drop-append s.used s.slots (replicate 10 blank) full);
  inside = omega (arith, length-append s.slots (replicate 10 blank));
  empty =
      ap (λ ch. is_free ch.type) (get_or-append_blank s.slots 10 s.used)
      ∙ outside s.slots s.used (omega arith);
  used = refl;
  count = omega (arith, busy-append s.slots (replicate 10 blank));
  same = get_or-append_blank s.slots 10;
}
  where
    outside : (xs : List Channel) (i : ℕ) → length xs ≤ i → is_free (get_or xs i blank).type ≡ true
    outside [] i h = refl
    outside (x ∷ xs) zero h = absurd (omega arith)
    outside (x ∷ xs) (suc i) h = outside xs i (omega arith)

with_room : (s : Channels) → busy s.slots < length s.slots → Roomy s 0 s
with_room s room =
    let (j, e, inside, empty) = find_free-found 0 s.slots room in
    let n : 0 + j ≡ j = omega arith in
    record {
      k = j;
      found = e ∙ ap some n;
      inside = inside;
      empty = empty;
      used = refl;
      count = refl;
      same = λ j. refl;
    }

no_slots : (xs : List Channel) → length xs ≡ 0 → xs ≡ []
no_slots [] e = refl
no_slots (x ∷ xs) e = absurd (omega arith)

-- The first ten slots.
started : (s : Channels) → s.slots ≡ [] → Roomy s 0 (record s { slots = replicate 10 blank })
started s e =
    let r = with_room (record s { slots = replicate 10 blank }) (omega arith) in
    record {
      k = r.k;
      found = r.found;
      inside = r.inside;
      empty = r.empty;
      used = refl;
      count = ap busy (sym e);
      same = λ j. get_or-blank 10 j ∙ ap (λ xs. get_or xs j blank) (sym e);
    }

make_room-Roomy : (s : Channels) → s.used ≡ busy s.slots → Roomy s (make_room s).0 (make_room s).1
unfolding make_room
make_room-Roomy s counted = elim (Bool-cases (length s.slots == 0)) [
  | inl none_yet ↦
      let e : s.slots ≡ [] = no_slots s.slots (ground arith) in
      let unused : (s.used == 10) ≡ false = ground (arith, counted, ap busy e) in
      rw (none_yet, unused) (started s e)
  | inr some_there ↦ elim (Bool-cases (s.used == length s.slots)) [
    | inl full ↦ rw (some_there, full) (extended s (ground arith))
    | inr room ↦ rw (some_there, room) (with_room s (ground (arith, busy-le s.slots)))
  ]
]

-- The new channel has the index `k`: a free slot or one behind the table; the others are as before.
pub record Allocated (s : Channels) (type : ChannelType) (sock k : ℕ) (t : Channels) : Type 0 where
  pub valid : IsValid t
  pub was_free : is_free (slot s k).type ≡ true
  pub type_is : (slot t k).type ≡ type
  pub sock_is : (slot t k).sock ≡ sock
  pub local_is : (slot t k).local_id ≡ k
  pub others : (j : ℕ) → j ≢ k → slot t j ≡ slot s j
  pub one_more : t.used ≡ s.used + 1

occupy-Allocated :
    (s : Channels) (i : ℕ) (t : Channels) (r : Roomy s i t) (type : ChannelType) (sock : ℕ)
    (name : Option (List ℕ))
    → IsValid s
    → is_free type ≡ false
    → Allocated s type sock r.k (occupy t r.k type sock name)
unfolding occupy
occupy-Allocated s i t r type sock name v live =
    let ch : Channel = record blank {
      type = type;
      sock = sock;
      local_id = r.k;
      remote_name = name;
    } in
    let here : get_or (set t.slots r.k ch) r.k blank ≡ ch =
      get_or-set_self t.slots r.k ch blank r.inside in
    let now : in_use ch ≡ 1 = rw live in
    let before : in_use (slot t r.k) ≡ 0 = rw (r.empty) in
    record {
      valid = record {
        counted =
            omega
              (arith, v.counted, r.used, r.count, busy-set t.slots r.k ch r.inside, now, before);
        own = λ j.
            slot-put (λ k. is_free k.type ≡ false → k.local_id ≡ j) t r.k j ch r.inside
              (λ e taken. sym e)
              (λ e.
                subst (λ k. is_free k.type ≡ false → k.local_id ≡ j) (sym (r.same j)) (v.own j));
      };
      was_free = ap (λ k. is_free k.type) (sym (r.same r.k)) ∙ r.empty;
      type_is = ap (λ k. k.type) here;
      sock_is = ap (λ k. k.sock) here;
      local_is = ap (λ k. k.local_id) here;
      others = λ j d. get_or-set_ne t.slots r.k j ch blank (λ e. d (sym e)) ∙ r.same j;
      one_more = ap (λ n. n + 1) r.used;
    }

-- On a consistent table, `channel_allocate` of a type that is not SSH_CHANNEL_FREE never fails. The
-- new channel takes a slot that was free or is new, has the type and the socket asked for and knows
-- its index; all other slots are as before, one more channel is counted, and the table is consistent.
pub allocate-Allocated :
    (s : Channels) (type : ChannelType) (sock : ℕ) (name : Option (List ℕ))
    → IsValid s
    → is_free type ≡ false
    → (k : ℕ) × (t : Channels) × (allocate s type sock name ≡ ok (k, t)) × Allocated s type sock k t
unfolding allocate
allocate-Allocated s type sock name v live =
    let s' = record s { max_fd = if ltb s.max_fd sock then sock else s.max_fd } in
    let r = make_room-Roomy s' v.counted in
    let a =
      occupy-Allocated s' (make_room s').0 (make_room s').1 r type sock name
        (record { counted = v.counted; own = v.own }) live in
    (
      r.k,
      occupy (make_room s').1 r.k type sock name,
      ap
          (λ o. elim o [
            | none ↦ err internal_bug
            | some k ↦ ok (k, occupy (make_room s').1 k type sock name)
          ])
          r.found,
      record {
        valid = a.valid;
        was_free = a.was_free;
        type_is = a.type_is;
        sock_is = a.sock_is;
        local_is = a.local_is;
        others = a.others;
        one_more = a.one_more;
      },
    )
