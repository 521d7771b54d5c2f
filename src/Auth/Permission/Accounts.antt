-- ===== src/Auth/Permission/Accounts.antt =====
-- What the days and the password of a shadow entry mean.
use ssh_1_history.Prelude.{
  ℕ, zero, suc, ◌+◌, ◌-◌, ◌*◌, ◌/◌, ◌%◌, ◌^◌, ◌≤◌, ◌≡◌, ◌≢◌, ◌⊎◌, ◌↔◌, refl, ap, ◌∙◌, inl, inr,
  Bool, true, false, not, ◌&&◌, ◌||◌, List, [], ◌∷◌, ◌++◌, take, ◌==◌, Bool-cases, arith,
}
use ssh_1_history.Auth.{Passwd}
use ssh_1_history.Auth.Permission.{
  ℤ, pos, negsuc, System, Spwd, positive, sum_below, is_zero, same, expired, inactive, outdated,
  locked,
}

-- A limit of days that is not set is zero or negative.
abbrev Unlimited : ℤ → Type 0
Unlimited (pos n) = n ≡ 0
Unlimited (negsuc n) = Unit

-- Day `n` is not after day `a + b`.
abbrev UpTo : ℤ → ℤ → ℕ → Type 0
UpTo (pos a) (pos b) n = n ≤ a + b
UpTo (pos a) (negsuc b) n = n + suc b ≤ a
UpTo (negsuc a) (pos b) n = n + suc a ≤ b
UpTo (negsuc a) (negsuc b) n = ⊥

-- The account has no last day, or it is not over.
abbrev pub InTime : System → Spwd → Type 0
InTime y sp = Unlimited sp.expire ⊎ UpTo sp.expire (pos 0) y.today

-- The days since the user's last login, which wrap around if it is in the future.
abbrev pub days_away : System → List ℕ → Passwd → ℕ
days_away y user pw =
    (2 ^ 64 + y.today - y.get_last_login_time pw.uid user / (24 * 60 * 60)) % 2 ^ 64

-- There is no limit for the days since the last login, there was none, or they are within the limit.
abbrev pub Active : System → List ℕ → Passwd → Spwd → Type 0
Active y user pw sp =
    (Unlimited sp.inact ⊎ (y.get_last_login_time pw.uid user ≡ 0))
    ⊎ UpTo sp.inact (pos 0) (days_away y user pw)

-- The password was changed on a day other than 0, and its days have no limit or are within it.
abbrev pub Fresh : System → Spwd → Type 0
Fresh y sp = (sp.lstchg ≢ pos 0) × (Unlimited sp.max ⊎ UpTo sp.lstchg sp.max y.today)

-- The encrypted password starts with *LK*.
abbrev pub Locked : List ℕ → Type 0
Locked passwd = (rest : List ℕ) × (passwd ≡ b'*' ∷ (b'L' ∷ (b'K' ∷ (b'*' ∷ rest))))

-- There are shadow passwords, but the user has no entry there although the password should be in it.
abbrev pub Missing : System → Passwd → Type 0
Missing y pw = (y.shadow_exists ≡ true) × (pw.passwd ≡ b'x' ∷ [])

positive_iff : (a : ℤ) → (positive a ≡ false) ↔ Unlimited a
unfolding positive
positive_iff (pos n) = ground arith
positive_iff (negsuc n) = (λ h. tt, λ h. refl)

sum_below_iff : (a b : ℤ) (n : ℕ) → (sum_below a b n ≡ false) ↔ UpTo a b n
unfolding sum_below
sum_below_iff (pos a) (pos b) n = ground arith
sum_below_iff (pos a) (negsuc b) n = ground arith
sum_below_iff (negsuc a) (pos b) n = ground arith
sum_below_iff (negsuc a) (negsuc b) n = (λ h. absurd cc, λ h. absurd h)

and_false_iff : (a b : Bool) → ((a && b) ≡ false) ↔ ((a ≡ false) ⊎ (b ≡ false))
and_false_iff true b = (λ h. inr h, λ h. elim h [ inl e ↦ absurd cc | inr e ↦ e ])
and_false_iff false b = (λ h. inl refl, λ h. refl)

Sum_map : {A B C D : Type 0} → (A → C) → (B → D) → A ⊎ B → C ⊎ D
Sum_map f h (inl a) = inl (f a)
Sum_map f h (inr b) = inr (h b)

-- Two tests of which one must fail.
either_iff :
    {A B : Type 0} (a b : Bool) → (a ≡ false) ↔ A → (b ≡ false) ↔ B → ((a && b) ≡ false) ↔ (A ⊎ B)
either_iff a b ha hb = (
  λ h. Sum_map ha.0 hb.0 ((and_false_iff a b).0 h),
  λ h. (and_false_iff a b).1 (Sum_map ha.1 hb.1 h),
)

pub expired_iff : (y : System) (sp : Spwd) → (expired y sp ≡ false) ↔ InTime y sp
unfolding expired
expired_iff y sp =
    either_iff (positive sp.expire) (sum_below sp.expire (pos 0) y.today) (positive_iff sp.expire)
      (sum_below_iff sp.expire (pos 0) y.today)

zero_iff : (n : ℕ) → (not (n == 0) ≡ false) ↔ (n ≡ 0)
zero_iff n = ground arith

regroup : {A B C : Type 0} → (A ⊎ (B ⊎ C)) ↔ ((A ⊎ B) ⊎ C)
regroup = (
  λ h. elim h [ inl a ↦ inl (inl a) | inr (inl b) ↦ inl (inr b) | inr (inr c) ↦ inr c ],
  λ h. elim h [ inl (inl a) ↦ inl a | inl (inr b) ↦ inr (inl b) | inr c ↦ inr (inr c) ],
)

pub inactive_iff :
    (y : System) (user : List ℕ) (pw : Passwd) (sp : Spwd)
    → (inactive y user pw sp ≡ false) ↔ Active y user pw sp
unfolding inactive
inactive_iff y user pw sp =
    let llt = y.get_last_login_time pw.uid user in
    let days = days_away y user pw in
    let tests =
      either_iff (positive sp.inact) (not (llt == 0) && sum_below sp.inact (pos 0) days)
        (positive_iff sp.inact)
        (either_iff (not (llt == 0)) (sum_below sp.inact (pos 0) days) (zero_iff llt)
          (sum_below_iff sp.inact (pos 0) days)) in
    (λ h. regroup.0 (tests.0 h), λ h. tests.1 (regroup.1 h))

is_zero_iff : (a : ℤ) → (is_zero a ≡ false) ↔ (a ≢ pos 0)
unfolding is_zero
is_zero_iff (pos zero) = (λ h. absurd cc, λ h. absurd (h refl))
is_zero_iff (pos (suc n)) = (λ h e. absurd cc, λ h. ground arith)
is_zero_iff (negsuc n) = (λ h e. absurd cc, λ h. refl)

or_false_iff : (a b : Bool) → ((a || b) ≡ false) ↔ ((a ≡ false) × (b ≡ false))
or_false_iff true b = (λ h. absurd cc, λ h. absurd cc)
or_false_iff false b = (λ h. (refl, h), λ h. h.1)

pub outdated_iff : (y : System) (sp : Spwd) → (outdated y sp ≡ false) ↔ Fresh y sp
unfolding outdated
outdated_iff y sp =
    let both =
      or_false_iff (is_zero sp.lstchg) (positive sp.max && sum_below sp.lstchg sp.max y.today) in
    let changed = is_zero_iff sp.lstchg in
    let lasts =
      either_iff (positive sp.max) (sum_below sp.lstchg sp.max y.today) (positive_iff sp.max)
        (sum_below_iff sp.lstchg sp.max y.today) in
    (
      λ h. let p = both.0 h in (changed.0 p.0, lasts.0 p.1),
      λ h. both.1 (changed.1 h.0, lasts.1 h.1),
    )

same_iff : (xs ys : List ℕ) → (same xs ys ≡ true) ↔ (xs ≡ ys)
unfolding same
same_iff [] [] = (λ h. refl, λ h. refl)
same_iff [] (y ∷ ys) = (λ h. absurd cc, λ h. absurd cc)
same_iff (x ∷ xs) [] = (λ h. absurd cc, λ h. absurd cc)
same_iff (x ∷ xs) (y ∷ ys) =
    let later = same_iff xs ys in
    (
      λ h. let first : x ≡ y = ground arith in let others : xs ≡ ys = later.0 (ground arith) in cc,
      λ h.
          let first : (x == y) ≡ true = let e : x ≡ y = cc in ground arith in
          let others : same xs ys ≡ true = later.1 cc in rw (first, others) refl,
    )

pub locked_sound : (passwd : List ℕ) → locked passwd ≡ true → Locked passwd
unfolding locked
locked_sound passwd h = go passwd ((same_iff (take 4 (take 5 passwd)) _).0 h)
  where
    go : (ps : List ℕ) → take 4 (take 5 ps) ≡ b'*' ∷ (b'L' ∷ (b'K' ∷ (b'*' ∷ []))) → Locked ps
    go [] e = absurd cc
    go (a ∷ []) e = absurd cc
    go (a ∷ (b ∷ [])) e = absurd cc
    go (a ∷ (b ∷ (c ∷ []))) e = absurd cc
    go (a ∷ (b ∷ (c ∷ (d ∷ [])))) e = ([], cc)
    go (a ∷ (b ∷ (c ∷ (d ∷ (f ∷ rest))))) e = (f ∷ rest, ap (λ l. l ++ (f ∷ rest)) e)

abbrev star_lk : List ℕ
star_lk = b'*' ∷ (b'L' ∷ (b'K' ∷ (b'*' ∷ [])))

pub Locked-complete : (passwd : List ℕ) → Locked passwd → locked passwd ≡ true
unfolding locked
Locked-complete passwd (rest, e) = ap locked e ∙ go rest
  where
    go : (rest : List ℕ) → locked (b'*' ∷ (b'L' ∷ (b'K' ∷ (b'*' ∷ rest)))) ≡ true
    go [] = (same_iff star_lk star_lk).1 refl
    go (f ∷ rest) = (same_iff star_lk star_lk).1 refl

pub locked_iff : (passwd : List ℕ) → (locked passwd ≡ false) ↔ (Locked passwd → ⊥)
locked_iff passwd = (
  λ h l. let t = Locked-complete passwd l in cc,
  λ h. elim (Bool-cases (locked passwd)) [
    | inl shut ↦ absurd (h (locked_sound passwd shut))
    | inr free ↦ free
  ],
)

pub Missing-iff :
    (y : System) (pw : Passwd)
    → ((y.shadow_exists && same pw.passwd (b'x' ∷ [])) ≡ false) ↔ (Missing y pw → ⊥)
Missing-iff y pw = (
  λ h m.
      let t : same pw.passwd (b'x' ∷ []) ≡ true = (same_iff pw.passwd (b'x' ∷ [])).1 m.1 in
      ground arith,
  λ h. elim (Bool-cases (y.shadow_exists && same pw.passwd (b'x' ∷ []))) [
    | inr other ↦ other
    | inl is ↦ absurd (h (ground arith, (same_iff pw.passwd (b'x' ∷ [])).0 (ground arith)))
  ],
)
