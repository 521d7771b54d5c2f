-- ===== src/Auth/Permission/Patterns.antt =====
-- The tests of a list of patterns: what one of them matching means.
use mathlib.Core.List.{Mem, not-mem-nil, eq-or-mem_of_mem-cons, mem-cons_self, mem-cons_of_mem}
use mathlib.Core.Logic.Or
use mathlib.Core.HLevel.{⊥_prop}
use ssh_1_history.Prelude.{
  ℕ, ◌≡◌, ◌↔◌, ◌⊎◌, refl, sym, ap, subst, inl, inr, Bool, true, false, not, ◌&&◌, List, [], ◌∷◌,
  Bool-cases, if◌then◌else◌,
}
use ssh_1_history.Auth.Permission.{any, given}

-- A list that is not empty must have a pattern that matches; a pattern that matches excludes.
abbrev pub Allowed : (List ℕ → Bool) → List (List ℕ) → Type 0
Allowed f ps = (ps ≡ []) ⊎ ((p : List ℕ) × Mem p ps × (f p ≡ true))

abbrev pub Excluded : (List ℕ → Bool) → List (List ℕ) → Type 0
Excluded f ps = (p : List ℕ) × Mem p ps × (f p ≡ true)

any-true : (f : List ℕ → Bool) (ps : List (List ℕ)) → any f ps ≡ true → Excluded f ps
unfolding any
any-true f [] e = absurd cc
any-true f (p ∷ ps) e = elim (Bool-cases (f p)) [
  | inl is ↦ (p, mem-cons_self, is)
  | inr isnt ↦
      let later : any f ps ≡ true = subst (λ b. (if b then true else any f ps) ≡ true) isnt e in
      let r = any-true f ps later in (r.0, mem-cons_of_mem p r.1, r.2)
]

any-false : (f : List ℕ → Bool) (ps : List (List ℕ)) → any f ps ≡ false → Excluded f ps → ⊥
unfolding any
any-false f [] e x = not-mem-nil x.1
any-false f (p ∷ ps) e x = elim (Bool-cases (f p)) [
  | inl is ↦ absurd (subst (λ b. (if b then true else any f ps) ≡ false → ⊥) (sym is) (λ h. cc) e)
  | inr isnt ↦
      let later : any f ps ≡ false = subst (λ b. (if b then true else any f ps) ≡ false) isnt e in
      Or.elim ⊥_prop (eq-or-mem_of_mem-cons x.1)
        (λ here. absurd (let t : f p ≡ true = subst (λ q. f q ≡ true) here x.2 in cc))
        (λ there. any-false f ps later (x.0, there, x.2))
]

any-Excluded : (f : List ℕ → Bool) (ps : List (List ℕ)) → Excluded f ps → any f ps ≡ true
any-Excluded f ps x = elim (Bool-cases (any f ps)) [
  | inl is ↦ is
  | inr isnt ↦ absurd (any-false f ps isnt x)
]

-- The two tests of a kind of patterns.
abbrev pub shut_out : (List ℕ → Bool) → List (List ℕ) → Bool
shut_out f allow = given allow && not (any f allow)

abbrev pub turned_away : (List ℕ → Bool) → List (List ℕ) → Bool
turned_away f deny = given deny && any f deny

shut_out_iff : (f : List ℕ → Bool) (ps : List (List ℕ)) → (shut_out f ps ≡ false) ↔ Allowed f ps
unfolding given
shut_out_iff f [] = (λ e. inl refl, λ h. refl)
shut_out_iff f (p ∷ ps) = elim (Bool-cases (any f (p ∷ ps))) [
  | inl is ↦ (λ e. inr (any-true f (p ∷ ps) is), λ h. ap not is)
  | inr isnt ↦ (
    λ e. absurd (let u : not (any f (p ∷ ps)) ≡ false = e in cc),
    λ h. elim h [ inl empty ↦ absurd cc | inr x ↦ absurd (any-false f (p ∷ ps) isnt x) ],
  )
]

turned_away_iff :
    (f : List ℕ → Bool) (ps : List (List ℕ)) → (turned_away f ps ≡ false) ↔ (Excluded f ps → ⊥)
unfolding given
turned_away_iff f [] = (λ e x. not-mem-nil x.1, λ h. refl)
turned_away_iff f (p ∷ ps) = elim (Bool-cases (any f (p ∷ ps))) [
  | inl is ↦ (
    λ e x. absurd (let u : any f (p ∷ ps) ≡ false = e in cc),
    λ h. absurd (h (any-true f (p ∷ ps) is)),
  )
  | inr isnt ↦ (λ e x. any-false f (p ∷ ps) isnt x, λ h. isnt)
]

pub passes_iff :
    (f : List ℕ → Bool) (allow deny : List (List ℕ))
    → ((if shut_out f allow then false else not (turned_away f deny)) ≡ true)
      ↔ (Allowed f allow × (Excluded f deny → ⊥))
passes_iff f allow deny =
    let a = shut_out_iff f allow in
    let d = turned_away_iff f deny in
    elim (Bool-cases (shut_out f allow)) [
      | inl out ↦ (
        λ e. absurd (let h : false ≡ true = rw out at e in cc),
        λ h. absurd (let t : shut_out f allow ≡ false = a.1 h.0 in cc),
      )
      | inr in_ ↦ elim (Bool-cases (turned_away f deny)) [
        | inl away ↦ (
          λ e. absurd (let h : false ≡ true = rw (in_, away) at e in cc),
          λ h. absurd (let t : turned_away f deny ≡ false = d.1 h.1 in cc),
        )
        | inr stay ↦ (λ e. (a.0 in_, d.0 stay), λ h. rw (in_, stay) refl)
      ]
    ]
