-- ===== src/Agent/Distinct.antt =====
-- No two identities of the agent have the same modulus.
use mathlib.Core.List.{
  Mem, Nodup, Nodup-cons, not-mem-nil, eq-or-mem_of_mem-cons, perm_middle, Perm,
}
use mathlib.Core.List.Perm
use mathlib.Core.Logic.Or
use mathlib.Core.HLevel.{⊥_prop}
use ssh_1_history.Prelude.{
  ◌≡◌, sym, subst, true, false, List, [], ◌∷◌, ◌++◌, append-nil, map, none, some, Bool-cases,
  Option-cases, some-injective, inl, inr, if◌then◌else◌,
}
use ssh_1_history.Bufaux.MpInt.{Gmp}
use ssh_1_history.Agent.{Identity, last_to_front, remove_key, has_key}

last_to_front-Perm {ℓ} : {A : Type ℓ} (xs : List A) → Perm (last_to_front xs) xs
unfolding last_to_front
last_to_front-Perm [] = Perm.refl []
last_to_front-Perm (x ∷ []) = Perm.refl (x ∷ [])
last_to_front-Perm {A} (x ∷ (y ∷ ys)) = go (last_to_front (y ∷ ys)) (last_to_front-Perm (y ∷ ys))
  where
    go :
        (zs : List A)
        → Perm zs (y ∷ ys)
        → Perm (elim zs as (λ z. List A) [ [] ↦ x ∷ [] | l ∷ rest ↦ l ∷ x ∷ rest ]) (x ∷ (y ∷ ys))
    go [] p = Perm.cons x p
    go (l ∷ rest) p = Perm.trans (Perm.swap x l rest) (Perm.cons x p)

module _ {g : Gmp} where
  -- The moduli of the identities, which name them.
  abbrev pub moduli : List (Identity g) → List g.Mpz
  moduli = map (λ k. k.n)

  abbrev pub Distinct : List (Identity g) → Type 0
  Distinct ids = Nodup (moduli ids)

  has_key-Mem :
      (n : g.Mpz) (ids : List (Identity g)) → has_key n ids ≡ false → Mem n (moduli ids) → ⊥
  unfolding has_key
  has_key-Mem n [] e m = not-mem-nil m
  has_key-Mem n (k ∷ ks) e m = elim (Bool-cases (g.same k.n n)) [
    | inl is ↦
        absurd (subst (λ b. (if b then true else has_key n ks) ≡ false → ⊥) (sym is) (λ f. cc) e)
    | inr isnt ↦
        let later : has_key n ks ≡ false =
          subst (λ b. (if b then true else has_key n ks) ≡ false) isnt e in
        Or.elim ⊥_prop (eq-or-mem_of_mem-cons m)
          (λ here. absurd (let t : g.same k.n n ≡ true = (g.same_iff k.n n).1 (sym here) in cc))
          (has_key-Mem n ks later)
  ]

  -- A new modulus may be added.
  pub Distinct-add :
      (ids : List (Identity g)) (k : Identity g)
      → Distinct ids
      → has_key k.n ids ≡ false
      → Distinct (ids ++ (k ∷ []))
  Distinct-add ids k v e =
      Perm.nodup (Perm.symm (Perm.map (λ k. k.n) (moved ids k)))
        (Nodup-cons.1 (has_key-Mem k.n ids e, v))
    where
      moved : (ids : List (Identity g)) (k : Identity g) → Perm (ids ++ (k ∷ [])) (k ∷ ids)
      moved ids k =
          subst (λ t. Perm (ids ++ (k ∷ [])) (k ∷ t)) (append-nil ids) (perm_middle ids [])

  -- `js` are the identities `ids` without one that has the modulus `n`.
  pub record Without (n : g.Mpz) (ids js : List (Identity g)) : Type 0 where
    pub k : Identity g
    pub named : k.n ≡ n
    pub rest : Perm ids (k ∷ js)

  pub remove_key-Without :
      (n : g.Mpz) (ids js : List (Identity g)) → remove_key n ids ≡ some js → Without n ids js
  unfolding remove_key
  remove_key-Without n [] js e = absurd cc
  remove_key-Without n (k ∷ ks) js e = elim (Bool-cases (g.same k.n n)) [
    | inl is ↦
        let f : some (last_to_front ks) ≡ some js = rw is at e in
        record {
          k = k;
          named = (g.same_iff k.n n).0 is;
          rest =
              subst (λ l. Perm (k ∷ ks) (k ∷ l)) (some-injective f)
                (Perm.cons k (Perm.symm (last_to_front-Perm ks)));
        }
    | inr isnt ↦ elim (Option-cases (remove_key n ks)) [
      | inl gone ↦ let f : none ≡ some js = rw (isnt, gone) at e in absurd cc
      | inr (is, found) ↦
          let f : some (k ∷ is) ≡ some js = rw (isnt, found) at e in
          let w = remove_key-Without n ks is found in
          record {
            k = w.k;
            named = w.named;
            rest =
                subst (λ l. Perm (k ∷ ks) (w.k ∷ l)) (some-injective f)
                  (Perm.trans (Perm.cons k w.rest) (Perm.swap w.k k is));
          }
    ]
  ]

  -- What is left has no two identities with one modulus, and none with the modulus removed.
  pub Without-Distinct :
      {n : g.Mpz} {ids js : List (Identity g)}
      → Without n ids js
      → Distinct ids
      → Distinct js × (Mem n (moduli js) → ⊥)
  Without-Distinct {n} {ids} {js} w v =
      let c = Nodup-cons.0 (Perm.nodup (Perm.map (λ k. k.n) w.rest) v) in
      (c.1, λ m. c.0 (subst (λ t. Mem t (moduli js)) (sym w.named) m))

  -- Only a modulus that is not there is not removed.
  pub remove_key-none :
      (n : g.Mpz) (ids : List (Identity g)) → remove_key n ids ≡ none → Mem n (moduli ids) → ⊥
  unfolding remove_key
  remove_key-none n [] e m = not-mem-nil m
  remove_key-none n (k ∷ ks) e m = elim (Bool-cases (g.same k.n n)) [
    | inl is ↦ let f : some (last_to_front ks) ≡ none = rw is at e in absurd cc
    | inr isnt ↦ elim (Option-cases (remove_key n ks)) [
      | inl gone ↦
          Or.elim ⊥_prop (eq-or-mem_of_mem-cons m)
            (λ here. absurd (let t : g.same k.n n ≡ true = (g.same_iff k.n n).1 (sym here) in cc))
            (remove_key-none n ks gone)
      | inr (is, found) ↦ let f : some (k ∷ is) ≡ none = rw (isnt, found) at e in absurd cc
    ]
  ]
