-- ===== src/Auth/Permission/Shadow.antt =====
-- The shadow entry of a user, and the encrypted password that counts.
use ssh_1_history.Prelude.{
  ℕ, ◌≡◌, ◌↔◌, ◌⊎◌, ap, inl, inr, true, false, ◌&&◌, List, [], ◌∷◌, Option, none, some,
  some-injective, Bool-cases, if◌then◌else◌,
}
use ssh_1_history.Auth.{Passwd, Options, Globals}
use ssh_1_history.Auth.Permission.{
  System, Spwd, expired, inactive, outdated, same, check_spwd, check_shadow,
}
use ssh_1_history.Auth.Permission.Accounts.{
  InTime, Active, Fresh, Missing, expired_iff, inactive_iff, outdated_iff, Missing-iff,
}

-- The account, by its shadow entry if it has one, and the encrypted password that counts.
abbrev pub Current : Options → System → List ℕ → Passwd → Option Spwd → List ℕ → Type 0
Current o y user pw none passwd = (Missing y pw → ⊥) × (pw.passwd ≡ passwd)
Current o y user pw (some sp) passwd =
    InTime y sp
    × Active y user pw sp
    × (Fresh y sp ⊎ (o.forced_passwd_change ≡ true))
    × (sp.pwdp ≡ passwd)

-- The same by the tests of the code.
abbrev pub Tested : Options → System → List ℕ → Passwd → Option Spwd → List ℕ → Type 0
Tested o y user pw none passwd =
    ((y.shadow_exists && same pw.passwd (b'x' ∷ [])) ≡ false) × (pw.passwd ≡ passwd)
Tested o y user pw (some sp) passwd =
    (expired y sp ≡ false)
    × (inactive y user pw sp ≡ false)
    × ((outdated y sp ≡ false) ⊎ (o.forced_passwd_change ≡ true))
    × (sp.pwdp ≡ passwd)

pub Tested-iff :
    (o : Options) (y : System) (user : List ℕ) (pw : Passwd) (entry : Option Spwd) (passwd : List ℕ)
    → Tested o y user pw entry passwd ↔ Current o y user pw entry passwd
Tested-iff o y user pw none passwd =
    let m = Missing-iff y pw in (λ h. (m.0 h.0, h.1), λ h. (m.1 h.0, h.1))
Tested-iff o y user pw (some sp) passwd =
    let a = expired_iff y sp in
    let b = inactive_iff y user pw sp in
    let c = outdated_iff y sp in
    (
      λ h. (a.0 h.0, b.0 h.1, elim h.2 [ inl f ↦ inl (c.0 f) | inr f ↦ inr f ], h.3),
      λ h. (a.1 h.0, b.1 h.1, elim h.2 [ inl f ↦ inl (c.1 f) | inr f ↦ inr f ], h.3),
    )

check_spwd_iff :
    (o : Options) (y : System) (user : List ℕ) (pw : Passwd) (sp : Spwd) (g : Globals)
    (passwd : List ℕ)
    → ((check_spwd o y user pw sp g).0 ≡ some passwd) ↔ Tested o y user pw (some sp) passwd
unfolding check_spwd
check_spwd_iff o y user pw sp g passwd = elim (Bool-cases (expired y sp)) [
  | inl old ↦ (λ h. absurd (let t : none ≡ some passwd = rw old at h in cc), λ h. absurd cc)
  | inr live ↦ elim (Bool-cases (inactive y user pw sp)) [
    | inl away ↦
        (λ h. absurd (let t : none ≡ some passwd = rw (live, away) at h in cc), λ h. absurd cc)
    | inr here ↦ elim (Bool-cases (outdated y sp)) [
      | inl old ↦ elim (Bool-cases o.forced_passwd_change) [
        | inl changed ↦ (
          λ h. (
            live,
            here,
            inr changed,
            let t : some sp.pwdp ≡ some passwd = rw (live, here, old, changed) at h in
                some-injective t,
          ),
          λ h. rw (live, here, old, changed) (ap some h.3),
        )
        | inr refused ↦ (
          λ h. absurd (let t : none ≡ some passwd = rw (live, here, old, refused) at h in cc),
          λ h. elim h.2 [ inl fresh ↦ absurd cc | inr changed ↦ absurd cc ],
        )
      ]
      | inr fresh ↦ (
        λ h. (
          live,
          here,
          inl fresh,
          let t : some sp.pwdp ≡ some passwd = rw (live, here, fresh) at h in some-injective t,
        ),
        λ h. rw (live, here, fresh) (ap some h.3),
      )
    ]
  ]
]

pub check_shadow_iff :
    (o : Options) (y : System) (user : List ℕ) (pw : Passwd) (g : Globals) (passwd : List ℕ)
    → ((check_shadow o y user pw g).0 ≡ some passwd) ↔ Tested o y user pw (y.getspnam user) passwd
unfolding check_shadow
check_shadow_iff o y user pw g passwd =
    elim (y.getspnam user)
      as (λ entry.
        ((elim entry as (λ x. Option (List ℕ) × Globals) [
          | none ↦
              if y.shadow_exists && same pw.passwd (b'x' ∷ [])
              then (none, g)
              else (some pw.passwd, g)
          | some sp ↦ check_spwd o y user pw sp g
        ]).0
          ≡ some passwd)
        ↔ Tested o y user pw entry passwd) [
          | none ↦ without
          | some sp ↦ check_spwd_iff o y user pw sp g passwd
        ]
  where
    without :
        ((if◌then◌else◌ {A = Option (List ℕ) × Globals}
            (y.shadow_exists && same pw.passwd (b'x' ∷ []))
            (none, g)
            (some pw.passwd, g)).0
          ≡ some passwd)
        ↔ Tested o y user pw none passwd
    without = elim (Bool-cases (y.shadow_exists && same pw.passwd (b'x' ∷ []))) [
      | inl hidden ↦
          (λ h. absurd (let t : none ≡ some passwd = rw hidden at h in cc), λ h. absurd cc)
      | inr plain ↦ (
        λ h. (plain, let t : some pw.passwd ≡ some passwd = rw plain at h in some-injective t),
        λ h. rw plain (ap some h.1),
      )
    ]
