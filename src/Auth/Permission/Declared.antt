-- ===== src/Auth/Permission/Declared.antt =====
-- Who may log in, said without the order of the tests.
use ssh_1_history.Prelude.{
  ℕ, ◌≡◌, ◌↔◌, refl, sym, subst, ◌∙◌, inl, inr, Bool, true, false, not, List, [], ◌∷◌, Option, none,
  some, Bool-cases, Option-cases, if◌then◌else◌,
}
use ssh_1_history.Match.{match_pattern, match_user}
use ssh_1_history.Auth.{Passwd, Options, Globals}
use ssh_1_history.Auth.Permission.{
  System, check_shadow, locked, given, user_permitted, group_permitted, login_permitted,
}
use ssh_1_history.Auth.Permission.Accounts.{Locked, locked_iff}
use ssh_1_history.Auth.Permission.Shadow.{Current, Tested-iff, check_shadow_iff}
use ssh_1_history.Auth.Permission.Patterns.{Allowed, Excluded, shut_out, turned_away, passes_iff}

abbrev by_user : System → List ℕ → List ℕ → Bool
by_user y user p = match_user user y.canonical_hostname (some y.remote_ipaddr) p

abbrev pub ByGroup : Options → Option (List ℕ) → Type 0
ByGroup o none = o.allow_groups ≡ []
ByGroup o (some group) =
    Allowed (match_pattern group) o.allow_groups
    × (Excluded (match_pattern group) o.deny_groups → ⊥)

pub record Permitted (o : Options) (y : System) (user : List ℕ) (pw : Passwd) : Type 0 where
  pub passwd : List ℕ
  pub current : Current o y user pw (y.getspnam user) passwd
  pub unlocked : Locked passwd → ⊥
  pub allowed : Allowed (by_user y user) o.allow_users
  pub not_excluded : Excluded (by_user y user) o.deny_users → ⊥
  pub by_group : ByGroup o (y.getgrgid pw.gid)

empty_iff : (ps : List (List ℕ)) → (not (given ps) ≡ true) ↔ (ps ≡ [])
unfolding given
empty_iff [] = (λ e. refl, λ e. refl)
empty_iff (p ∷ ps) = (λ e. absurd cc, λ e. absurd cc)

group_permitted_iff :
    (o : Options) (y : System) (pw : Passwd)
    → (group_permitted o y pw ≡ true) ↔ ByGroup o (y.getgrgid pw.gid)
unfolding group_permitted
group_permitted_iff o y pw =
    elim (y.getgrgid pw.gid)
      as (λ known.
        (elim known as (λ x. Bool) [
          | none ↦ not (given o.allow_groups)
          | some group ↦
              if shut_out (match_pattern group) o.allow_groups
              then false
              else not (turned_away (match_pattern group) o.deny_groups)
        ]
          ≡ true)
        ↔ ByGroup o known) [
          | none ↦ empty_iff o.allow_groups
          | some group ↦ passes_iff (match_pattern group) o.allow_groups o.deny_groups
        ]

-- What is tested of the encrypted password that counts, and of the names.
abbrev decision : Options → System → List ℕ → Passwd → Option (List ℕ) → Bool
decision o y user pw none = false
decision o y user pw (some passwd) =
    if locked passwd
    then false
    else if user_permitted o y user
    then group_permitted o y pw
    else false

login_permitted-decision :
    (o : Options) (y : System) (user : List ℕ) (pw : Passwd) (g : Globals)
    → (login_permitted o y user pw g).0 ≡ decision o y user pw (check_shadow o y user pw g).0
unfolding login_permitted
login_permitted-decision o y user pw g =
    let r = check_shadow o y user pw g in
    elim r.0
      as (λ c.
        (elim c as (λ x. Bool × Globals) [
          | none ↦ (false, r.1)
          | some passwd ↦ (decision o y user pw (some passwd), r.1)
        ]).0
        ≡ decision o y user pw c) [ none ↦ refl | some passwd ↦ refl ]

decision_iff :
    (o : Options) (y : System) (user : List ℕ) (pw : Passwd) (passwd : List ℕ)
    → (decision o y user pw (some passwd) ≡ true) ↔ (
        (locked passwd ≡ false)
        × (user_permitted o y user ≡ true)
        × (group_permitted o y pw ≡ true))
decision_iff o y user pw passwd = elim (Bool-cases (locked passwd)) [
  | inl shut ↦ (λ h. absurd (let t : false ≡ true = rw shut at h in cc), λ h. absurd cc)
  | inr free ↦ elim (Bool-cases (user_permitted o y user)) [
    | inl known ↦ (
      λ h. (free, known, let t : group_permitted o y pw ≡ true = rw (free, known) at h in t),
      λ h. rw (free, known) h.2,
    )
    | inr not_known ↦
        (λ h. absurd (let t : false ≡ true = rw (free, not_known) at h in cc), λ h. absurd cc)
  ]
]

-- A login is permitted exactly for a user of whom all this holds. If there is a shadow entry, the last
-- day of the account, if it has one, is not over; the days since the last login, if there is a limit
-- for them and there was one, are within it; the password was not changed on day 0, and its days, if
-- there is a limit for them, are not over, or else passwords may be changed first. If there is none,
-- the password is not left to the shadow file. The password that counts does not start with *LK*. The
-- lists of users and groups admit the user: a list of allowed ones, if given, has a pattern that
-- matches, and no pattern of the denied ones does.
pub login_permitted-Permitted_iff :
    (o : Options) (y : System) (user : List ℕ) (pw : Passwd) (g : Globals)
    → ((login_permitted o y user pw g).0 ≡ true) ↔ Permitted o y user pw
unfolding user_permitted
login_permitted-Permitted_iff o y user pw g =
    let users = passes_iff (by_user y user) o.allow_users o.deny_users in
    let groups = group_permitted_iff o y pw in
    let split = login_permitted-decision o y user pw g in
    let found : (passwd : List ℕ)
        → (check_shadow o y user pw g).0 ≡ some passwd
        → decision o y user pw (some passwd) ≡ true
        → Permitted o y user pw =
      λ passwd c d.
        let t = (decision_iff o y user pw passwd).0 d in
        let u = users.0 t.1 in
        record {
          passwd = passwd;
          current =
              (Tested-iff o y user pw (y.getspnam user) passwd).0
                ((check_shadow_iff o y user pw g passwd).0 c);
          unlocked = (locked_iff passwd).0 t.0;
          allowed = u.0;
          not_excluded = u.1;
          by_group = groups.0 t.2;
        } in
    (
      λ h. elim (Option-cases (check_shadow o y user pw g).0) [
        | inl refused ↦ absurd (
            let t : false ≡ true =
              subst (λ c. decision o y user pw c ≡ true) refused (sym split ∙ h) in
            cc)
        | inr (passwd, c) ↦
            found passwd c (subst (λ c. decision o y user pw c ≡ true) c (sym split ∙ h))
      ],
      λ h.
          split
          ∙ (rw
              ((check_shadow_iff o y user pw g h.passwd).1
                ((Tested-iff o y user pw (y.getspnam user) h.passwd).1 h.current))
              ((decision_iff o y user pw h.passwd).1 (
                (locked_iff h.passwd).1 h.unlocked,
                users.1 (h.allowed, h.not_excluded),
                groups.1 h.by_group,
              ))),
    )
