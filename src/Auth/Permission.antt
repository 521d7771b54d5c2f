-- ===== src/Auth/Permission.antt =====
-- `login_permitted` of sshd.c, as it is compiled with HAVE_ETC_SHADOW, HAVE_STRUCT_SPWD_EXPIRE and
-- HAVE_STRUCT_SPWD_INACT, and without the other options of its kind. A `long` has 64 bits.
pub mod Accounts
pub mod Patterns
pub mod Declared
pub mod Shadow
use ssh_1_history.Prelude.{
  ℕ, zero, suc, ◌+◌, ◌-◌, ◌*◌, ◌/◌, ◌%◌, ◌^◌, Bool, true, false, not, ◌&&◌, ◌||◌, List, [], ◌∷◌,
  ◌++◌, Option, none, some, take, ltb, ◌==◌, if◌then◌else◌,
}
use ssh_1_history.Match.{match_pattern, match_user}
use ssh_1_history.Auth.{Passwd, Options, Globals}

pub data ℤ : Type 0 where
  pos : ℕ → ℤ
  negsuc : ℕ → ℤ

pub record Spwd : Type 0 where
  pub pwdp : List ℕ
  pub lstchg : ℤ
  pub max : ℤ
  pub inact : ℤ
  pub expire : ℤ

-- What the system tells of accounts, of groups and of the other end of the connection.
pub record System : Type 0 where
  pub getspnam : List ℕ → Option Spwd
  pub shadow_exists : Bool
  pub today : ℕ
  pub get_last_login_time : ℕ → List ℕ → ℕ
  pub passwd_path : List ℕ
  pub getgrgid : ℕ → Option (List ℕ)
  pub canonical_hostname : List ℕ
  pub remote_ipaddr : List ℕ

-- Equality of strings.
pub same : List ℕ → List ℕ → Bool
same [] [] = true
same [] (y ∷ ys) = false
same (x ∷ xs) [] = false
same (x ∷ xs) (y ∷ ys) = x == y && same xs ys

pub positive : ℤ → Bool
positive (pos n) = not (n == 0)
positive (negsuc n) = false

-- a + b < n
pub sum_below : ℤ → ℤ → ℕ → Bool
sum_below (pos a) (pos b) n = ltb (a + b) n
sum_below (pos a) (negsuc b) n = ltb a (n + suc b)
sum_below (negsuc a) (pos b) n = ltb b (n + suc a)
sum_below (negsuc a) (negsuc b) n = true

-- a + b - n, where this is not negative
days_left : ℤ → ℤ → ℕ → ℕ
days_left (pos a) (pos b) n = a + b - n
days_left (pos a) (negsuc b) n = a - suc b - n
days_left (negsuc a) (pos b) n = b - suc a - n
days_left (negsuc a) (negsuc b) n = 0

pub expired : System → Spwd → Bool
expired y sp = positive sp.expire && sum_below sp.expire (pos 0) y.today

-- The difference of the days is an `unsigned long`.
pub inactive : System → List ℕ → Passwd → Spwd → Bool
inactive y user pw sp =
    let llt = y.get_last_login_time pw.uid user in
    let days = (2 ^ 64 + y.today - llt / (24 * 60 * 60)) % 2 ^ 64 in
    positive sp.inact && (not (llt == 0) && sum_below sp.inact (pos 0) days)

pub is_zero : ℤ → Bool
is_zero (pos n) = n == 0
is_zero (negsuc n) = false

pub outdated : System → Spwd → Bool
unfolding is_zero
outdated y sp = is_zero sp.lstchg || (positive sp.max && sum_below sp.lstchg sp.max y.today)

-- The part about the shadow entry, if there is one: it returns the encrypted password that counts,
-- or `none` if the login is not permitted.
pub check_spwd : Options → System → List ℕ → Passwd → Spwd → Globals → Option (List ℕ) × Globals
unfolding days_left
check_spwd o y user pw sp g =
    let g1 =
      if positive sp.expire
      then record g { days_before_account_expires = some (days_left sp.expire (pos 0) y.today) }
      else g in
    let forced = record g1 {
      forced_command = some (take 100 y.passwd_path ++ (b' ' ∷ take 100 user));
      command_terminated = true;
    } in
    let g2 =
      if positive sp.max
      then record g1 { days_before_password_expires = some (days_left sp.lstchg sp.max y.today) }
      else g1 in
    if expired y sp
    then (none, g)
    else if inactive y user pw sp
    then (none, g1)
    else if outdated y sp
    then (if o.forced_passwd_change then (some sp.pwdp, forced) else (none, g1))
    else (some sp.pwdp, g2)

pub check_shadow : Options → System → List ℕ → Passwd → Globals → Option (List ℕ) × Globals
unfolding check_spwd same
check_shadow o y user pw g = elim (y.getspnam user) [
  | none ↦ if y.shadow_exists && same pw.passwd (b'x' ∷ []) then (none, g) else (some pw.passwd, g)
  | some sp ↦ check_spwd o y user pw sp g
]

-- The encrypted password is cut to five characters before this.
pub locked : List ℕ → Bool
unfolding same
locked passwd = same (take 4 (take 5 passwd)) (b'*' ∷ b'L' ∷ b'K' ∷ b'*' ∷ [])

pub any : (List ℕ → Bool) → List (List ℕ) → Bool
any f [] = false
any f (x ∷ xs) = if f x then true else any f xs

pub given : List (List ℕ) → Bool
given [] = false
given (x ∷ xs) = true

pub user_permitted : Options → System → List ℕ → Bool
unfolding any given
user_permitted o y user =
    let matches : List ℕ → Bool =
      λ p. match_user user y.canonical_hostname (some y.remote_ipaddr) p in
    if given o.allow_users && not (any matches o.allow_users)
    then false
    else not (given o.deny_users && any matches o.deny_users)

-- A group that is not known has no name that the options can match.
pub group_permitted : Options → System → Passwd → Bool
unfolding any given
group_permitted o y pw = elim (y.getgrgid pw.gid) [
  | none ↦ not (given o.allow_groups)
  | some group ↦
      if given o.allow_groups && not (any (match_pattern group) o.allow_groups)
      then false
      else not (given o.deny_groups && any (match_pattern group) o.deny_groups)
]

unfoldable pub login_permitted : Options → System → List ℕ → Passwd → Globals → Bool × Globals
unfolding check_shadow locked user_permitted group_permitted
login_permitted o y user pw g =
    let r = check_shadow o y user pw g in
    elim r.0 [
      | none ↦ (false, r.1)
      | some passwd ↦ (
        if locked passwd
            then false
            else if user_permitted o y user
            then group_permitted o y pw
            else false,
        r.1,
      )
    ]
