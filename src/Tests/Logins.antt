-- ===== src/Tests/Logins.antt =====
-- A user who logs in to a server.
use ssh_1_history.Prelude.{
  ℕ, suc, sym, ap, some-injective, ◌≡◌, ◌↔◌, refl, Bool, true, false, List, [], ◌∷◌, ◌++◌, map,
  none, some, ok, err, Ensures, returns, disconnected, too_many_attempts, replicate, leb,
  if◌then◌else◌, arith,
}
use ssh_1_history.Bufaux.{put_32bit}
use ssh_1_history.Bufaux.MpInt.{put_16bit, pack, to_bytes}
use ssh_1_history.Bufaux.MpInt.Instances.{one, two, small}
use ssh_1_history.Agent.{find_key}
use ssh_1_history.Agent.Client.{decrypt_challenge}
use ssh_1_history.Agent.Exchange.{serve}
use ssh_1_history.Auth
use ssh_1_history.Auth.Code
use ssh_1_history.Bufaux.MpInt.RoundTrip.{mp_bytes}
use ssh_1_history.Auth.{Suffix_refl, Passwd, Options, Globals}
use ssh_1_history.Auth.Permission.{System, login_permitted}
use ssh_1_history.Auth.Permission.Declared.{Permitted, login_permitted-Permitted_iff}
use ssh_1_history.Auth.Dialog.{Rsa, challenge, challenge_dialog}
use ssh_1_history.Auth.Dialog.Agreement.{
  Matched, answered, challenged, decrypt_challenge-challenge_dialog,
}
use ssh_1_history.Auth.KeyOptions.{process_options, codes}
use ssh_1_history.Auth.KeyOptions.Rejected.{process_options-rejected}
use ssh_1_history.Auth.Requests.{
  Login, Checks, Connection, closed, fail_loop, authenticate, do_authentication,
}
use ssh_1_history.Auth.Requests.Reasons.{Deserved}
use ssh_1_history.Auth.Requests.Ending.{do_authentication-Deserved}
use ssh_1_history.Auth.Requests.Passwords.{packet, with_packets, authenticate-fail_loop}
use ssh_1_history.Auth.Keys.{KeyFiles, auth_rsa}
use ssh_1_history.Auth.Keys.Authorized.{Left, Authorized, auth_rsa-Authorized}
use ssh_1_history.Auth.Keys.Composed.{with_keys, KeyHeld, do_authentication-Authorized}
use ssh_1_history.Tests.Agents.{blank, identity, held}

abbrev plain : Rsa small
plain = record {
  State = ℕ;
  random_integer = λ s. (two, suc s);
  mod_ = λ a n. a;
  public_encrypt = λ input bits e n s. some (input, s);
  linearize_msb_first = λ n v. [];
  md5 = λ bytes. replicate 16 0;
}

abbrev user : List ℕ
user = codes "ann"

abbrev ann : Passwd
ann = record { passwd = codes "x"; uid = 100; gid = 5 }

abbrev secret : List ℕ
secret = codes "pw"

abbrev options : Options
options = record {
  password_authentication = true;
  rhosts_authentication = false;
  rhosts_rsa_authentication = false;
  rsa_authentication = true;
  permit_root_login = 0;
  forced_passwd_change = true;
  allow_users = codes "a*" ∷ [];
  deny_users = [];
  allow_groups = [];
  deny_groups = [];
}

abbrev system : System
system = record {
  getspnam = λ u. none;
  shadow_exists = false;
  today = 10000;
  get_last_login_time = λ uid u. 0;
  passwd_path = codes "/bin/passwd";
  getgrgid = λ gid. some (codes "users");
  canonical_hostname = codes "host";
  remote_ipaddr = codes "1.2.3.4";
}

abbrev globals : Globals
globals = record {
  forced_command = none;
  command_terminated = false;
  days_before_account_expires = none;
  days_before_password_expires = none;
  no_port_forwarding = false;
  no_agent_forwarding = false;
  no_x11_forwarding = false;
  no_pty = false;
  idle_timeout = 0;
  custom_environment = [];
}

abbrev right : List ℕ → Bool
right [] = false
right (c ∷ []) = false
right (c ∷ (d ∷ cs)) = true

abbrev checks : Checks small plain
checks = record {
  getuid = 0;
  getpwnam = λ u. some ann;
  auth_password = λ u p. right p;
  auth_rhosts = λ pw u. false;
  host_known = λ bits e n. false;
  auth_rsa = λ pw n s. ok (false, s);
  auth_rsa-Suffix = λ pw n s. returns (Suffix_refl s.session.incoming);
}

abbrev connection : Connection
connection = record {
  user = user;
  privileged_port = false;
  cipher_type = 3;
  session_id = replicate 16 1;
}

-- A wrong password and then a right one.
abbrev login : Login small plain
login = record {
  generator = 0;
  session = record { incoming = packet (codes "p") ∷ packet secret ∷ []; outgoing = [] };
  globals = globals;
  password_attempts = 0;
}

-- One line of a file of authorized keys.
abbrev files : KeyFiles small
files = record {
  key_lines = λ pw. some (codes "no-pty 2 1 2 ann" ∷ []);
  read_key = λ line. some (2, (one, two));
  match_hostname = λ patterns. false;
}

do_authentication-Deserved_example :
    Ensures
      (Deserved checks options system connection login)
      (do_authentication checks options system connection login)
do_authentication-Deserved_example =
    do_authentication-Deserved checks options system connection login

-- A request to log in with the key `two`, and the response to its challenge.
abbrev with_key : Login small plain
with_key = record login {
  session = record {
    incoming =
        (Auth.Code.auth_rsa, mp_bytes small two)
        ∷ (Auth.Code.auth_rsa_response, replicate 16 0)
        ∷ [];
    outgoing = [];
  };
}

do_authentication-Authorized_example :
    Ensures
      (KeyHeld
        (with_keys checks files connection.session_id)
        files
        options
        system
        connection
        with_key)
      (do_authentication
        (with_keys checks files connection.session_id)
        options
        system
        connection
        with_key)
do_authentication-Authorized_example =
    do_authentication-Authorized checks files options system connection with_key

auth_rsa-Authorized_example :
    Ensures
      (Left (λ t. Authorized files (replicate 16 1) ann two with_key t) with_key)
      (auth_rsa files (replicate 16 1) ann two with_key)
auth_rsa-Authorized_example = auth_rsa-Authorized files (replicate 16 1) ann two with_key

login_permitted-Permitted_iff_example :
    ((login_permitted options system user ann globals).0 ≡ true) ↔ Permitted options system user ann
login_permitted-Permitted_iff_example =
    login_permitted-Permitted_iff options system user ann globals

process_options-rejected_example :
    process_options
      (λ patterns. false)
      (codes "command=\""
        ++ (codes "l"
            ++ (b'"' ∷ (b',' ∷ (codes "from=\"" ++ (codes "h" ++ (b'"' ∷ codes " 2 1 2")))))))
      globals
    ≡ ok (false, record globals { forced_command = some (codes "l"); command_terminated = true })
process_options-rejected_example =
    process_options-rejected (λ patterns. false) (codes "l") (codes "h") (codes " 2 1 2") globals
      ((λ e. omega arith, λ e. omega arith), tt) ((λ e. omega arith, λ e. omega arith), tt) refl

authenticate-fail_loop_example :
    authenticate checks options connection ann
      (with_packets login (map packet (codes "p" ∷ codes "q" ∷ [])))
    ≡ (if leb 2 5
        then ok (
            closed
              (fail_loop (with_packets login (map packet (codes "p" ∷ codes "q" ∷ []))).session))
        else err (disconnected too_many_attempts))
authenticate-fail_loop_example =
    authenticate-fail_loop checks options connection ann (codes "p" ∷ codes "q" ∷ []) login refl
      refl refl ((omega arith, refl), ((omega arith, refl), tt)) refl

plain-Matched : Matched small plain blank (identity one)
plain-Matched = record {
  decrypted = λ state x e. ap (λ y. some y.0) (sym (some-injective e));
  linearized = λ n c. refl;
  hashed = λ bytes. refl;
}

decrypt_challenge-challenge_dialog_example :
    (response : List ℕ) × (decrypt_challenge small
        (serve blank held)
        2
        one
        one
        two
        (replicate 16 1)
        1
      ≡ ok (some response))
    × (challenge_dialog small plain
          (replicate 16 1)
          2
          one
          one
          (0, answered login.session response [])
        ≡ ok (true, (1, challenged small two login.session [])))
unfolding challenge find_key put_32bit put_16bit pack to_bytes
decrypt_challenge-challenge_dialog_example =
    decrypt_challenge-challenge_dialog small plain blank held (identity one) (replicate 16 1) 0
      (two, 1) login.session [] plain-Matched refl refl (omega arith) (omega arith) (omega arith)
      (omega arith) refl (omega arith)
