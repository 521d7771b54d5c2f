-- ===== src/Agent/Code.antt =====
-- The message types of authfd.h, without SSH_AGENT_ and SSH_AGENTC_, and the notice of ssh2.
use ssh_1_history.Prelude.{ℕ}

abbrev pub request_rsa_identities : ℕ
request_rsa_identities = 1

abbrev pub rsa_identities_answer : ℕ
rsa_identities_answer = 2

abbrev pub rsa_challenge : ℕ
rsa_challenge = 3

abbrev pub rsa_response : ℕ
rsa_response = 4

abbrev pub failure : ℕ
failure = 5

abbrev pub success : ℕ
success = 6

abbrev pub add_rsa_identity : ℕ
add_rsa_identity = 7

abbrev pub remove_rsa_identity : ℕ
remove_rsa_identity = 8

abbrev pub remove_all_rsa_identities : ℕ
remove_all_rsa_identities = 9

abbrev pub forwarding_notice : ℕ
forwarding_notice = 206
