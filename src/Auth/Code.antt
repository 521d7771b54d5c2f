-- ===== src/Auth/Code.antt =====
-- The numbers of the messages of authentication, and of some ciphers, in ssh.h and cipher.h.
use ssh_1_history.Prelude.{ℕ}

abbrev pub auth_rhosts : ℕ
auth_rhosts = 5

abbrev pub auth_rsa : ℕ
auth_rsa = 6

abbrev pub auth_rsa_challenge : ℕ
auth_rsa_challenge = 7

abbrev pub auth_rsa_response : ℕ
auth_rsa_response = 8

abbrev pub auth_password : ℕ
auth_password = 9

abbrev pub failure : ℕ
failure = 15

abbrev pub success : ℕ
success = 14

abbrev pub auth_rhosts_rsa : ℕ
auth_rhosts_rsa = 35

abbrev pub cipher_none : ℕ
cipher_none = 0

abbrev pub cipher_arcfour : ℕ
cipher_arcfour = 5
