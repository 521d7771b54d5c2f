-- ===== src/Lib.antt =====
-- SSH 1: the history of the secure shell, version 1.2.x. This library models the part of the program
-- that both sides share, from bytes in memory up to forwarded connections, the agent and how a client
-- logs in, with theorems about each part.
--
-- The parts, from the bottom up, each over those before it:
-- - Buffer (buffer.c, buffer.h, xmalloc.c): the growing byte queue in one block of memory. The record
--   `Buffer` is the C structure; sizes wrap at 32 bits, a copy outside the block is a failure of its
--   own. `malloc` and `realloc` are the interface Buffer.Memory.Allocator, with their documented laws.
--   Buffer.Queue is the abstract queue that all other parts use; Buffer.Refine and Buffer.Run relate
--   the two.
-- - Bufaux (bufaux.c, getput.h): integers, strings and characters in a buffer. Bufaux.MpInt has the
--   integers of multiple precision; the gmp library behind them is the interface Gmp.
-- - Crc32 (crc32.c): the check sum; Crc32.Table, Crc32.Linear and Crc32.Detects on what it computes.
-- - Arcfour (arcfour.c, arcfour.h): the stream cipher.
-- - Blowfish (blowfish.c, blowfish.h): the key schedule with its constant tables (Blowfish.Tables,
--   Blowfish.Key), the cipher on one block, and the chains over blocks (Blowfish.Chain).
-- - Match (match.c): patterns for hosts and users. Match.Glob says what a pattern means.
-- - Hostfile (hostfile.c): `match_hostname`, a host against a list of patterns with commas; what the
--   options of an authorized key call of it is still a parameter of Auth.KeyOptions.
-- - Cipher: interfaces to the ciphers, to the streams of zlib behind compress.c and to the generator of
--   random.c, with the laws that packet.c relies on. Cipher.Instances fills the first with arcfour and
--   with no cipher.
-- - Packet (packet.c): the binary packet protocol. The module's variables are the record `Packet`;
--   functions take and return it. The attack detector of deattack.c is a parameter. Packet.Build,
--   Packet.Send, Packet.Receive and Packet.RoundTrip follow a packet from packet_start on one side to
--   packet_read_poll on the other; Packet.Poll is about that function as a whole.
-- - Channels (newchannels.c): the table of forwarded connections. A `Channel *` is an index into the
--   table; messages that are sent and calls of the system are recorded in order. Channels.Table holds
--   allocation and the walks over the table, Channels.Handlers the message handlers, the other modules
--   the proofs.
-- - Agent (ssh-agent.c): the identities of the agent, as a list in the order of its array, and its
--   handlers; Agent.Client (authfd.c, and list_identities of ssh-add.c): the calls by which other
--   programs use it, over a socket that is a function from what is written to what can be read.
--   Agent.Exchange puts the two at the ends of one socket. RSA decryption, linearization and MD5
--   (rsaglue.c, mpaux.c, md5.c) are the interface Decryptor.
-- - Auth (sshd.c, auth-rsa.c, auth-rh-rsa.c): who may log in (Auth.Permission, `login_permitted`), the
--   challenge by an RSA key (Auth.Dialog), the options of an authorized key (Auth.KeyOptions), the
--   search of the keys (Auth.Keys, `auth_rsa`), and the requests of the client (Auth.Requests,
--   `do_authentication`). The packets are a list; its end is a client that closes the connection.
--   Password, .rhosts and known-host checks, files, RSA and MD5 are the interfaces Checks, KeyFiles
--   and Rsa, and what the system tells of accounts is the record System. Auth.Keys.Composed fills the
--   check of RSA keys of the first with the search of the keys.
-- - Prelude: shared names, lists measured by native numbers, runs that may fail (Prelude.Results: a
--   call of fatal, packet_disconnect or a failed assertion is a value with its reason), bits.
-- - Tests: the theorems at concrete inputs.
--
-- Fuel: buffer_append_space jumps back at most twice, and gets three rounds; packet_read_poll jumps
-- back once for each ignored message, which takes at least twelve bytes of input, and gets as many
-- rounds as there are bytes; closing the input and the output of a channel calls the other direction
-- at most once each, and gets three calls; the loop over the requests of a client, the loop over the
-- options of a key and the loop over the patterns for a host take a packet or a character in each
-- round, and get one round more than there are. In each case running out is a failure of its own, and
-- the theorems exclude it where they apply. All other loops are structural recursion.
--
-- Not modelled: cipher.c, the block ciphers idea.c and des.c, deattack.c, random.c, rsa.c,
-- auth-rhosts.c, auth-passwd.c, the rest of hostfile.c, Kerberos, TIS, the sessions and main loops of
-- server and client, the configuration files, select and sockets in newchannels.c and ssh-agent.c,
-- the gmp library and zlib. `login_permitted` is modelled as it is compiled with shadow passwords with
-- their expiration and inactivity, and without the other systems' variants. The text of messages to
-- the user and debugging output are left out. Fields of a channel that only opening uses (path,
-- host_port, listening_port) are left out too.
pub mod Prelude
pub mod Crc32
pub mod Buffer
pub mod Bufaux
pub mod Match
pub mod Hostfile
pub mod Arcfour
pub mod Cipher
pub mod Packet
pub mod Channels
pub mod Tests
pub mod Blowfish
pub mod Agent
pub mod Auth
