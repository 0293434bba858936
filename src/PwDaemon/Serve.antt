-- ===== src/PwDaemon/Serve.antt =====
-- What the daemon of core/modules/run-virt/pw_daemon.c answers: `handle_client` is the child that
-- `mode_daemon` forks for a connection on the unix socket, `udp_reply` a round of the UDP listener
-- at the end of `init_udp`, and `mode_query` the client that asks over the unix socket.
pub mod Query
pub mod Access
use mltk.Common.{
  ℕ, ◌+◌, ◌-◌, ◌%◌, bit_xor, Bool, ◌&&◌, not, List, [], ◌∷◌, ◌++◌, Option, none, some, ℤ,
  if◌then◌else◌, ltb, ◌==◌, length, take, drop, get_or, eqb_list, starts_with, codes, show_ℤ, c_str,
  min,
}
use mltk.PwDaemon.Keys.{Vars, keylen}

-- A connection: the uid that SO_PEERCRED reports, if it does, and the bytes that it sends, `none`
-- if the read fails.
pub record Client : Type 0 where
  pub peer_uid : Option ℕ
  pub request : Option (List ℕ)

abbrev no_credentials : List ℕ
no_credentials = codes "Could not get credentials of connection\n"

abbrev uid_mismatch : List ℕ
uid_mismatch = codes "uid mismatch\n"

abbrev pub buffer_size : ℕ
buffer_size = 200

-- The line for GET: the UDP port, both keys in hexadecimal and the user, separated by tabs.
unfoldable pub get_line : Vars → ℤ → List ℕ
get_line v udp_port =
    show_ℤ udp_port
    ++ (b'\t' ∷ (v.key1s ++ (b'\t' ∷ (v.key2s ++ (b'\t' ∷ (v.username ++ (b'\n' ∷ [])))))))

-- Decrypts the password for PW: `passwordEnc[i+2] ^ key2[i % KEYLEN]`.
pub plain_loop : List ℕ → ℕ → List ℕ → List ℕ
plain_loop key i [] = []
plain_loop key i (e ∷ enc) = bit_xor e (get_or key (i % keylen) 0) ∷ plain_loop key (i + 1) enc

-- What is written for a request that was read.
pub answer : Vars → ℤ → List ℕ → List ℕ
unfolding get_line plain_loop
answer v udp_port buffer =
    if starts_with buffer (codes "GET")
    then take (buffer_size - 1) (get_line v udp_port)
    else if starts_with buffer (codes "PW")
    then plain_loop v.key2 0 (take (min (v.password_len - 2) buffer_size) (drop 2 v.password_enc))
    else []

pub handle_client : Vars → ℤ → ℕ → Client → List ℕ
handle_client v udp_port euid c = elim c.peer_uid [
  | none ↦ no_credentials
  | some uid ↦
      if uid == euid
      then (elim c.request [ none ↦ [] | some r ↦ answer v udp_port (take buffer_size r) ])
      else uid_mismatch
]

-- A datagram is cut to KEYLEN bytes, and answered if they are the first key.
unfoldable pub udp_reply : Vars → List ℕ → Option (List ℕ)
udp_reply v datagram =
    let buffer = take keylen datagram in
    if length buffer == keylen && eqb_list v.key1 buffer
    then some (take v.password_len v.password_enc)
    else none

pub record Exit : Type 0 where
  pub code : ℕ
  pub printed : List ℕ

-- The checks on the reply.
pub check_reply : List ℕ → Exit
check_reply buffer =
    let ret = length buffer in
    if ltb ret 1
    then record { code = 1; printed = [] }
    else if get_or buffer (ret - 1) 0 == b'\n'
    then record { code = 0; printed = c_str buffer }
    else record { code = 1; printed = [] }

-- `--query`. `connected` and `written` say whether `connect_local` and `write` succeed; `reply` is
-- what is there to be read, `none` if the read fails.
pub mode_query : Bool → Bool → Option (List ℕ) → Exit
mode_query connected written reply =
    if not connected
    then record { code = 1; printed = [] }
    else if not written
    then record { code = 1; printed = [] }
    else elim reply [
      | none ↦ record { code = 1; printed = [] }
      | some sent ↦ check_reply (take (buffer_size - 1) sent)
    ]
