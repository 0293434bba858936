-- ===== src/PwDaemon/Main.antt =====
-- `main`, `connect_local` and `mode_pw`, which is not called, of core/modules/run-virt/pw_daemon.c.
pub mod Uid
use mltk.Common.{
  ℕ, suc, ◌+◌, ◌-◌, ◌*◌, ◌%◌, ◌^◌, Bool, true, false, not, ◌&&◌, List, [], ◌∷◌, Option, none, some,
  if◌then◌else◌, ltb, leb, ◌==◌, length, take, codes, c_str, eqb_list, is_digit, is_space,
  skip_space, read_digits, min,
}
use mltk.PwDaemon.Serve.{Exit, buffer_size, mode_query}
use mltk.PwDaemon.Daemon.{Start, exits}

-- What follows the digits at the head.
unfoldable pub after_digits : List ℕ → List ℕ
after_digits [] = []
after_digits (c ∷ cs) = if is_digit c then after_digits cs else c ∷ cs

-- The digits of `strtoul`, of 64 bits, after the sign: the value and the end; a text without digits
-- is not read at all, and its end is `start`.
unfoldable pub read_unsigned : List ℕ → Bool → List ℕ → ℕ × List ℕ
unfolding after_digits
read_unsigned start negative [] = (0, start)
read_unsigned start negative (c ∷ cs) =
    let value = read_digits 0 (c ∷ cs) in
    let wrapped = if negative then (2 ^ 64 - value) % 2 ^ 64 else value in
    if is_digit c
    then (if ltb value (2 ^ 64) then wrapped else 2 ^ 64 - 1, after_digits (c ∷ cs))
    else (0, start)

unfoldable pub read_sign : List ℕ → List ℕ → ℕ × List ℕ
unfolding read_unsigned
read_sign start [] = (0, start)
read_sign start (c ∷ cs) =
    if c == b'-'
    then read_unsigned start true cs
    else if c == b'+'
    then read_unsigned start false cs
    else read_unsigned start false (c ∷ cs)

unfoldable pub strtoul : List ℕ → ℕ × List ℕ
unfolding read_sign skip_space
strtoul s = read_sign s (skip_space s)

abbrev pub is_end : List ℕ → Bool
is_end [] = true
is_end (c ∷ cs) = false

-- `uid_t` has 32 bits. None if the argument is empty or is not read to its end.
unfoldable pub parse_uid : List ℕ → Option ℕ
unfolding strtoul
parse_uid arg =
    let r = strtoul arg in
    if is_end arg then none else if is_end r.1 then some (r.0 % 2 ^ 32) else none

-- Whether there is a connection: `sun_path` takes 107 bytes of the path.
unfoldable pub connect_local : Bool → (List ℕ → Bool) → List ℕ → Bool
connect_local socket connects path = socket && connects (take 107 path)

unfoldable pub check_pw_reply : List ℕ → Exit
check_pw_reply buffer =
    if ltb (length buffer) 1
    then record { code = 1; printed = [] }
    else record { code = 0; printed = c_str buffer }

unfoldable pub mode_pw : Bool → Bool → Option (List ℕ) → Exit
unfolding check_pw_reply
mode_pw connected written reply =
    if not connected
    then record { code = 1; printed = [] }
    else if not written
    then record { code = 1; printed = [] }
    else elim reply [
      | none ↦ record { code = 1; printed = [] }
      | some sent ↦ check_pw_reply (take (buffer_size - 1) sent)
    ]

-- A run becomes a daemon, or asks one, or neither.
pub data Run : Type 0 where
  daemon : Start → Run
  query : Exit → Run
  refused : ℕ → Run

unfoldable pub run_daemon : (ℕ → Start) → Option ℕ → Run
run_daemon mode_daemon none = refused 1
run_daemon mode_daemon (some uid) = daemon (mode_daemon uid)

-- For the two modes, the daemon's for a uid and the query's for a path, and the arguments.
unfoldable pub main : (ℕ → Start) → (List ℕ → Exit) → List (List ℕ) → Run
unfolding parse_uid run_daemon
main mode_daemon mode_query (program ∷ mode ∷ arg ∷ rest) =
    if eqb_list mode (codes "--daemon")
    then run_daemon mode_daemon (parse_uid arg)
    else if eqb_list mode (codes "--query")
    then query (mode_query arg)
    else refused 1
main mode_daemon mode_query args = refused 1
