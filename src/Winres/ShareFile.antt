-- ===== src/Winres/ShareFile.antt =====
-- `readShareFile` of core/modules/run-virt/winres/src/winres.c, with `uncReplaceFqdnByIp`: the
-- credentials and the network drives from shares.dat.
pub mod Lines
pub mod Credentials
pub mod FirstLine
use mltk.Common.{
  ℕ, zero, suc, ◌-◌, ◌+◌, ◌*◌, Bool, true, false, ◌&&◌, ◌||◌, not, List, [], ◌∷◌, ◌++◌, Option,
  none, some, ℤ, pos, ltb_ℤ, if◌then◌else◌, ◌==◌, ltb, length, get_or, drop, c_str, atoi,
  starts_with,
}
use mltk.Winres.Token.{get_token}
use mltk.Winres.Secret.{keylen, hex2bin}

-- `netdrive_t`.
pub record Drive : Type 0 where
  pub path : List ℕ
  pub path_ip : Option (List ℕ)
  pub letter : Option (List ℕ)
  pub shortcut : Option (List ℕ)
  pub user : Option (List ℕ)
  pub pass : Option (List ℕ)
  pub success : Bool

-- The static variables that the file sets.
pub record Shares : Type 0 where
  pub share_file_ok : Bool
  pub shost : Option (List ℕ)
  pub sport : Option (List ℕ)
  pub suser : Option (List ℕ)
  pub spass : Option (List ℕ)
  pub bkey1 : Option (List ℕ)
  pub bkey2 : Option (List ℕ)
  pub drives : List Drive

-- At most n characters, up to and with the first newline, and what follows them.
unfoldable pub take_line : ℕ → List ℕ → List ℕ × List ℕ
take_line zero cs = ([], cs)
take_line (suc n) [] = ([], [])
take_line (suc n) (c ∷ cs) =
    let line = take_line n cs in if c == b'\n' then (c ∷ [], cs) else (c ∷ line.0, line.1)

-- `fgets` with a buffer of `size` bytes: NULL at the end of the file.
unfoldable pub fgets : ℕ → List ℕ → Option (List ℕ × List ℕ)
unfolding take_line
fgets size [] = none
fgets size (c ∷ cs) = let line = take_line (size - 1) (c ∷ cs) in some (c_str line.0, line.1)

-- `strchr(host, '\\')`: what stands before it, and the text from it on.
pub split_host : List ℕ → Option (List ℕ × List ℕ)
split_host [] = none
split_host (c ∷ cs) =
    if c == b'\\'
    then some ([], c ∷ cs)
    else (elim (split_host cs) [ none ↦ none | some (name, rest) ↦ some (c ∷ name, rest) ])

-- `resolve` is `gethostbyname` and `inet_ntoa`: the address in dotted form, if there is one.
pub unc_replace_fqdn_by_ip : (List ℕ → Option (List ℕ)) → List ℕ → Option (List ℕ)
unfolding split_host
unc_replace_fqdn_by_ip resolve path =
    if not (get_or path 0 0 == b'\\') || not (get_or path 1 0 == b'\\')
    then none
    else elim (split_host (drop 2 path)) [
      | none ↦ none
      | some (name, rest) ↦
          if ltb (length name) 200
          then (elim (resolve name) [ none ↦ none | some ip ↦ some (b'\\' ∷ b'\\' ∷ ip ++ rest) ])
          else none
    ]

abbrev is_set : Option (List ℕ) → Bool
is_set none = false
is_set (some s) = true

-- A line of drives; none if it has no path.
pub read_drive : (List ℕ → Option (List ℕ)) → List ℕ → Option Drive
unfolding unc_replace_fqdn_by_ip
read_drive resolve line =
    let (path, p1) = get_token line true in
    let (letter, p2) = get_token p1 true in
    let (shortcut, p3) = get_token p2 false in
    let (user, p4) = get_token p3 true in
    let (pass, p5) = get_token p4 false in
    elim path [
      | none ↦ none
      | some p ↦
          if get_or p 0 0 == 0
          then none
          else some (record {
            path = p;
            path_ip = unc_replace_fqdn_by_ip resolve p;
            letter = letter;
            shortcut = shortcut;
            user = user;
            pass = pass;
            success = false;
          })
    ]

abbrev pub drivemax : ℕ
drivemax = 100

abbrev add_drive : List Drive → Option Drive → List Drive
add_drive drives none = drives
add_drive drives (some d) = drives ++ d ∷ []

-- The loop over the lines after the first, from the drives that are there. `none` means that the
-- fuel ran out.
pub drive_loop : ℕ → (List ℕ → Option (List ℕ)) → List ℕ → List Drive → Option (List Drive)
drive_loop zero resolve file drives = none
drive_loop (suc fuel) resolve file drives = elim (fgets 500 file) [
  | none ↦ some drives
  | some (buffer, rest) ↦
      if ltb (length drives) drivemax
      then drive_loop fuel resolve rest (add_drive drives (read_drive resolve buffer))
      else some drives
]

-- The fields of the first line.
pub record Creds : Type 0 where
  pub host : Option (List ℕ)
  pub port : Option (List ℕ)
  pub hex1 : Option (List ℕ)
  pub hex2 : Option (List ℕ)
  pub user : Option (List ℕ)

unfoldable pub read_creds : List ℕ → Creds
read_creds line =
    let (host, p1) = get_token line true in
    let (port, p2) = get_token p1 true in
    let (hex1, p3) = get_token p2 true in
    let (hex2, p4) = get_token p3 true in
    let (user, p5) = get_token p4 true in
    record { host = host; port = port; hex1 = hex1; hex2 = hex2; user = user }

-- The checks after the file is closed, on the state in which shost, sport and suser are set.
pub check_creds : Shares → List ℕ → List ℕ → List ℕ → List ℕ → Shares
check_creds st host port hex1 hex2 =
    if get_or host 0 0 == b'-' && get_or port 0 0 == b'-'
    then record st { share_file_ok = true; spass = some [] }
    else if not (length hex1 == keylen * 2) || not (length hex2 == keylen * 2)
    then st
    else if ltb_ℤ (atoi port) (pos 1000) || ltb_ℤ (pos 65535) (atoi port)
    then st
    else record st {
      bkey1 = some (hex2bin hex1);
      bkey2 = some (hex2bin hex2);
      share_file_ok = true;
    }

-- With a field missing nothing more is done.
pub finish :
    Shares
    → Option (List ℕ)
    → Option (List ℕ)
    → Option (List ℕ)
    → Option (List ℕ)
    → Option (List ℕ)
    → Shares
unfolding check_creds
finish st (some host) (some port) (some hex1) (some hex2) (some user) =
    check_creds st host port hex1 hex2
finish st host port hex1 hex2 user = st

-- After the first line, of which `creds` is what was read and `rest` the file behind it.
pub read_lines : (List ℕ → Option (List ℕ)) → Shares → Creds → List ℕ → Option Shares
read_lines resolve st c rest = elim (drive_loop (suc (length rest)) resolve rest []) [
  | none ↦ none
  | some drives ↦ some (
      finish (record st { shost = c.host; sport = c.port; suser = c.user; drives = drives }) c.host
        c.port c.hex1 c.hex2 c.user)
]

-- `file` is the text of shares.dat, `none` if it cannot be opened. If not even one line can be
-- read, the pointers stay NULL.
pub open_file : (List ℕ → Option (List ℕ)) → Shares → Option (List ℕ) → Option Shares
open_file resolve st none = some (record st { drives = [] })
open_file resolve st (some text) = elim (fgets 300 text) [
  | none ↦ some (record st { drives = [] })
  | some (creds, rest) ↦ read_lines resolve st (read_creds creds) rest
]

pub read_share_file : (List ℕ → Option (List ℕ)) → Option (List ℕ) → Shares → Option Shares
read_share_file resolve file st = if st.share_file_ok then some st else open_file resolve st file
