-- ===== src/Examples/Guest.antt =====
-- Examples for the guest's side and the way of the password.
use mltk.Common.{
  ◌↔◌, get_or, pos, negsuc, ◌==◌, ℕ, ◌≡◌, ◌≤◌, ◌<◌, ◌++◌, refl, true, false, List, [], ◌∷◌, Option,
  some, none, codes, arith, length, if◌then◌else◌,
}
use mltk.Examples.Data.{sixteen, alice, secret, vars, vars-IsSetUp, secret_text}
use mltk.PwDaemon.Serve.{udp_reply}
use mltk.PwDaemon.Keys.{xor_string}
use mltk.Winres.Token.{get_token}
use mltk.Winres.Token.Trim.{IsField, get_token_cuts_last}
use mltk.Winres.ShareFile.{Shares, Drive, read_share_file, drivemax}
use mltk.Winres.Mount.{Windows, Login, Cache, no_error, already_assigned, mount_network_share}
use mltk.Winres.Mount.Letters.{IsMounted, mount_network_share-IsMounted}
use mltk.Winres.Query.{Remote, System, Query, request, ended, query_password_daemon, receive}
use mltk.Session.Ask.{query_password_daemon-receive}
use mltk.Winres.Shares.{Mounts}
use mltk.Winres.ShareFile.Credentials.{visible-IsField}
use mltk.Winres.ShareFile.Lines.{read_share_file_total}
use mltk.Session.Cipher.{prefix_length, prefix_length_iff}
use mltk.Session.Fields.{queried}
use mltk.Session.Handover.{has_keys, read_share_file-queried}

prefix_length_iff_example :
    (prefix_length (xor_string secret sixteen) ≡ length secret) ↔ (length secret < 256)
prefix_length_iff_example = prefix_length_iff secret sixteen

abbrev pub host : List ℕ
host = codes "10.0.0.1"

pub host-IsField : IsField host
host-IsField = visible-IsField host (ground arith)

pub alice-IsField : IsField alice
alice-IsField = visible-IsField alice (ground arith)

get_token_cuts_last_example : get_token (host ++ b' ' ∷ b'x' ∷ []) true ≡ (some host, [])
get_token_cuts_last_example =
    get_token_cuts_last host b'x' host-IsField (omega arith) (ground arith)

abbrev pub unresolved : List ℕ → Option (List ℕ)
unresolved name = none

abbrev empty_shares : Shares
empty_shares = record {
  share_file_ok = false;
  shost = none;
  sport = none;
  suser = none;
  spass = none;
  bkey1 = none;
  bkey2 = none;
  drives = [];
}

abbrev pub drive_line : List ℕ
drive_line = codes "\\\\nas\\home\tH:\thome\t\t\n"

read_share_file_total_example :
    (st' : Shares) × (read_share_file unresolved (some (host ++ drive_line)) empty_shares
      ≡ some st')
    × (length st'.drives ≤ drivemax)
read_share_file_total_example =
    read_share_file_total unresolved (some (host ++ drive_line)) empty_shares (omega arith)

read_share_file-queried_example :
    (ds : List Drive) × (length ds ≤ drivemax)
    × (read_share_file unresolved
          (some (host ++ (b'\t' ∷ (queried vars 41000 1000 ++ drive_line))))
          empty_shares
        ≡ some (has_keys empty_shares host 41000 vars ds))
read_share_file-queried_example =
    read_share_file-queried alice secret host vars 41000 1000 vars-IsSetUp host-IsField
      alice-IsField (ground arith) (omega arith) (omega arith) (omega arith) (omega arith)
      unresolved drive_line empty_shares refl

-- A network that knows one letter is taken, and takes the others; texts are converted as they are.
abbrev windows : Windows
windows = record {
  convert = λ size text. some text;
  connect = λ r. if get_or r.local 0 0 == b'Z' then already_assigned else no_error;
}

abbrev drive : Drive
drive = record {
  path = codes "nas";
  path_ip = none;
  letter = some (codes "?");
  shortcut = none;
  user = none;
  pass = none;
  success = false;
}

abbrev login : Login
login = record { suser = some alice; spass = some secret }

abbrev no_cache : Cache
no_cache = record { nuser = []; npass = [] }

mounted_y : (mount_network_share windows login no_cache drive false).mounted ≡ some (codes "Y:")
unfolding mount_network_share
mounted_y = refl

mount_network_share-IsMounted_example :
    (path : List ℕ) × (windows.convert 200 drive.path ≡ some path)
    × IsMounted windows path (codes "Y:")
mount_network_share-IsMounted_example =
    mount_network_share-IsMounted windows login no_cache drive false (codes "Y:") mounted_y

abbrev mounts : Mounts
mounts = record { attempt_no = 0; drives = drive ∷ []; cached = no_cache }

abbrev remote : Remote
remote = record { shost = host; sport = codes "1042"; bkey1 = vars.key1; bkey2 = vars.key2 }

abbrev network : System
network = record { window_error = 0; wsa_startup = 0; has_socket = true; sent_bytes = 16 }

abbrev unasked : Query
unasked = record { spass = none; wsa_init = 1337; sock = false }

first_call : (query_password_daemon network true remote unasked).code ≡ negsuc 0
unfolding query_password_daemon
first_call = refl

query_password_daemon-receive_example :
    let asked = query_password_daemon network true remote unasked in
    (reply : List ℕ) × (asked.sent ≡ some (request remote))
    × (udp_reply vars (request remote).payload ≡ some reply)
    × let now = receive windows true (some alice) remote reply asked.after mounts in
      (now.query.spass ≡ some secret)
      × (query_password_daemon network true remote now.query ≡ ended (pos 0) now.query)
query_password_daemon-receive_example =
    query_password_daemon-receive alice secret vars network remote unasked windows (some alice)
      mounts vars-IsSetUp secret_text (omega arith) refl refl first_call
