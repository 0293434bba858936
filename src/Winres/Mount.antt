-- ===== src/Winres/Mount.antt =====
-- `mount` and `mountNetworkShare` of core/modules/run-virt/winres/src/winres.c: how a share is
-- connected, and under which drive letter.
pub mod Letters
use mltk.Common.{
  ℕ, zero, suc, ◌+◌, ◌-◌, Bool, true, false, not, ◌&&◌, ◌||◌, List, [], ◌∷◌, ◌++◌, Option, none,
  some, if◌then◌else◌, ◌==◌, ltb, length, get_or, eqb_list, codes, take,
}
use mltk.Winres.ShareFile.{Drive}

-- The results of `WNetAddConnection2W` that the code tells apart.
pub data Status : Type 0 where
  no_error : Status
  invalid_password logon_failure bad_username access_denied : Status
  session_credential_conflict bad_net_name not_authenticated not_logged_on : Status
  already_assigned device_already_remembered connection_unavail : Status
  invalid_parameter other_error : Status

-- A call of it: whether a printer is meant, the local name, the share, the password and the user.
pub record Request : Type 0 where
  pub print : Bool
  pub local : List ℕ
  pub remote : List ℕ
  pub pass : List ℕ
  pub user : List ℕ

-- `mount` gives up after these results of the first call, and else tries the session's credentials.
abbrev pub bad_credentials : Status → Bool
bad_credentials no_error = false
bad_credentials invalid_password = true
bad_credentials logon_failure = true
bad_credentials bad_username = true
bad_credentials access_denied = true
bad_credentials session_credential_conflict = true
bad_credentials bad_net_name = true
bad_credentials not_authenticated = true
bad_credentials not_logged_on = true
bad_credentials already_assigned = false
bad_credentials device_already_remembered = false
bad_credentials connection_unavail = false
bad_credentials invalid_parameter = false
bad_credentials other_error = false

-- The letter is taken, so that another may do.
abbrev pub is_taken : Status → Bool
is_taken no_error = false
is_taken invalid_password = false
is_taken logon_failure = false
is_taken bad_username = false
is_taken access_denied = false
is_taken session_credential_conflict = false
is_taken bad_net_name = false
is_taken not_authenticated = false
is_taken not_logged_on = false
is_taken already_assigned = true
is_taken device_already_remembered = true
is_taken connection_unavail = true
is_taken invalid_parameter = false
is_taken other_error = false

-- After these results of the search for a letter a new attempt would not help.
abbrev pub is_final : Status → Bool
is_final no_error = false
is_final invalid_password = true
is_final logon_failure = true
is_final bad_username = true
is_final access_denied = true
is_final session_credential_conflict = true
is_final bad_net_name = false
is_final not_authenticated = false
is_final not_logged_on = false
is_final already_assigned = false
is_final device_already_remembered = false
is_final connection_unavail = false
is_final invalid_parameter = false
is_final other_error = false

abbrev pub is_ok : Status → Bool
is_ok no_error = true
is_ok s = false

abbrev pub is_conflict : Status → Bool
is_conflict session_credential_conflict = true
is_conflict s = false

-- `MultiByteToWideChar` into a buffer of so many places, the final NUL included; and the network,
-- which answers a request in the same way throughout one call.
pub record Windows : Type 0 where
  pub convert : ℕ → List ℕ → Option (List ℕ)
  pub connect : Request → Status

-- `suser` and `spass`, and the static `nuser` and `npass` of `mount`, both empty at first.
pub record Login : Type 0 where
  pub suser : Option (List ℕ)
  pub spass : Option (List ℕ)

pub record Cache : Type 0 where
  pub nuser : List ℕ
  pub npass : List ℕ

abbrev pub is_empty : List ℕ → Bool
is_empty [] = true
is_empty (c ∷ cs) = false

abbrev pub or_empty : Option (List ℕ) → List ℕ
or_empty none = []
or_empty (some text) = text

abbrev pub buffer_of : Option (List ℕ) → Bool × List ℕ
buffer_of none = (false, [])
buffer_of (some text) = (true, text)

-- A text that is there is converted; a missing one counts as converted, and leaves the buffer empty.
abbrev pub converted : Windows → ℕ → Option (List ℕ) → Bool × List ℕ
converted w size none = (true, [])
converted w size (some text) = elim (w.convert size text) [
  | none ↦ (false, [])
  | some t ↦ (true, t)
]

-- The session's credentials are converted if none are there.
unfoldable pub refresh : Windows → Login → Cache → Bool × Cache
refresh w login cache =
    let user = converted w 200 login.suser in
    let pass = converted w 200 login.spass in
    if is_empty cache.nuser && is_empty cache.npass
    then (user.0 && pass.0, record { nuser = user.1; npass = pass.1 })
    else (true, cache)

-- The attempt with the session's credentials.
unfoldable pub mount_session : Windows → Login → Cache → Request → Status × Cache
unfolding refresh
mount_session w login cache r =
    let fresh = refresh w login cache in
    if fresh.0
    then (w.connect (record r { pass = fresh.1.npass; user = fresh.1.nuser }), fresh.1)
    else (invalid_parameter, fresh.1)

unfoldable pub mount : Windows → Login → Cache → Request → Status × Cache
unfolding mount_session
mount w login cache r =
    let first = w.connect r in
    let session = mount_session w login cache r in
    if is_empty r.pass && is_empty r.user
    then session
    else if is_ok first || not (bad_credentials first)
    then (first, cache)
    else session

-- Whether it is done, and the letter that `postSuccessfulMount` is called with.
pub record Outcome : Type 0 where
  pub done : Bool
  pub mounted : Option (List ℕ)
  pub cache : Cache

-- The search for a free letter, downwards; `n` is the letter's distance from C.
unfoldable pub letter_loop : ℕ → Windows → Login → Cache → Request → Outcome
unfolding mount
letter_loop zero w login cache r = record { done = false; mounted = none; cache = cache }
letter_loop (suc n) w login cache r =
    let local = (b'C' + suc n) ∷ b':' ∷ [] in
    let m = mount w login cache (record r { local = local }) in
    let next = letter_loop n w login m.1 r in
    if is_taken m.0
    then next
    else if is_ok m.0
    then record { done = true; mounted = some local; cache = m.1 }
    else record { done = is_final m.0; mounted = none; cache = m.1 }

-- The local name for a letter that is given.
unfoldable pub local_name : List ℕ → List ℕ
local_name letter =
    if eqb_list (codes "PRINTER") letter || get_or letter 0 0 == b'-'
    then []
    else get_or letter 0 0 ∷ b':' ∷ []

-- After the attempt with the letter that is given.
unfoldable pub after_first : Windows → Login → Request → Status × Cache → Outcome
unfolding letter_loop
after_first w login r m =
    if is_ok m.0 || (r.print && is_conflict m.0)
    then record { done = true; mounted = some r.local; cache = m.1 }
    else if not (is_taken m.0) || r.print
    then record { done = false; mounted = none; cache = m.1 }
    else letter_loop 23 w login m.1 r

abbrev pub no_letter : List ℕ → Bool
no_letter letter = is_empty letter || get_or letter 0 0 == b'?'

-- A share whose path is converted.
unfoldable pub mount_path : Windows → Login → Cache → Request → List ℕ → Outcome
unfolding letter_loop after_first
mount_path w login cache r letter =
    if no_letter letter
    then letter_loop 23 w login cache (record r { print = false })
    else after_first w login r (mount w login cache r)

-- The request for a letter, with its name and its type.
unfoldable pub first_request : List ℕ → List ℕ → List ℕ → List ℕ → Request
unfolding local_name
first_request path letter user pass = record {
  print = eqb_list (codes "PRINTER") letter;
  local = local_name letter;
  remote = path;
  pass = pass;
  user = user;
}

-- With the path that is used, by name or by address.
unfoldable pub mount_unc : Windows → Login → Cache → Drive → List ℕ → Outcome
unfolding mount_path first_request
mount_unc w login cache d unc =
    let path = converted w 200 (some unc) in
    let letter = converted w 10 d.letter in
    let user = converted w 200 d.user in
    let pass = converted w 200 d.pass in
    let shortcut = converted w 200 d.shortcut in
    if not (path.0 && (letter.0 && user.0 && pass.0 && shortcut.0)) || is_empty path.1
    then record { done = true; mounted = none; cache = cache }
    else mount_path w login cache (first_request path.1 letter.1 user.1 pass.1) letter.1

unfoldable pub mount_network_share : Windows → Login → Cache → Drive → Bool → Outcome
unfolding mount_unc
mount_network_share w login cache d false = mount_unc w login cache d d.path
mount_network_share w login cache d true =
    if is_empty (or_empty d.path_ip)
    then record { done = false; mounted = none; cache = cache }
    else mount_unc w login cache d (or_empty d.path_ip)
