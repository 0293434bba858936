-- ===== src/Winres/Pump.antt =====
-- `setupNetworkDrives`, `remapViaSharedFolder` and the message pump of `WinMain` in
-- core/modules/run-virt/winres/src/winres.c: two timers work on the drives and on the scripts,
-- and when both are done the password is erased.
pub mod Secret
pub mod Erased
pub mod Drives
pub mod Ends
pub mod Quiet
use mltk.Common.{
  ℕ, zero, suc, ◌+◌, ◌-◌, ◌≡◌, Bool, true, false, not, ◌&&◌, ◌||◌, List, [], ◌∷◌, ◌++◌, Option,
  none, some, if◌then◌else◌, ◌==◌, ltb, eqb_list, codes, map, ℤ, pos, eqb_ℤ, get_or,
}
use mltk.Winres.ShareFile.{Drive}
use mltk.Winres.Mount.{Windows, Login, Outcome, mount_network_share, or_empty}
use mltk.Winres.Shares.{Call, calls_of, Mounts, mount_network_shares}
use mltk.Winres.Scripts.{Scripts, Runner, Run, launch_runscript}
use mltk.Winres.Query.{
  Remote, System, Query, Asked, is_known, query_password_daemon, receive, Received,
}
use mltk.Winres.Folders.Patch.{Shell}
use mltk.Winres.Folders.Targets.{FolderStatus, unknown, error, fs_ok}
use mltk.Winres.Folders.Targets
use mltk.Winres.Folders.Shortcut.{
  RemapMode, rm_none, rm_native, rm_native_fallback, rm_vmware, rm_other, Desk, Settings,
  vmware_home, is_fs_ok, post_successful_mount,
}

-- What does not change: the settings, what shares.dat says, and the scripts.
pub record Guest : Type 0 where
  pub shell : Shell
  pub system : Targets.System
  pub settings : Settings
  pub share_file_ok : Bool
  pub remote : Remote
  pub suser : Option (List ℕ)
  pub scripts : Scripts
  pub home_drive : List ℕ
  pub no_home_warn : Bool

-- What Windows answers to one call: the network, the milliseconds since the start, and the share
-- behind a drive letter.
pub record Answers : Type 0 where
  pub windows : Windows
  pub network : System
  pub elapsed : ℕ
  pub universal_name : ℕ → Option (List ℕ)

pub data Warning : Type 0 where
  home_no_config : Warning
  home_failed : Warning
  home_missing : Warning

-- The variables of the callbacks, whether the socket is closed, the warning that is shown, and
-- whether its box is open. Until it is closed the callback does not return, and other messages are
-- handled by the loop inside `MessageBoxA`.
pub record Pump : Type 0 where
  pub query : Query
  pub closed : Bool
  pub mounts : Mounts
  pub desk : Desk
  pub in_proc : Bool
  pub attempts : ℕ
  pub mount_done : Bool
  pub once : Bool
  pub runner : Runner
  pub deleted : Bool
  pub warned : Option Warning
  pub boxed : Bool

abbrev pub wants_remap : RemapMode → Bool
wants_remap rm_none = false
wants_remap rm_native = false
wants_remap rm_native_fallback = true
wants_remap rm_vmware = true
wants_remap rm_other = false

-- The calls of `postSuccessfulMount`, in their order.
unfoldable pub post_all : Guest → Windows → List Call → Desk → Desk
unfolding post_successful_mount
post_all g w [] k = k
post_all g w (c ∷ cs) k =
    post_all g w cs
      (post_successful_mount w g.shell g.system g.settings c.mounted_drive c.mounted_letter k)

abbrev pub shared_folder : Guest → Drive
shared_folder g = record {
  path = vmware_home;
  path_ip = none;
  letter = some g.home_drive;
  shortcut = some (codes "Home-Verzeichnis");
  user = some [];
  pass = some [];
  success = false;
}

abbrev pub is_shared : Guest → Option (List ℕ) → Bool
is_shared g none = false
is_shared g (some name) =
    eqb_list (map g.shell.lower name) (codes "\\\\vmware-host\\shared folders\\home")

-- The first letter from D on that the folder is mapped to; `left` letters are left up to Z.
unfoldable pub find_letter : Guest → (ℕ → Option (List ℕ)) → ℕ → Option (List ℕ)
find_letter g name zero = none
find_letter g name (suc left) =
    let letter = b'Z' + 1 - suc left in
    let rest = find_letter g name left in
    if is_shared g (name letter) then some (letter ∷ b':' ∷ []) else rest

abbrev pub login : Guest → Pump → Login
login g p = record { suser = g.suser; spass = p.query.spass }

abbrev pub with_calls : Guest → Windows → List Call → Pump → Pump
with_calls g w calls p = record p { desk = post_all g w calls p.desk }

-- The folder is mapped already, under this letter; or it is mapped now.
unfoldable pub remap_letter : Guest → Answers → Pump → Option (List ℕ) → Pump
unfolding post_all
remap_letter g a p (some letter) =
    with_calls g a.windows (calls_of (shared_folder g) (some letter)) p
remap_letter g a p none =
    let o : Outcome =
      mount_network_share a.windows (login g p) p.mounts.cached (shared_folder g) false in
    with_calls g a.windows (calls_of (shared_folder g) o.mounted)
      (record p { mounts = record p.mounts { cached = o.cache } })

unfoldable pub remap_via_shared_folder : Guest → Answers → Pump → Pump
unfolding remap_letter find_letter
remap_via_shared_folder g a p =
    let p' = remap_letter g a (record p { once = true }) (find_letter g a.universal_name 23) in
    if p.once then p else p'

-- The end, with the warning about the home directory.
abbrev pub is_dash : List ℕ → Bool
is_dash text = get_or text 0 0 == b'-'

abbrev pub warning_for : Remote → FolderStatus → Option Warning
warning_for remote unknown =
    if is_dash remote.shost && is_dash remote.sport then some home_no_config else some home_missing
warning_for remote error =
    if is_dash remote.shost && is_dash remote.sport then some home_no_config else some home_failed
warning_for remote fs_ok = none

abbrev pub is_shown : Option Warning → Bool
is_shown none = false
is_shown (some w) = true

abbrev pub finish_drives : Guest → Pump → Pump
finish_drives g p = record p {
  in_proc = true;
  mount_done = true;
  warned = if g.no_home_warn then p.warned else warning_for g.remote p.desk.status;
  boxed = if g.no_home_warn then p.boxed else is_shown (warning_for g.remote p.desk.status);
}

abbrev pub remap_rest : Guest → Answers → Pump → Pump
remap_rest g a p =
    let p' = remap_via_shared_folder g a p in
    if not (is_fs_ok p.desk.status) && wants_remap g.settings.remap_mode
    then finish_drives g p'
    else finish_drives g p

abbrev pub try_again : Pump → Pump
try_again p = record p { in_proc = false; attempts = suc p.attempts }

-- After an attempt at the drives, which has reported this.
abbrev pub after_shares : Guest → Answers → Bool → Pump → Pump
after_shares g a true p = remap_rest g a p
after_shares g a false p =
    let soon = ltb a.elapsed 30000 in
    let p' = if soon then record p { attempts = suc p.attempts } else p in
    if soon && ltb (suc p.attempts) 15 then try_again p else remap_rest g a p'

abbrev pub with_shares : Guest → Answers → Pump → Pump
with_shares g a p =
    let r = mount_network_shares a.windows g.share_file_ok (login g p) p.mounts in
    after_shares g a r.0 (with_calls g a.windows r.2 (record p { mounts = r.1 }))

-- After the query for the password, which has returned this.
abbrev pub after_query : Guest → Answers → Bool → Pump → Pump
after_query g a true p = with_shares g a p
after_query g a false p =
    if ltb (suc p.attempts) 10
    then try_again p
    else remap_rest g a (record p { attempts = suc p.attempts })

abbrev pub with_share_file : Guest → Answers → Pump → Pump
with_share_file g a p =
    let asked : Asked = query_password_daemon a.network g.share_file_ok g.remote p.query in
    after_query g a (eqb_ℤ asked.code (pos 0)) (record p { query = asked.after })

abbrev pub without_share_file : Guest → Answers → Pump → Pump
without_share_file g a p =
    let p' = remap_via_shared_folder g a p in
    if wants_remap g.settings.remap_mode then finish_drives g p' else finish_drives g p

unfoldable pub setup_network_drives : Guest → Answers → Pump → Pump
unfolding remap_via_shared_folder post_all
setup_network_drives g a p =
    if p.in_proc || p.mount_done
    then p
    else if g.share_file_ok
    then with_share_file g a p
    else without_share_file g a p

-- `udpReceived`; a socket that is closed gives nothing.
unfoldable pub datagram_event : Guest → Windows → List ℕ → Pump → Pump
unfolding post_all
datagram_event g w datagram p =
    let r : Received = receive w g.share_file_ok g.suser g.remote datagram p.query p.mounts in
    if p.closed
    then p
    else with_calls g w r.calls
        (record p { query = r.query; mounts = r.mounts; closed = is_known r.query.spass })

-- What the pump does after each message that it has handled itself. The buffer of the password is
-- zeroed, and stays. The copies that `mount` keeps in `nuser` and `npass` are left.
unfoldable pub after_message : Pump → Pump
after_message p =
    if not (p.deleted || p.boxed)
      && (p.mount_done && (p.runner.script_done && is_known p.query.spass))
    then record p { query = record p.query { spass = some [] }; deleted = true }
    else p

-- A message, and what the pump is after it, by how often a timer has been handled. A call of
-- `launchRunscript` that hangs is never handled.
pub data Reaches (g : Guest) (start : Pump) : ℕ → ℕ → Pump → Type 0 where
  here : Reaches g start 0 0 start
  drives :
      {n m : ℕ} {p : Pump}
      → Reaches g start n m p
      → (a : Answers) → Reaches g start (suc n) m (after_message (setup_network_drives g a p))
  script :
      {n m : ℕ} {p : Pump}
      → Reaches g start n m p
      → (fuel : ℕ) (run : Run)
      → launch_runscript fuel g.scripts (or_empty g.suser) p.query.spass p.runner ≡ some run
      → Reaches g start n (suc m) (after_message (record p { runner = run.after }))
  datagram :
      {n m : ℕ} {p : Pump}
      → Reaches g start n m p
      → (w : Windows) (bytes : List ℕ)
      → Reaches g start n m (after_message (datagram_event g w bytes p))
  closed_box :
      {n m : ℕ} {p : Pump}
      → Reaches g start n m p
      → Reaches g start n m (after_message (record p { boxed = false }))
  other : {n m : ℕ} {p : Pump} → Reaches g start n m p → Reaches g start n m (after_message p)
