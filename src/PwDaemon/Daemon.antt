-- ===== src/PwDaemon/Daemon.antt =====
-- `mode_daemon` of core/modules/run-virt/pw_daemon.c with `sig_handler`: the start of the daemon and
-- its loop, one step per connection, failed `accept` or SIGCHLD.
pub mod Privileges
pub mod Loop
pub mod LocalPw
use mltk.Common.{
  ℕ, ◌≡◌, Bool, true, false, ◌&&◌, ◌||◌, not, List, [], ◌∷◌, Option, none, some, ℤ, pos, negsuc,
  eqb_ℤ, if◌then◌else◌, ◌==◌, length, replicate,
}
use mltk.PwDaemon.Keys.{Device, Vars, setup_vars}
use mltk.PwDaemon.Serve.{Client, handle_client}
use mltk.PwDaemon.Udp.{Net, Started, init_udp}

-- What LOCAL_PW says is read into `allowLocal`, which is never used.
pub record Env : Type 0 where
  pub username : Option (List ℕ)
  pub password : Option (List ℕ)
  pub pwsocket : Option (List ℕ)
  pub local_pw : Option (List ℕ)

-- The ids, and the supplementary groups.
pub record Ids : Type 0 where
  pub ruid : ℕ
  pub euid : ℕ
  pub suid : ℕ
  pub rgid : ℕ
  pub egid : ℕ
  pub sgid : ℕ
  pub groups : List ℕ

-- What the kernel does with the calls of the start: whether a daemon answers at the socket, the
-- ids after a change of them, `none` if it is refused, and which calls for the new socket succeed.
pub record Kernel : Type 0 where
  pub connects : Bool
  pub setgroups : List ℕ → Ids → Option Ids
  pub setregid : ℕ → Ids → Option Ids
  pub setreuid : ℕ → Ids → Option Ids
  pub setuid : ℕ → Ids → Option Ids
  pub setgid : ℕ → Ids → Option Ids
  pub socket : Bool
  pub fchmod : Bool
  pub bind : Bool
  pub listen : Bool

abbrev or_same : Option Ids → Ids → Ids
or_same none ids = ids
or_same (some new) ids = new

abbrev pub nogroup : ℕ
nogroup = 65534

-- The ids after `setgroups`, `setregid`, `setreuid`, `setuid(0)` and `setgid(0)`, of which any may
-- fail.
unfoldable pub drop_privileges : Kernel → ℕ → Ids → Ids
drop_privileges k uid ids =
    let grouped = or_same (k.setgroups (nogroup ∷ []) ids) ids in
    let in_group = or_same (k.setregid nogroup grouped) grouped in
    let as_user = or_same (k.setreuid uid in_group) in_group in
    let tried = or_same (k.setuid 0 as_user) as_user in or_same (k.setgid 0 tried) tried

-- The daemon in its loop. `env_password` is what PASSWORD holds in its environment, and `calls` the
-- number of the next call of `rand()`.
pub record Daemon : Type 0 where
  pub vars : Vars
  pub ids : Ids
  pub env_password : List ℕ
  pub udp_port : ℤ
  pub udp_pid : ℤ
  pub calls : ℕ

pub data Start : Type 0 where
  exits : ℕ → Start
  serves : Daemon → Start

-- The checks on the ids, and the unix socket.
unfoldable pub open_socket : Kernel → ℕ → Daemon → Start
open_socket k uid d =
    if not (d.ids.ruid == uid) || not (d.ids.euid == uid)
    then exits 1
    else if d.ids.rgid == 0 || d.ids.egid == 0
    then exits 1
    else if not k.socket || not k.fchmod || not k.bind || not k.listen
    then exits 1
    else serves d

-- What the daemon's variables are before its loop. The password in the environment is overwritten
-- with spaces.
abbrev pub initial : Vars × ℕ → Ids → List ℕ → Daemon
initial set_up ids envpass = record {
  vars = set_up.0;
  ids = ids;
  env_password = replicate (length envpass) b' ';
  udp_port = negsuc 0;
  udp_pid = negsuc 0;
  calls = set_up.1;
}

-- With the environment complete.
unfoldable pub start : Kernel → ℕ → Ids → Device → Device → (ℕ → ℕ) → List ℕ → List ℕ → Start
unfolding drop_privileges open_socket
start k uid ids d1 d2 rand envuser envpass =
    if k.connects
    then exits 0
    else open_socket k uid
        (initial (setup_vars d1 d2 rand envuser envpass) (drop_privileges k uid ids) envpass)

-- The checks on USERNAME, PASSWORD and PWSOCKET.
unfoldable pub check_env :
    (List ℕ → List ℕ → Start) → Option (List ℕ) → Option (List ℕ) → Option (List ℕ) → Start
check_env go (some envuser) (some envpass) (some pwsocket) = go envuser envpass
check_env go (some envuser) (some envpass) none = exits 1
check_env go (some envuser) none pwsocket = exits 1
check_env go none envpass pwsocket = exits 1

unfoldable pub mode_daemon : Kernel → ℕ → Ids → Device → Device → (ℕ → ℕ) → Env → Start
unfolding start check_env
mode_daemon k uid ids d1 d2 rand env =
    check_env (start k uid ids d1 d2 rand) env.username env.password env.pwsocket

-- What the loop waits for: a connection, with the sockets of an `init_udp` and whether `fork` gives a
-- child for it; an error of `accept`, which may be one to go on after; the end of children.
pub data Event : Type 0 where
  client : Net → Bool → Client → Event
  accept_error : Bool → Event
  children_ended : List ℕ → Event

-- The daemon goes on, with what was written to a client, or it exits.
pub data Step : Type 0 where
  goes_on : Daemon → List ℕ → Step
  ended : ℕ → Step
  out_of_fuel : Step

abbrev pub with_listener : Daemon → Option Started → Option Daemon
with_listener d none = none
with_listener d (some s) =
    some (record d { udp_port = s.udp_port; udp_pid = s.udp_pid; calls = s.calls })

-- `if (udpPort == -1) udpPort = init_udp()`.
unfoldable pub start_udp : (ℕ → ℕ) → Net → Daemon → Option Daemon
start_udp rand net d =
    if eqb_ℤ d.udp_port (negsuc 0)
    then with_listener d (init_udp net rand d.calls d.udp_pid)
    else some d

-- Whether `sig_handler`, which takes the pids from `waitpid`, meets the listener's.
unfoldable pub sig_handler : ℤ → List ℕ → Bool
sig_handler udp_pid [] = false
sig_handler udp_pid (p ∷ ps) = if eqb_ℤ (pos p) udp_pid then true else sig_handler udp_pid ps

-- The child for a client, forked after the listener is there.
abbrev pub serve : Bool → Client → Option Daemon → Step
serve forked c none = out_of_fuel
serve forked c (some d) =
    goes_on d (if forked then handle_client d.vars d.udp_port d.ids.euid c else [])

unfoldable pub step : (ℕ → ℕ) → Daemon → Event → Step
unfolding start_udp sig_handler
step rand d (client net forked c) = serve forked c (start_udp rand net d)
step rand d (accept_error again) = if again then goes_on d [] else ended 1
step rand d (children_ended pids) = if sig_handler d.udp_pid pids then ended 1 else goes_on d []

-- What any sequence of events leads to.
pub data Reaches (rand : ℕ → ℕ) (d : Daemon) : Daemon → Type 0 where
  here : Reaches rand d d
  later :
      (d1 d2 : Daemon) (e : Event) (reply : List ℕ)
      → Reaches rand d d1
      → step rand d1 e ≡ goes_on d2 reply
      → Reaches rand d d2
