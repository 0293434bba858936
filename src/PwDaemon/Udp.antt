-- ===== src/PwDaemon/Udp.antt =====
-- The start of the UDP listener in core/modules/run-virt/pw_daemon.c: `init_udp` up to its fork.
pub mod Ports
use mltk.Common.{
  ℕ, zero, suc, ◌+◌, ◌%◌, Bool, Option, none, some, if◌then◌else◌, ltb, ℤ, pos, negsuc, u16,
}

-- Outside the process: whether a socket can be made, whether the k-th `bind` to a port succeeds,
-- and the pid that `fork` gives the parent, `none` if it fails.
pub record Net : Type 0 where
  pub socket : Bool
  pub bind : ℕ → ℕ → Bool
  pub fork : Option ℕ

-- What the retry loop ends with: the port, if one was bound, and the number of the next call of
-- `rand()`.
pub data Bound : Type 0 where
  bound : ℕ → ℕ → Bound
  gave_up : ℕ → Bound
  out_of_fuel : Bound

abbrev pub random_port : (ℕ → ℕ) → ℕ → ℕ
random_port rand k = u16 (40000 + rand k % 20000)

-- One round: a random port, and another round unless the bind succeeds or `++tries > 100`. `k` is
-- the number of the next call of `rand()`.
unfoldable pub bind_loop : ℕ → (ℕ → ℕ → Bool) → (ℕ → ℕ) → ℕ → ℕ → Bound
bind_loop zero bind rand k tries = out_of_fuel
bind_loop (suc fuel) bind rand k tries =
    let port = random_port rand k in
    let again = bind_loop fuel bind rand (k + 1) (tries + 1) in
    if bind tries port
    then bound port (k + 1)
    else if ltb 100 (tries + 1)
    then gave_up (k + 1)
    else again

pub record Started : Type 0 where
  pub udp_port : ℤ
  pub udp_pid : ℤ
  pub calls : ℕ

-- After the loop: the fork. `udp_pid` is the daemon's static `udpPid`, as it was on entry unless
-- `fork` is reached. `none` means that the fuel ran out.
unfoldable pub start_listener : Bound → Option ℕ → ℤ → Option Started
start_listener (bound port k) none udp_pid =
    some (record { udp_port = negsuc 0; udp_pid = negsuc 0; calls = k })
start_listener (bound port k) (some pid) udp_pid =
    some (record { udp_port = pos port; udp_pid = pos pid; calls = k })
start_listener (gave_up k) fork udp_pid =
    some (record { udp_port = negsuc 0; udp_pid = udp_pid; calls = k })
start_listener out_of_fuel fork udp_pid = none

-- `udp_port` is the result, a port or -1.
unfoldable pub init_udp : Net → (ℕ → ℕ) → ℕ → ℤ → Option Started
unfolding bind_loop start_listener
init_udp net rand k udp_pid =
    if net.socket
    then start_listener (bind_loop 101 net.bind rand k 0) net.fork udp_pid
    else some (record { udp_port = negsuc 0; udp_pid = udp_pid; calls = k })
