-- ===== src/PwDaemon/Daemon/Privileges.antt =====
-- The daemon only serves as the user it was started for.
use mltk.Common.{
  ℕ, ◌≡◌, ◌≢◌, refl, sym, ◌∙◌, List, Option, none, some, negsuc, subst, if_true, if_false, length,
  replicate, arith, Bool-cases, inl, inr,
}
use mltk.PwDaemon.Keys.{Device, setup_vars}
use mltk.PwDaemon.Keys.Stream.{IsReads}
use mltk.PwDaemon.Keys.Setup.{IsSetUp, setup_vars-IsSetUp}
use mltk.PwDaemon.Daemon.{
  Kernel, Ids, Env, Daemon, Start, exits, serves, open_socket, start, initial, check_env,
  mode_daemon, drop_privileges,
}

open_socket_lem :
    (k : Kernel) (uid : ℕ) (d d' : Daemon)
    → open_socket k uid d ≡ serves d'
    → (d ≡ d') × (d.ids.ruid ≡ uid) × (d.ids.euid ≡ uid) × (d.ids.rgid ≢ 0) × (d.ids.egid ≢ 0)
unfolding open_socket
open_socket_lem k uid d d' h = ground arith

check_env_lem :
    (go : List ℕ → List ℕ → Start) (user password socket : Option (List ℕ)) (d : Daemon)
    → check_env go user password socket ≡ serves d
    → (u : List ℕ) × (p : List ℕ) × (user ≡ some u) × (password ≡ some p) × (go u p ≡ serves d)
unfolding check_env
check_env_lem go (some u) (some p) (some s) d h = (u, p, refl, refl, h)
check_env_lem go (some u) (some p) none d h = cc
check_env_lem go (some u) none socket d h = cc
check_env_lem go none password socket d h = cc

start_lem :
    (k : Kernel) (uid : ℕ) (ids : Ids) (d1 d2 : Device) (rand : ℕ → ℕ) (u p : List ℕ) (d : Daemon)
    → start k uid ids d1 d2 rand u p ≡ serves d
    → let d' = initial (setup_vars d1 d2 rand u p) (drop_privileges k uid ids) p in
      (d' ≡ d) × (d'.ids.ruid ≡ uid) × (d'.ids.euid ≡ uid) × (d'.ids.rgid ≢ 0) × (d'.ids.egid ≢ 0)
unfolding start
start_lem k uid ids d1 d2 rand u p d h = elim (Bool-cases k.connects) [
  | inl runs ↦ let never : exits 0 ≡ serves d = sym (if_true _ _ k.connects runs) ∙ h in absurd cc
  | inr free ↦
      open_socket_lem k uid (initial (setup_vars d1 d2 rand u p) (drop_privileges k uid ids) p) d
        (sym (if_false _ _ k.connects free) ∙ h)
]

-- Whatever the kernel answers, with reads that give bytes: if the daemon gets to its loop, it
-- runs as the user it was asked to run as, really and effectively, and neither its real nor its
-- effective group is root's (of the supplementary groups nothing is said); it has its two keys and the password from its environment encrypted under the second, only spaces
-- are left of the password there, and no listener runs.
pub mode_daemon_serves :
    (k : Kernel) (uid : ℕ) (ids : Ids) (d1 d2 : Device) (rand : ℕ → ℕ) (env : Env) (d : Daemon)
    → IsReads d1.reads
    → IsReads d2.reads
    → mode_daemon k uid ids d1 d2 rand env ≡ serves d
    → (user : List ℕ) × (password : List ℕ) × (env.username ≡ some user)
      × (env.password ≡ some password)
      × IsSetUp user password d.vars
      × (d.env_password ≡ replicate (length password) b' ')
      × (d.ids.ruid ≡ uid)
      × (d.ids.euid ≡ uid)
      × (d.ids.rgid ≢ 0)
      × (d.ids.egid ≢ 0)
      × (d.udp_port ≡ negsuc 0)
mode_daemon_serves k uid ids d1 d2 rand env d r1 r2 h =
    let e =
      check_env_lem (start k uid ids d1 d2 rand) env.username env.password env.pwsocket d
        (unfold mode_daemon in h) in
    let r = start_lem k uid ids d1 d2 rand e.0 e.1 d e.4 in
    subst
      (λ x.
        (user : List ℕ) × (password : List ℕ) × (env.username ≡ some user)
        × (env.password ≡ some password)
        × IsSetUp user password x.vars
        × (x.env_password ≡ replicate (length password) b' ')
        × (x.ids.ruid ≡ uid)
        × (x.ids.euid ≡ uid)
        × (x.ids.rgid ≢ 0)
        × (x.ids.egid ≢ 0)
        × (x.udp_port ≡ negsuc 0))
      r.0
      (
        e.0,
        e.1,
        e.2,
        e.3,
        setup_vars-IsSetUp d1 d2 rand e.0 e.1 r1 r2,
        refl,
        r.1,
        r.2,
        r.3,
        r.4,
        refl,
      )
