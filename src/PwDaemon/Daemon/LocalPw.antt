-- ===== src/PwDaemon/Daemon/LocalPw.antt =====
-- What LOCAL_PW forbids is allowed: a process of the user gets the password.
use mltk.Common.{
  ℕ, ◌≡◌, ap, sym, subst, ◌∙◌, List, ◌++◌, some, some_injective, codes, take, ℤ, All, IsTextByte,
}
use mltk.PwDaemon.Keys.{Device}
use mltk.PwDaemon.Keys.Stream.{IsReads}
use mltk.PwDaemon.Serve.{handle_client}
use mltk.PwDaemon.Serve.Access.{handle_client-pw}
use mltk.PwDaemon.Daemon.{Kernel, Ids, Env, Daemon, serves, mode_daemon}
use mltk.PwDaemon.Daemon.Privileges.{mode_daemon_serves}

-- If the daemon gets to its loop, with reads that give bytes and a password without NUL in its
-- environment, then a process of the user that it runs for and that asks for the password gets it in
-- the clear, its first 200 bytes if it is longer, also if LOCAL_PW is 0 or not set.
pub mode_daemon-handle_client :
    (k : Kernel) (uid : ℕ) (ids : Ids) (d1 d2 : Device) (rand : ℕ → ℕ) (env : Env) (d : Daemon)
    (password rest : List ℕ) (port : ℤ)
    → IsReads d1.reads
    → IsReads d2.reads
    → mode_daemon k uid ids d1 d2 rand env ≡ serves d
    → env.password ≡ some password
    → All IsTextByte password
    → handle_client d.vars port d.ids.euid
        (record { peer_uid = some uid; request = some (codes "PW" ++ rest) })
      ≡ take 200 password
mode_daemon-handle_client k uid ids d1 d2 rand env d password rest port r1 r2 runs is text =
    let served = mode_daemon_serves k uid ids d1 d2 rand env d r1 r2 runs in
    let same : served.1 ≡ password = some_injective served.1 password (sym served.3 ∙ is) in
    ap
      (λ (peer : ℕ).
        handle_client d.vars port d.ids.euid
          (record { peer_uid = some peer; request = some (codes "PW" ++ rest) }))
      (sym served.7)
    ∙ handle_client-pw served.0 served.1 rest d.vars port d.ids.euid served.4
        (subst (λ t. All IsTextByte t) (sym same) text)
    ∙ ap (take 200) same
