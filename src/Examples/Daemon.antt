-- ===== src/Examples/Daemon.antt =====
-- Examples for the daemon's start, its listener and its loop.
use mltk.Common.{
  ℕ, ◌≡◌, ◌≢◌, ◌⊎◌, inl, ◌==◌, refl, true, false, List, [], ◌∷◌, ◌++◌, some, none, codes, arith,
  pos, negsuc, length, replicate, take,
}
use mltk.Examples.Data.{alice, secret, urandom, short_device, rand, vars, secret_text}
use mltk.PwDaemon.Keys.{setup_vars, keygen}
use mltk.PwDaemon.Keys.Setup.{IsSetUp}
use mltk.PwDaemon.Serve.{Client, handle_client}
use mltk.PwDaemon.Udp.{Net, Started, init_udp}
use mltk.PwDaemon.Udp.Ports.{IsListening, HasFailed, init_udp_lem}
use mltk.PwDaemon.Daemon.{
  Kernel, Ids, Env, Daemon, serves, mode_daemon, client, accept_error, goes_on, step, Reaches, here,
  later, start_udp,
}
use mltk.PwDaemon.Daemon.LocalPw.{mode_daemon-handle_client}
use mltk.PwDaemon.Daemon.Privileges.{mode_daemon_serves}
use mltk.PwDaemon.Daemon.Loop.{HasListener, Reaches-Keeps, step_answers}

-- The fourth bind succeeds.
abbrev net : Net
net = record { socket = true; bind = λ k port. k == 3; fork = some 77 }

init_udp_lem_example :
    (s : Started) × (init_udp net rand 9 (negsuc 0) ≡ some s)
    × (IsListening net rand 9 s ⊎ HasFailed net rand 9 s)
init_udp_lem_example = init_udp_lem net rand 9 (negsuc 0)

abbrev ids_of : ℕ → ℕ → Ids
ids_of u g = record { ruid = u; euid = u; suid = u; rgid = g; egid = g; sgid = g; groups = [] }

-- A kernel that starts as root and changes all three ids.
abbrev kernel : Kernel
kernel = record {
  connects = false;
  setgroups = λ gs ids. some (record ids { groups = gs });
  setregid = λ g ids. some (record ids { rgid = g; egid = g; sgid = g });
  setreuid = λ u ids. some (record ids { ruid = u; euid = u; suid = u });
  setuid = λ u ids. none;
  setgid = λ g ids. none;
  socket = true;
  fchmod = true;
  bind = true;
  listen = true;
}

abbrev env : Env
env = record {
  username = some alice;
  password = some secret;
  pwsocket = some (codes "/tmp/s");
  local_pw = some (codes "0");
}

abbrev started : Daemon
started = record {
  vars = vars;
  ids = record (ids_of 1000 65534) { groups = 65534 ∷ [] };
  env_password = replicate (length secret) b' ';
  udp_port = negsuc 0;
  udp_pid = negsuc 0;
  calls = 13;
}

serving : mode_daemon kernel 1000 (ids_of 0 0) urandom short_device rand env ≡ serves started
unfolding mode_daemon setup_vars keygen
serving = refl

mode_daemon_serves_example :
    (user : List ℕ) × (password : List ℕ) × (env.username ≡ some user)
    × (env.password ≡ some password)
    × IsSetUp user password started.vars
    × (started.env_password ≡ replicate (length password) b' ')
    × (started.ids.ruid ≡ 1000)
    × (started.ids.euid ≡ 1000)
    × (started.ids.rgid ≢ 0)
    × (started.ids.egid ≢ 0)
    × (started.udp_port ≡ negsuc 0)
mode_daemon_serves_example =
    mode_daemon_serves kernel 1000 (ids_of 0 0) urandom short_device rand env started (ground arith)
      (ground arith) serving

-- LOCAL_PW is 0.
mode_daemon-handle_client_example :
    handle_client started.vars
      (negsuc 0)
      started.ids.euid
      (record { peer_uid = some 1000; request = some (codes "PW" ++ (0 ∷ [])) })
    ≡ take 200 secret
mode_daemon-handle_client_example =
    mode_daemon-handle_client kernel 1000 (ids_of 0 0) urandom short_device rand env started secret
      (0 ∷ []) (negsuc 0) (ground arith) (ground arith) serving refl secret_text

abbrev listening : Daemon
listening = record started { udp_port = pos 40016; udp_pid = pos 77; calls = 17 }

abbrev asks : Client
asks = record { peer_uid = some 1000; request = some (codes "PW") }

first_client :
    step rand started (client net true asks)
    ≡ goes_on listening (handle_client vars (pos 40016) 1000 asks)
unfolding step start_udp init_udp
first_client = refl

no_listener : HasListener started
unfolding HasListener
no_listener = inl refl

reached : Reaches rand started listening
reached = later started listening (client net true asks) _ here first_client

Reaches-Keeps_example :
    (listening.vars ≡ started.vars) × (listening.ids ≡ started.ids) × HasListener listening
Reaches-Keeps_example = Reaches-Keeps rand started listening reached no_listener

step_answers_example :
    (d'' : Daemon) × (step rand listening (client net true asks)
      ≡ goes_on d'' (handle_client started.vars d''.udp_port started.ids.euid asks))
    × HasListener d''
step_answers_example = step_answers rand started listening net asks reached no_listener

goes_on_listening : step rand listening (accept_error true) ≡ goes_on listening []
unfolding step
goes_on_listening = refl
