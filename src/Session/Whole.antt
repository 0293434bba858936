-- ===== src/Session/Whole.antt =====
-- The way of a password from end to end: the start of the guest on the shares.dat of a daemon, the
-- first call for the drives, and the daemon's answer.
use mltk.Common.{
  ℕ, suc, ◌≤◌, ◌≡◌, ◌≢◌, refl, sym, ap, ◌∙◌, Bool, true, false, not, ◌&&◌, List, ◌∷◌, ◌++◌, Option,
  none, some, if◌then◌else◌, ◌||◌, [], ltb, eqb_ℤ, take, take_all, ap₂, ◌+◌, arith, length, get_or,
  pos, negsuc, All, atoi-show, IsTextByte, if_true, if_false,
}
use mltk.PwDaemon.Keys.{Vars}
use mltk.PwDaemon.Keys.Setup.{IsSetUp}
use mltk.PwDaemon.Serve.{udp_reply}
use mltk.Winres.Token.Trim.{IsField}
use mltk.Winres.Mount.{Windows}
use mltk.Winres.Shares.{Mounts}
use mltk.Winres.Folders.Shortcut.{Desk}
use mltk.Winres.Pump.Erased.{at_start}
use mltk.Winres.Query.{
  u_short, Remote, System, Query, request, query_password_daemon, receive, Received, is_known,
}
use mltk.Winres.Pump.{
  Guest, Answers, Pump, setup_network_drives, with_share_file, without_share_file, try_again,
  datagram_event, with_calls, after_message, Reaches, here, drives, datagram, after_query,
  remap_rest,
}
use mltk.Winres.Start
use mltk.Winres.Start.Settings.{Ini, Machine, load_paths}
use mltk.Winres.Start.{Version, Timers, Boot, Rest, win_main, started, guest_of, pump_of, no_shares}
use mltk.Session.Fields.{queried}
use mltk.Session.Handover.{has_keys, read_share_file-queried}
use mltk.Session.Ask.{query_password_daemon-receive}

-- The network can be used, and takes the 16 bytes of the key.
pub record Works (sys : System) : Type 0 where
  pub window : sys.window_error ≡ 0
  pub startup : sys.wsa_startup ≡ 0
  pub socket : sys.has_socket ≡ true
  pub sends : sys.sent_bytes ≡ 16

abbrev pub unasked : Query
unasked = record { spass = none; wsa_init = 1337; sock = false }

first_query :
    (sys : System) (remote : Remote)
    → Works sys
    → (query_password_daemon sys true remote unasked).code ≡ negsuc 0
unfolding query_password_daemon
first_query sys remote k = rw (k.window, k.startup, k.socket, k.sends)

-- A message that leaves the drives to be done erases nothing.
waits : (p : Pump) → p.mount_done ≡ false → after_message p ≡ p
unfolding after_message
waits p h =
    if_false (record p { query = record p.query { spass = some [] }; deleted = true }) p
      (not (p.deleted || p.boxed)
        && (p.mount_done && (p.runner.script_done && is_known p.query.spass)))
      (untested (p.deleted || p.boxed) p.mount_done (p.runner.script_done && is_known p.query.spass)
        h)
  where
    untested : (d m b : Bool) → m ≡ false → (not d && (m && b)) ≡ false
    untested d m b h = ground arith

-- A call for the drives that has sent the request ends there.
first_call :
    (g : Guest) (a : Answers) (p : Pump)
    → g.share_file_ok ≡ true
    → p.in_proc ≡ false
    → p.mount_done ≡ false
    → p.attempts ≡ 0
    → (query_password_daemon a.network g.share_file_ok g.remote p.query).code ≡ negsuc 0
    → setup_network_drives g a p
      ≡ try_again (record p {
        query = (query_password_daemon a.network g.share_file_ok g.remote p.query).after;
      })
unfolding setup_network_drives
first_call g a p ok idle waits_still first asked =
    let after : Query = (query_password_daemon a.network g.share_file_ok g.remote p.query).after in
    let p' : Pump = record p { query = after } in
    if_false p (if g.share_file_ok then with_share_file g a p else without_share_file g a p)
      (p.in_proc || p.mount_done) (neither p.in_proc p.mount_done idle waits_still)
    ∙ if_true (with_share_file g a p) (without_share_file g a p) g.share_file_ok ok
    ∙ ap (λ c. after_query g a (eqb_ℤ c (pos 0)) p') asked
    ∙ if_true (try_again p') (remap_rest g a (record p' { attempts = suc p'.attempts }))
        (ltb (suc p.attempts) 10) (few p.attempts first)
  where
    neither : (b c : Bool) → b ≡ false → c ≡ false → (b || c) ≡ false
    neither b c h k = ground arith

    few : (n : ℕ) → n ≡ 0 → ltb (suc n) 10 ≡ true
    few n h = ground arith

-- The variables after a datagram, where a socket is open.
received :
    (g : Guest) (w : Windows) (bytes : List ℕ) (p : Pump)
    → p.closed ≡ false
    → let r = receive w g.share_file_ok g.suser g.remote bytes p.query p.mounts in
      ((datagram_event g w bytes p).query ≡ r.query)
      × ((datagram_event g w bytes p).mount_done ≡ p.mount_done)
unfolding datagram_event
received g w bytes p still_open =
    let r : Received = receive w g.share_file_ok g.suser g.remote bytes p.query p.mounts in
    let after : Pump =
      with_calls g w r.calls
        (record p { query = r.query; mounts = r.mounts; closed = is_known r.query.spass }) in
    let same : (if p.closed then p else after) ≡ after = if_false p after p.closed still_open in
    (ap (λ (q : Pump). q.query) same, ap (λ (q : Pump). q.mount_done) same)

-- A call for the drives, and then this datagram.
abbrev pub after_reply : Guest → Answers → Windows → List ℕ → Pump → Pump
after_reply g a w reply p =
    after_message (datagram_event g w reply (after_message (setup_network_drives g a p)))

-- It is a sequence of messages of the pump.
pub after_reply-Reaches :
    (g : Guest) (a : Answers) (w : Windows) (reply : List ℕ) (p : Pump)
    → Reaches g p 1 0 (after_reply g a w reply p)
after_reply-Reaches g a w reply p = datagram (drives here a) w reply

-- The guest asks in its first call, and the answer of the daemon gives it the password.
answered :
    (user password : List ℕ) (v : Vars) (g : Guest) (a : Answers) (w : Windows) (m : Mounts)
    (k : Desk) (timer script_timer : Bool)
    → IsSetUp user password v
    → All IsTextByte password
    → length password ≤ 198
    → Works a.network
    → g.share_file_ok ≡ true
    → g.remote.bkey1 ≡ v.key1
    → g.remote.bkey2 ≡ v.key2
    → timer ≡ true
    → (reply : List ℕ) × ((query_password_daemon a.network true g.remote unasked).sent
        ≡ some (request g.remote))
      × (udp_reply v (request g.remote).payload ≡ some reply)
      × ((after_reply g a w reply (at_start m k none timer script_timer)).query.spass
          ≡ some password)
answered user password v g a w m k timer script_timer s text size works ok at_key1 at_key2 set =
    let start : Pump = at_start m k none timer script_timer in
    let code : (query_password_daemon a.network true g.remote unasked).code ≡ negsuc 0 =
      first_query a.network g.remote works in
    let known =
      query_password_daemon-receive user password v a.network g.remote unasked w g.suser m s text
        size at_key1 at_key2 code in
    let reply : List ℕ = known.0 in
    let asked : Pump = try_again (record start {
      query = (query_password_daemon a.network g.share_file_ok g.remote unasked).after;
    }) in
    let called : setup_network_drives g a start ≡ asked =
      first_call g a start ok refl (ap not set) refl
        (ap (λ b. (query_password_daemon a.network b g.remote unasked).code) ok ∙ code) in
    let p : Pump = after_message (setup_network_drives g a start) in
    let same : p ≡ asked =
      waits (setup_network_drives g a start) (ap (λ (q : Pump). q.mount_done) called ∙ ap not set)
      ∙ called in
    let got = received g w reply p (ap (λ (q : Pump). q.closed) same) in
    let event : Pump = datagram_event g w reply p in
    (
      reply,
      known.1,
      known.2,
      ap (λ (q : Pump). q.query.spass)
            (waits event (got.1 ∙ ap (λ (q : Pump). q.mount_done) same ∙ ap not set))
          ∙ ap (λ (q : Query). q.spass) got.0
          ∙ ap
              (λ (q : Pump).
                (receive w g.share_file_ok g.suser g.remote reply q.query q.mounts).query.spass)
              same
          ∙ ap
              (λ b.
                (receive w b g.suser g.remote reply
                  (query_password_daemon a.network b g.remote unasked).after m).query.spass)
              ok
          ∙ known.3.0,
    )

port_of : (n : ℕ) → n ≤ 65535 → u_short (pos n) ≡ n
port_of n h = omega arith

-- If a daemon is set up with a password of at most 198 bytes, none of them NUL, the guest starts
-- with a shares.dat that begins with the daemon's answer to a query of the user (a port of 1000 to
-- 65535) behind a host's address, a field that does not start with '-', the user's name is a field
-- of at most 126 bytes and with the address of at most 220, the timer for the drives can be made
-- and the network can be used, then the guest's first call for the drives sends the daemon's first
-- key to this host and port, the daemon answers it, and with exactly this answer as the next message
-- `spass` is the user's password.
pub win_main-udp_reply :
    (user password host : List ℕ) (v : Vars) (n uid : ℕ) (rest : List ℕ) (ini : Ini) (at : Machine)
    (cmd_line : List ℕ) (has_power : Bool) (version : Version) (t : Timers)
    (resolve : List ℕ → Option (List ℕ)) (x : Rest) (a : Answers) (w : Windows)
    → IsSetUp user password v
    → All IsTextByte password
    → length password ≤ 198
    → IsField host
    → IsField user
    → get_or host 0 0 ≢ b'-'
    → 1000 ≤ n
    → n ≤ 65535
    → length user ≤ 126
    → length host + length user ≤ 220
    → t.drives ≡ true
    → Works a.network
    → (b : Boot) × (reply : List ℕ) × (win_main ini at cmd_line has_power version t resolve
          (some (host ++ (b'\t' ∷ (queried v n uid ++ rest))))
        ≡ some b)
      × ((query_password_daemon a.network true (guest_of at version x b).remote unasked).sent
          ≡ some (record { address = host; port = n; payload = v.key1 }))
      × (udp_reply v v.key1 ≡ some reply)
      × Reaches
          (guest_of at version x b)
          (pump_of x b)
          1
          0
          (after_reply (guest_of at version x b) a w reply (pump_of x b))
      × ((after_reply (guest_of at version x b) a w reply (pump_of x b)).query.spass
          ≡ some password)
unfolding win_main
win_main-udp_reply user password host v n uid rest ini at cmd_line has_power version t resolve x a w
      s text size fh fu hh lo hi short fits set works =
    let file : List ℕ = host ++ (b'\t' ∷ (queried v n uid ++ rest)) in
    let r =
      read_share_file-queried user password host v n uid s fh fu hh lo hi short fits resolve rest
        no_shares refl in
    let b : Boot =
      started ini cmd_line has_power version t (load_paths ini at)
        (has_keys no_shares host n v r.0) in
    let start : Pump = pump_of x b in
    let known =
      answered user password v (guest_of at version x b) a w start.mounts start.desk t.drives
        t.script s text size works refl refl refl set in
    let payload : take 16 v.key1 ≡ v.key1 = take_all 16 v.key1 (omega (arith, s.key1_size)) in
    (
      b,
      known.0,
      ap (Start.with_shares ini cmd_line has_power version t (load_paths ini at)) r.2,
      known.1
          ∙ ap (λ z. some (record { address = host; port = u_short z; payload = take 16 v.key1 }))
              (atoi-show n (omega arith))
          ∙ ap₂ (λ port key. some (record { address = host; port = port; payload = key }))
              (port_of n hi) payload,
      sym (ap (udp_reply v) payload) ∙ known.2,
      after_reply-Reaches (guest_of at version x b) a w known.0 start,
      known.3,
    )
