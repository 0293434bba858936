-- ===== src/Examples/Starting.antt =====
-- Examples for the start of the guest's helper.
use mltk.Common.{ℕ, ◌≡◌, refl, ap, true, List, [], ◌∷◌, ◌++◌, some, none, codes, arith, pos}
use mltk.Examples.Data.{alice, secret, vars, vars-IsSetUp, secret_text}
use mltk.Examples.Guest.{host, host-IsField, alice-IsField, drive_line, unresolved}
use mltk.PwDaemon.Serve.{udp_reply}
use mltk.Winres.Query.{query_password_daemon}
use mltk.Session.Fields.{queried}
use mltk.Session.Whole.{unasked, after_reply, win_main-udp_reply}
use mltk.Examples.Folders.{shell, network, home}
use mltk.Winres.ShareFile.{Shares, read_share_file}
use mltk.Winres.ShareFile.Lines.{read_share_file_total}
use mltk.Winres.Pump.{
  Answers, Pump, setup_network_drives, datagram_event, after_message, Reaches, here, drives,
  datagram,
}
use mltk.Winres.Start.Settings.{Ini, Machine, load_paths}
use mltk.Winres.Start.{Version, Timers, Boot, Rest, win_main, no_shares, started, guest_of, pump_of}
use mltk.Winres.Start
use mltk.Winres.Start.Paths.{Lookup, Places, find_paths}
use mltk.Winres.Start.Overwritten.{find_paths_overwritten}
use mltk.Winres.Start.Quiet.{win_main-IsQuiet}

abbrev missing : Lookup
missing = record { folder = none; special = none; env = some [] }

abbrev found : Lookup
found = record { folder = none; special = some (codes "D:\\Programs"); env = none }

abbrev places : Places
places = record {
  programs = found;
  windows = missing;
  desktop = missing;
  temp_path = none;
  temp_env = some (codes "T:");
}

find_paths_overwritten_example :
    ((find_paths places).programs ≡ codes "C:\\WINDOWS") × ((find_paths places).windows ≡ [])
find_paths_overwritten_example =
    find_paths_overwritten places (record { no_folder = refl; no_special = refl; no_env = refl })

-- With the directory of Windows, that of the programs is kept.
kept : (find_paths (record places { windows = found })).programs ≡ codes "D:\\Programs"
unfolding find_paths
kept = refl

-- Every number is 0, so that nothing is remapped.
abbrev ini : Ini
ini = record { int = λ section key default. 0; text = λ section key default. default }

abbrev machine : Machine
machine = record {
  places = places;
  opens = λ file. some 0;
  utf8_to_wide = λ text. some text;
  acp_to_wide = λ text. some text;
  upper = λ c. c;
}

abbrev version : Version
version = record { is_known = true; major = 10; minor = 0 }

abbrev timers : Timers
timers = record { drives = true; shutdown = true; resolution = true; script = true; devices = true }

abbrev hex : List ℕ
hex = codes "000102030405060708090a0b0c0d0e0f"

abbrev shares_dat : List ℕ
shares_dat =
    codes "10.0.0.1 1042 "
    ++ hex
    ++ b' ' ∷ hex
    ++ codes " alice\n\\\\nas\\home\tH:\tHome-Verzeichnis\t\t\n"

abbrev read : (st : Shares) × (read_share_file unresolved (some shares_dat) no_shares ≡ some st)
read =
    let r = read_share_file_total unresolved (some shares_dat) no_shares (omega arith) in (r.0, r.1)

abbrev boot : Boot
boot = started ini [] true version timers (load_paths ini machine) read.0

booted : win_main ini machine [] true version timers unresolved (some shares_dat) ≡ some boot
unfolding win_main
booted = ap (Start.with_shares ini [] true version timers (load_paths ini machine)) read.1

abbrev rest : Rest
rest = record {
  shell = shell;
  key_opens = true;
  has_snapshot = true;
  processes = [];
  garbage = [];
  found = [];
  script_visibility = pos 1;
  profile = home;
}

abbrev answers : Answers
answers = record {
  windows = network;
  network = record { window_error = 0; wsa_startup = 0; has_socket = true; sent_bytes = 16 };
  elapsed = 2000;
  universal_name = λ letter. none;
}

abbrev asked : Pump
asked =
    after_message
      (setup_network_drives (guest_of machine version rest boot) answers (pump_of rest boot))

abbrev reached : Pump
reached = after_message (datagram_event (guest_of machine version rest boot) network hex asked)

reached-Reaches : Reaches (guest_of machine version rest boot) (pump_of rest boot) 1 0 reached
reached-Reaches = datagram (drives here answers) network hex

win_main-IsQuiet_example : (reached.desk.profile ≡ home) × (reached.warned ≡ none)
win_main-IsQuiet_example =
    win_main-IsQuiet ini machine [] true version timers unresolved (some shares_dat) rest boot 1 0
      reached booted refl reached-Reaches

win_main-udp_reply_example :
    (b : Boot) × (reply : List ℕ) × (win_main ini machine [] true version timers unresolved
        (some (host ++ (b'\t' ∷ (queried vars 41000 1000 ++ drive_line))))
      ≡ some b)
    × ((query_password_daemon answers.network true
          (guest_of machine version rest b).remote
          unasked).sent
        ≡ some (record { address = host; port = 41000; payload = vars.key1 }))
    × (udp_reply vars vars.key1 ≡ some reply)
    × Reaches
        (guest_of machine version rest b)
        (pump_of rest b)
        1
        0
        (after_reply (guest_of machine version rest b) answers network reply (pump_of rest b))
    × ((after_reply
          (guest_of machine version rest b)
          answers
          network
          reply
          (pump_of rest b)).query.spass
        ≡ some secret)
win_main-udp_reply_example =
    win_main-udp_reply alice secret host vars 41000 1000 drive_line ini machine [] true version
      timers unresolved rest answers network vars-IsSetUp secret_text (omega arith) host-IsField
      alice-IsField (ground arith) (omega arith) (omega arith) (omega arith) (omega arith) refl
      (record { window = refl; startup = refl; socket = refl; sends = refl })
