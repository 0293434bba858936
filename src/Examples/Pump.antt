-- ===== src/Examples/Pump.antt =====
-- Examples for the message pump of the guest's helper.
use mltk.Common.{
  ℕ, zero, suc, ◌≡◌, ◌⊎◌, refl, ap, ◌∙◌, Bool, true, false, not, ◌&&◌, ◌||◌, List, [], Option, some,
  none, codes, arith, pos, inl, inr, Bool-cases, if_true, if_false,
}
use mltk.Examples.Data.{alice, vars}
use mltk.Examples.Folders.{shell, system, settings, network, desk}
use mltk.Winres.Shares.{Mounts}
use mltk.Winres.Query.{is_known}
use mltk.Winres.Scripts.{Runner, Run, launch_runscript, failure}
use mltk.Winres.Pump.{
  Guest, Answers, Pump, setup_network_drives, datagram_event, after_message, Reaches, here, drives,
  script, datagram,
}
use mltk.Winres.Pump.Erased.{at_start, HasNoSpass, Reaches-HasNoSpass}
use mltk.Winres.Pump.Ends.{Reaches_ends}

abbrev guest : Guest
guest = record {
  shell = shell;
  system = system;
  settings = settings;
  share_file_ok = true;
  remote = record {
    shost = codes "10.0.0.1";
    sport = codes "1042";
    bkey1 = vars.key1;
    bkey2 = vars.key2;
  };
  suser = some alice;
  scripts = record {
    utf8_to_wide = λ text. some text;
    acp_to_wide = λ text. some text;
    found = [];
    script_file = codes "B:\\runscript.cmd";
    script_visibility = pos 1;
    has_pass_creds = true;
  };
  home_drive = codes "H:";
  no_home_warn = false;
}

abbrev answers : Answers
answers = record {
  windows = network;
  network = record { window_error = 0; wsa_startup = 0; has_socket = true; sent_bytes = 16 };
  elapsed = 2000;
  universal_name = λ letter. none;
}

abbrev no_mounts : Mounts
no_mounts = record { attempt_no = 0; drives = []; cached = record { nuser = []; npass = [] } }

abbrev start : Pump
start = at_start no_mounts desk none true true

-- Without a password every call for the scripts returns.
unknown_returns :
    (r : Runner) → (run : Run) × (launch_runscript 0 guest.scripts alice none r ≡ some run)
unfolding launch_runscript
unknown_returns r = elim (Bool-cases r.script_done) [
  | inl done ↦ (
    record { after = r; killed = true; launched = [] },
    if_true (some (record { after = r; killed = true; launched = [] })) (some (failure r))
        r.script_done done,
  )
  | inr waits ↦ (
    failure r,
    if_false (some (record { after = r; killed = true; launched = [] })) (some (failure r))
        r.script_done waits,
  )
]

untested : (d m s : Bool) → (not d && (m && (s && false))) ≡ false
untested d m s = ground arith

nothing_erased : (p : Pump) → p.query.spass ≡ none → (after_message p).query.spass ≡ none
unfolding after_message
nothing_erased p h =
    let test : Bool =
      not (p.deleted || p.boxed)
      && (p.mount_done && (p.runner.script_done && is_known p.query.spass)) in
    let gone : Pump = record p { query = record p.query { spass = some [] }; deleted = true } in
    let unknown_yet : test ≡ false =
      ap (λ b. not (p.deleted || p.boxed) && (p.mount_done && (p.runner.script_done && b)))
        (ap is_known h)
      ∙ untested (p.deleted || p.boxed) p.mount_done p.runner.script_done in
    ap (λ (q : Pump). q.query.spass) (if_false gone p test unknown_yet) ∙ h

-- So many calls for the scripts, while no password is there.
abbrev NoPassword : ℕ → Type 0
NoPassword m = (p : Pump) × Reaches guest start 0 m p × (p.query.spass ≡ none)

script_calls : (m : ℕ) → NoPassword m
script_calls zero = (start, here, refl)
script_calls (suc m) =
    let before : NoPassword m = script_calls m in
    let p : Pump = before.0 in
    let run = unknown_returns p.runner in
    (
      after_message (record p { runner = run.0.after }),
      script before.1 0 run.0 (
          ap (λ (o : Option (List ℕ)). launch_runscript 0 guest.scripts alice o p.runner) before.2
          ∙ run.1),
      nothing_erased (record p { runner = run.0.after }) before.2,
    )

-- And then calls for the drives.
drives_calls :
    (n m : ℕ) (p : Pump) → Reaches guest start 0 m p → (q : Pump) × Reaches guest start n m q
drives_calls zero m p r = (p, r)
drives_calls (suc n) m p r =
    let before = drives_calls n m p r in
    (after_message (setup_network_drives guest answers before.0), drives before.1 answers)

abbrev waited : NoPassword 13
waited = script_calls 13

abbrev ended : (q : Pump) × Reaches guest start 15 13 q
ended = drives_calls 15 13 waited.0 waited.1

Reaches_ends_example :
    (ended.0.mount_done ≡ true)
    × (ended.0.runner.script_done ≡ true)
    × ((ended.0.boxed ≡ true) ⊎ HasNoSpass ended.0.query.spass)
Reaches_ends_example =
    Reaches_ends guest no_mounts desk none true true 15 13 ended.0 (inl refl) ended.1 (omega arith)
      (omega arith)

abbrev asked : Pump
asked = after_message (setup_network_drives guest answers start)

abbrev answered : Pump
answered = after_message (datagram_event guest network vars.password_enc asked)

answered-Reaches : Reaches guest start 1 0 answered
answered-Reaches = datagram (drives here answers) network vars.password_enc

Reaches-HasNoSpass_example :
    (((answered.mount_done && (answered.runner.script_done && not answered.boxed)) ≡ false)
      ⊎ HasNoSpass answered.query.spass)
    × ((answered.deleted ≡ false) ⊎ ((answered.mount_done && answered.runner.script_done) ≡ true))
Reaches-HasNoSpass_example =
    Reaches-HasNoSpass guest no_mounts desk none true true 1 0 answered (inl refl) answered-Reaches
