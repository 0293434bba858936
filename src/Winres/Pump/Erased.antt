-- ===== src/Winres/Pump/Erased.antt =====
-- When both tasks are done and no box is open, `spass` holds no password.
use mltk.Common.{
  ℕ, ◌≡◌, ◌⊎◌, refl, sym, ap, ap₂, ◌∙◌, subst, Bool, true, false, not, ◌&&◌, ◌||◌, List, [], Option,
  none, some, arith, inl, inr, Bool-cases, Option-cases, if_true, if_false,
}
use mltk.Winres.Mount.{Windows, or_empty}
use mltk.Winres.Shares.{Mounts}
use mltk.Winres.Query.{is_known, receive, Received}
use mltk.Winres.Scripts.{Run, Runner, launch_runscript}
use mltk.Winres.Folders.Shortcut.{Desk}
use mltk.Winres.Pump.{
  Guest, Answers, Pump, setup_network_drives, datagram_event, after_message, Reaches, here, drives,
  script, datagram, other, closed_box, with_calls,
}
use mltk.Winres.Pump.Secret.{
  setup_network_drives-SameSecret, setup_network_drives_done, launch_runscript_done,
}

-- What holds of the state whenever a handler returns: the socket is closed once the password is
-- there, and it is erased only when both tasks are done, and then for good.
pub record Holds (p : Pump) : Type 0 where
  pub once_known : p.closed ≡ is_known p.query.spass
  pub erased : p.deleted ≡ true → p.query.spass ≡ some []
  pub drives_done : p.deleted ≡ true → p.mount_done ≡ true
  pub scripts_done : p.deleted ≡ true → p.runner.script_done ≡ true

-- `spass` is NULL or an empty text.
abbrev pub HasNoSpass : Option (List ℕ) → Type 0
HasNoSpass spass = (spass ≡ none) ⊎ (spass ≡ some [])

-- And between the messages: it is erased as soon as both are done and no box is open.
pub record Keeps (p : Pump) : Type 0 where
  pub holds : Holds p
  pub prompt :
      p.mount_done ≡ true → p.runner.script_done ≡ true → p.boxed ≡ false → HasNoSpass p.query.spass

test_parts :
    (d m s k : Bool) → (not d && (m && (s && k))) ≡ true → (m ≡ true) × (s ≡ true) × (k ≡ true)
test_parts d m s k h = ground arith

test_prompt :
    (d m s k : Bool)
    → (not d && (m && (s && k))) ≡ false
    → m ≡ true
    → s ≡ true
    → k ≡ true
    → d ≡ true
test_prompt d m s k h hm hs hk = ground arith

not_boxed : (d b : Bool) → (d || b) ≡ true → b ≡ false → d ≡ true
not_boxed d b h k = ground arith

after_message-Keeps : (p : Pump) → Holds p → Keeps (after_message p)
unfolding after_message
after_message-Keeps p h =
    let test : Bool =
      not (p.deleted || p.boxed)
      && (p.mount_done && (p.runner.script_done && is_known p.query.spass)) in
    let gone : Pump = record p { query = record p.query { spass = some [] }; deleted = true } in
    elim (Bool-cases test) [
      | inl due ↦
          let parts =
            test_parts (p.deleted || p.boxed) p.mount_done p.runner.script_done
              (is_known p.query.spass) due in
          subst Keeps (sym (if_true gone p test due)) (record {
            holds = record {
              once_known = h.once_known ∙ parts.2;
              erased = λ d. refl;
              drives_done = λ d. parts.0;
              scripts_done = λ d. parts.1;
            };
            prompt = λ m s b. inr refl;
          })
      | inr not_due ↦ subst Keeps (sym (if_false gone p test not_due)) (record {
        holds = h;
        prompt = λ m s b. elim (Option-cases p.query.spass) [
          | inl nothing ↦ inl nothing
          | inr there ↦
              let gone_or_boxed =
                test_prompt (p.deleted || p.boxed) p.mount_done p.runner.script_done
                  (is_known p.query.spass) not_due m s (ap is_known there.1) in
              inr (h.erased (not_boxed p.deleted p.boxed gone_or_boxed b))
        ];
      })
    ]

drives-Holds : (g : Guest) (a : Answers) (p : Pump) → Holds p → Holds (setup_network_drives g a p)
drives-Holds g a p h =
    let same = setup_network_drives-SameSecret g a p in
    let was : (setup_network_drives g a p).deleted ≡ true → p.deleted ≡ true =
      λ d. sym same.deleted ∙ d in
    record {
      once_known = same.closed ∙ h.once_known ∙ ap is_known (sym same.spass);
      erased = λ d. same.spass ∙ h.erased (was d);
      drives_done = λ d.
          ap (λ (q : Pump). q.mount_done) (setup_network_drives_done g a p (h.drives_done (was d)))
          ∙ h.drives_done (was d);
      scripts_done = λ d. ap (λ (r : Runner). r.script_done) same.runner ∙ h.scripts_done (was d);
    }

script-Holds :
    (g : Guest) (p : Pump) (fuel : ℕ) (run : Run)
    → launch_runscript fuel g.scripts (or_empty g.suser) p.query.spass p.runner ≡ some run
    → Holds p
    → Holds (record p { runner = run.after })
script-Holds g p fuel run ran h = record {
  once_known = h.once_known;
  erased = h.erased;
  drives_done = h.drives_done;
  scripts_done = λ d.
      ap (λ (r : Runner). r.script_done)
        (launch_runscript_done fuel g.scripts (or_empty g.suser) p.query.spass p.runner run
          (h.scripts_done d) ran)
      ∙ h.scripts_done d;
}

datagram-Holds :
    (g : Guest) (w : Windows) (bytes : List ℕ) (p : Pump)
    → Holds p
    → Holds (datagram_event g w bytes p)
unfolding datagram_event
datagram-Holds g w bytes p h =
    let r : Received = receive w g.share_file_ok g.suser g.remote bytes p.query p.mounts in
    let p' : Pump =
      with_calls g w r.calls
        (record p { query = r.query; mounts = r.mounts; closed = is_known r.query.spass }) in
    elim (Bool-cases p.closed) [
      | inl shut ↦ subst Holds (sym (if_true p p' p.closed shut)) h
      | inr open_still ↦
          let never : p.deleted ≡ true → ⊥ =
            λ d. let known : p.closed ≡ true = h.once_known ∙ ap is_known (h.erased d) in cc in
          subst Holds (sym (if_false p p' p.closed open_still)) (record {
            once_known = refl;
            erased = λ d. absurd (never d);
            drives_done = λ d. absurd (never d);
            scripts_done = λ d. absurd (never d);
          })
    ]

reach-Keeps :
    (g : Guest) (start : Pump) (n m : ℕ) (p : Pump) → Keeps start → Reaches g start n m p → Keeps p
reach-Keeps g start n m p k here = k
reach-Keeps g start n m p k (drives {n = i} {p = q} r a) =
    after_message-Keeps (setup_network_drives g a q)
      (drives-Holds g a q (reach-Keeps g start i m q k r).holds)
reach-Keeps g start n m p k (script {m = i} {p = q} r fuel run ran) =
    after_message-Keeps (record q { runner = run.after })
      (script-Holds g q fuel run ran (reach-Keeps g start n i q k r).holds)
reach-Keeps g start n m p k (datagram {p = q} r w bytes) =
    after_message-Keeps (datagram_event g w bytes q)
      (datagram-Holds g w bytes q (reach-Keeps g start n m q k r).holds)
reach-Keeps g start n m p k (closed_box {p = q} r) =
    let h : Holds q = (reach-Keeps g start n m q k r).holds in
    after_message-Keeps (record q { boxed = false })
      (record {
        once_known = h.once_known;
        erased = h.erased;
        drives_done = h.drives_done;
        scripts_done = h.scripts_done;
      })
reach-Keeps g start n m p k (other {p = q} r) =
    after_message-Keeps q (reach-Keeps g start n m q k r).holds

-- The variables at the start of the pump: the drives, the folders, `spass`, which is an empty text in
-- the demo mode, and whether the timers for the drives and for the scripts could be made. Where
-- `spass` is there no socket is ever opened.
abbrev pub at_start : Mounts → Desk → Option (List ℕ) → Bool → Bool → Pump
at_start m k spass drives_timer script_timer = record {
  query = record { spass = spass; wsa_init = 1337; sock = false };
  closed = is_known spass;
  mounts = m;
  desk = k;
  in_proc = false;
  attempts = 0;
  mount_done = not drives_timer;
  once = false;
  runner = record { fails = 0; script_done = not script_timer };
  deleted = false;
  warned = none;
  boxed = false;
}

at_start-Keeps :
    (m : Mounts) (k : Desk) (spass : Option (List ℕ)) (a b : Bool)
    → HasNoSpass spass
    → Keeps (at_start m k spass a b)
at_start-Keeps m k spass a b no_spass = record {
  holds = record {
    once_known = refl;
    erased = λ d. cc;
    drives_done = λ d. cc;
    scripts_done = λ d. cc;
  };
  prompt = λ m s k. no_spass;
}

and_parts : (a b : Bool) → (a && b) ≡ true → (a ≡ true) × (b ≡ true)
and_parts a b h = ground arith

pub Reaches-Keeps :
    (g : Guest) (mounts : Mounts) (desk : Desk) (spass : Option (List ℕ)) (a b : Bool) (n m : ℕ)
    (p : Pump)
    → HasNoSpass spass
    → Reaches g (at_start mounts desk spass a b) n m p
    → Keeps p
Reaches-Keeps g mounts desk spass a b n m p no_spass r =
    reach-Keeps g (at_start mounts desk spass a b) n m p
      (at_start-Keeps mounts desk spass a b no_spass) r

-- From a start with `spass` NULL or, as in the demo mode, empty, after any number of messages in any
-- order: if the drives and the scripts are both done and no warning is open, `spass` is NULL or
-- empty again; and where it has been erased both are done, so that neither a drive nor a script
-- misses it. The copies that `mount` keeps of the password are not meant.
pub Reaches-HasNoSpass :
    (g : Guest) (mounts : Mounts) (desk : Desk) (spass : Option (List ℕ))
    (drives_timer script_timer : Bool) (n m : ℕ) (p : Pump)
    → HasNoSpass spass
    → Reaches g (at_start mounts desk spass drives_timer script_timer) n m p
    → (((p.mount_done && (p.runner.script_done && not p.boxed)) ≡ false) ⊎ HasNoSpass p.query.spass)
      × ((p.deleted ≡ false) ⊎ ((p.mount_done && p.runner.script_done) ≡ true))
Reaches-HasNoSpass g mounts desk spass a b n m p no_spass r =
    let k = Reaches-Keeps g mounts desk spass a b n m p no_spass r in
    (
      elim (Bool-cases (p.mount_done && (p.runner.script_done && not p.boxed))) [
        | inl all ↦
            let first = and_parts p.mount_done (p.runner.script_done && not p.boxed) all in
            let second = and_parts p.runner.script_done (not p.boxed) first.1 in
            inr (k.prompt first.0 second.0 (not_true p.boxed second.1))
        | inr running ↦ inl running
      ],
      elim (Bool-cases p.deleted) [
        | inl gone ↦ inr (ap₂ ◌&&◌ (k.holds.drives_done gone) (k.holds.scripts_done gone))
        | inr still ↦ inl still
      ],
    )
  where
    not_true : (b : Bool) → not b ≡ true → b ≡ false
    not_true b h = ground arith
