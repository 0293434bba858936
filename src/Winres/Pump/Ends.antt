-- ===== src/Winres/Pump/Ends.antt =====
-- The callback for the scripts is done after 13 calls; with both done, the password is erased.
use mltk.Common.{
  ℕ, suc, ◌≤◌, ◌<◌, ◌≡◌, ◌⊎◌, refl, sym, ap, ◌∙◌, subst, Bool, true, false, not, ◌&&◌, ◌||◌, List,
  [], Option, none, some, if◌then◌else◌, ltb, arith, inl, inr, Bool-cases, some_injective, if_true,
  if_false,
}
use mltk.Winres.Mount.{Windows, or_empty}
use mltk.Winres.Shares.{Mounts}
use mltk.Winres.Query.{receive, is_known}
use mltk.Winres.Scripts.{
  Run, Runner, Scripts, ◌>>=◌, launch_runscript, with_spass, converted, with_credentials, failure,
  launch_all,
}
use mltk.Winres.Quote.{run_params, escape_shell_arg}
use mltk.Winres.Folders.Shortcut.{Desk}
use mltk.Winres.Pump.{
  Guest, Pump, setup_network_drives, datagram_event, after_message, Reaches, here, drives, script,
  datagram, other, closed_box, with_calls,
}
use mltk.Winres.Pump.Erased.{at_start, HasNoSpass, Reaches-Keeps}
use mltk.Winres.Pump.Secret.{setup_network_drives-SameSecret, launch_runscript_done}
use mltk.Winres.Pump.Drives.{Drives, if-Drives, Drives-call, after_message-Drives}

-- The same for the scripts.
pub Fails : ℕ → Runner → Type 0
Fails m r = (r.script_done ≡ true) ⊎ ((m ≤ r.fails) × (r.fails < 13))

failure-Fails : (m : ℕ) (r : Runner) → m ≤ r.fails → Fails (suc m) (failure r).after
unfolding Fails
failure-Fails m r le = elim (Bool-cases (ltb 12 (suc r.fails))) [
  | inl last ↦ inl (if_true true r.script_done (ltb 12 (suc r.fails)) last)
  | inr more ↦ inr (omega arith, ground arith)
]

after_message-runner : (p : Pump) → (after_message p).runner ≡ p.runner
unfolding after_message
after_message-runner p = go (
    not (p.deleted || p.boxed)
    && (p.mount_done && (p.runner.script_done && is_known p.query.spass)))
  where
    go :
        (b : Bool)
        → (if b
            then record p { query = record p.query { spass = some [] }; deleted = true }
            else p).runner
          ≡ p.runner
    go true = refl
    go false = refl

with_credentials_done :
    (fuel : ℕ) (s : Scripts) (r : Runner) (nuser npass : List ℕ) (run : Run)
    → with_credentials fuel s r nuser npass ≡ some run
    → run.after.script_done ≡ true
unfolding with_credentials
with_credentials_done fuel s r nuser npass run =
    go (run_params fuel nuser npass) (escape_shell_arg fuel nuser 198)
  where
    go :
        (a b : Option (List ℕ))
        → (a >>= λ params. b >>= λ alone. some (launch_all s r params alone)) ≡ some run
        → run.after.script_done ≡ true
    go none b h = cc
    go (some params) none h = cc
    go (some params) (some alone) h =
        ap (λ (x : Run). x.after.script_done)
          (sym (some_injective (launch_all s r params alone) run h))

failed-Fails :
    (m : ℕ) (r : Runner) (run : Run)
    → m ≤ r.fails
    → some (failure r) ≡ some run
    → Fails (suc m) run.after
failed-Fails m r run le h =
    subst (λ (x : Run). Fails (suc m) x.after) (some_injective (failure r) run h)
      (failure-Fails m r le)

converted-Fails :
    (m fuel : ℕ) (s : Scripts) (r : Runner) (nuser npass : Option (List ℕ)) (run : Run)
    → m ≤ r.fails
    → converted fuel s r nuser npass ≡ some run
    → Fails (suc m) run.after
unfolding Fails
converted-Fails m fuel s r none npass run le h = failed-Fails m r run le h
converted-Fails m fuel s r (some nuser) none run le h = failed-Fails m r run le h
converted-Fails m fuel s r (some nuser) (some npass) run le h =
    inl (with_credentials_done fuel s r nuser npass run h)

with_spass-Fails :
    (m fuel : ℕ) (s : Scripts) (r : Runner) (user : List ℕ) (pass : Option (List ℕ)) (run : Run)
    → m ≤ r.fails
    → with_spass fuel s r user pass ≡ some run
    → Fails (suc m) run.after
with_spass-Fails m fuel s r user none run le h = failed-Fails m r run le h
with_spass-Fails m fuel s r user (some spass) run le h =
    converted-Fails m fuel s r (s.utf8_to_wide user) (s.utf8_to_wide spass) run le h

script_call :
    (m fuel : ℕ) (s : Scripts) (r : Runner) (user : List ℕ) (pass : Option (List ℕ)) (run : Run)
    → Fails m r
    → launch_runscript fuel s user pass r ≡ some run
    → Fails (suc m) run.after
unfolding launch_runscript Fails
script_call m fuel s r user pass run (inl done) h = inl (
    ap (λ (x : Runner). x.script_done) (launch_runscript_done fuel s user pass r run done h) ∙ done)
script_call m fuel s r user pass run (inr (le, below)) h = elim (Bool-cases r.script_done) [
  | inl done ↦ inl (
      ap (λ (x : Runner). x.script_done) (launch_runscript_done fuel s user pass r run done h)
      ∙ done)
  | inr waits ↦ with_spass-Fails m fuel s r user pass run le (
      sym (
        if_false (some (record { after = r; killed = true; launched = [] }))
          (with_spass fuel s r user pass) r.script_done waits)
      ∙ h)
]

datagram-Drives :
    (n : ℕ) (g : Guest) (w : Windows) (bytes : List ℕ) (p : Pump)
    → Drives n p
    → Drives n (datagram_event g w bytes p)
unfolding datagram_event Drives
datagram-Drives n g w bytes p h = if-Drives n p.closed p _ h h

same-Drives : (n : ℕ) (p : Pump) (r : Runner) → Drives n p → Drives n (record p { runner = r })
unfolding Drives
same-Drives n p r h = h

unboxed-Drives : (n : ℕ) (p : Pump) → Drives n p → Drives n (record p { boxed = false })
unfolding Drives
unboxed-Drives n p h = h

datagram-runner :
    (g : Guest) (w : Windows) (bytes : List ℕ) (p : Pump)
    → (datagram_event g w bytes p).runner ≡ p.runner
unfolding datagram_event
datagram-runner g w bytes p =
    go p.closed
      (with_calls g w (receive w g.share_file_ok g.suser g.remote bytes p.query p.mounts).calls
        (record p {
          query = (receive w g.share_file_ok g.suser g.remote bytes p.query p.mounts).query;
          mounts = (receive w g.share_file_ok g.suser g.remote bytes p.query p.mounts).mounts;
          closed =
              is_known
                (receive w g.share_file_ok g.suser g.remote bytes p.query p.mounts).query.spass;
        }))
      refl
  where
    go : (b : Bool) (x : Pump) → x.runner ≡ p.runner → (if b then p else x).runner ≡ p.runner
    go true x h = refl
    go false x h = h

-- Both counts, along the messages.
counts :
    (g : Guest) (start : Pump) (n m : ℕ) (p : Pump)
    → Drives 0 start
    → Fails 0 start.runner
    → Reaches g start n m p
    → Drives n p × Fails m p.runner
counts g start n m p d f here = (d, f)
counts g start n m p d f (drives {n = i} {p = q} r a) =
    let ih = counts g start i m q d f r in
    let done : Pump = setup_network_drives g a q in
    (
      after_message-Drives (suc i) done (Drives-call i g a q ih.0),
      subst (Fails m)
          (sym (after_message-runner done ∙ (setup_network_drives-SameSecret g a q).runner)) ih.1,
    )
counts g start n m p d f (script {m = i} {p = q} r fuel run ran) =
    let ih = counts g start n i q d f r in
    let done : Pump = record q { runner = run.after } in
    (
      after_message-Drives n done (same-Drives n q run.after ih.0),
      subst (Fails (suc i)) (sym (after_message-runner done))
          (script_call i fuel g.scripts q.runner (or_empty g.suser) q.query.spass run ih.1 ran),
    )
counts g start n m p d f (datagram {p = q} r w bytes) =
    let ih = counts g start n m q d f r in
    let done : Pump = datagram_event g w bytes q in
    (
      after_message-Drives n done (datagram-Drives n g w bytes q ih.0),
      subst (Fails m) (sym (after_message-runner done ∙ datagram-runner g w bytes q)) ih.1,
    )
counts g start n m p d f (closed_box {p = q} r) =
    let ih = counts g start n m q d f r in
    let done : Pump = record q { boxed = false } in
    (
      after_message-Drives n done (unboxed-Drives n q ih.0),
      subst (Fails m) (sym (after_message-runner done)) ih.1,
    )
counts g start n m p d f (other {p = q} r) =
    let ih = counts g start n m q d f r in
    (after_message-Drives n q ih.0, subst (Fails m) (sym (after_message-runner q)) ih.1)

-- From a start with `spass` NULL or, as in the demo mode, empty: once the callback for the drives has
-- been handled 15 times and the one for the scripts 13 times, among any other messages in any order,
-- both tasks are done, and unless a warning is still open `spass` is NULL or empty again. The copies
-- that `mount` keeps of the password are not meant.
pub Reaches_ends :
    (g : Guest) (mounts : Mounts) (desk : Desk) (spass : Option (List ℕ))
    (drives_timer script_timer : Bool) (n m : ℕ) (p : Pump)
    → HasNoSpass spass
    → Reaches g (at_start mounts desk spass drives_timer script_timer) n m p
    → 15 ≤ n
    → 13 ≤ m
    → (p.mount_done ≡ true)
      × (p.runner.script_done ≡ true)
      × ((p.boxed ≡ true) ⊎ HasNoSpass p.query.spass)
unfolding Drives Fails
Reaches_ends g mounts desk spass a b n m p no_spass r enough_drives enough_scripts =
    let start : Pump = at_start mounts desk spass a b in
    let both =
      counts g start n m p (inr (refl, omega arith, omega arith)) (inr (omega arith, omega arith))
        r in
    let drives_done : p.mount_done ≡ true = elim both.0 [
      | inl done ↦ done
      | inr few ↦ absurd (omega arith)
    ] in
    let scripts_done : p.runner.script_done ≡ true = elim both.1 [
      | inl done ↦ done
      | inr few ↦ absurd (omega arith)
    ] in
    (
      drives_done,
      scripts_done,
      elim (Bool-cases p.boxed) [
        | inl open_box ↦ inl open_box
        | inr closed ↦ inr (
            (Reaches-Keeps g mounts desk spass a b n m p no_spass r).prompt drives_done scripts_done
              closed)
      ],
    )
