-- ===== src/Winres/Pump/Secret.antt =====
-- The handlers of the drives and of the scripts leave the password alone, and do nothing once done.
use mltk.Common.{
  ℕ, suc, ◌≡◌, refl, sym, ap, ◌∙◌, Bool, true, false, ◌||◌, List, [], Option, none, some,
  if◌then◌else◌, ltb, pos, arith, some_injective, if_true,
}
use mltk.Winres.Shares.{mount_network_shares}
use mltk.Winres.Query.{
  Remote, System, Query, Asked, ended, query_password_daemon, with_wsa, with_socket, init_wsa,
  send_request,
}
use mltk.Winres.Scripts.{Run, Runner, Scripts, launch_runscript, with_spass}
use mltk.Winres.Pump.{
  Guest, Answers, Pump, remap_letter, remap_via_shared_folder, remap_rest, finish_drives, try_again,
  after_shares, with_shares, after_query, with_share_file, without_share_file, setup_network_drives,
  with_calls, find_letter, login,
}

-- The password, whether the socket is closed, and what has been erased, as another state has them.
pub record SameSecret (p q : Pump) : Type 0 where
  pub spass : q.query.spass ≡ p.query.spass
  pub closed : q.closed ≡ p.closed
  pub deleted : q.deleted ≡ p.deleted
  pub runner : q.runner ≡ p.runner

SameSecret-refl : (p : Pump) → SameSecret p p
SameSecret-refl p = record { spass = refl; closed = refl; deleted = refl; runner = refl }

SameSecret-trans : (p q r : Pump) → SameSecret p q → SameSecret q r → SameSecret p r
SameSecret-trans p q r h k = record {
  spass = k.spass ∙ h.spass;
  closed = k.closed ∙ h.closed;
  deleted = k.deleted ∙ h.deleted;
  runner = k.runner ∙ h.runner;
}

remap_letter-SameSecret :
    (g : Guest) (a : Answers) (p : Pump) (l : Option (List ℕ)) → SameSecret p (remap_letter g a p l)
unfolding remap_letter
remap_letter-SameSecret g a p none = record {
  spass = refl;
  closed = refl;
  deleted = refl;
  runner = refl;
}
remap_letter-SameSecret g a p (some letter) = record {
  spass = refl;
  closed = refl;
  deleted = refl;
  runner = refl;
}

if-SameSecret :
    (p : Pump) (b : Bool) (x y : Pump)
    → SameSecret p x
    → SameSecret p y
    → SameSecret p (if b then x else y)
if-SameSecret p true x y h k = h
if-SameSecret p false x y h k = k

remap_via_shared_folder-SameSecret :
    (g : Guest) (a : Answers) (p : Pump) → SameSecret p (remap_via_shared_folder g a p)
unfolding remap_via_shared_folder
remap_via_shared_folder-SameSecret g a p =
    let r =
      remap_letter-SameSecret g a (record p { once = true }) (find_letter g a.universal_name 23) in
    if-SameSecret p p.once p
      (remap_letter g a (record p { once = true }) (find_letter g a.universal_name 23))
      (SameSecret-refl p)
      (record { spass = r.spass; closed = r.closed; deleted = r.deleted; runner = r.runner })

remap_rest-SameSecret : (g : Guest) (a : Answers) (p : Pump) → SameSecret p (remap_rest g a p)
remap_rest-SameSecret g a p =
    let r = remap_via_shared_folder-SameSecret g a p in
    if-SameSecret p _ (finish_drives g (remap_via_shared_folder g a p)) (finish_drives g p)
      (record { spass = r.spass; closed = r.closed; deleted = r.deleted; runner = r.runner })
      (record { spass = refl; closed = refl; deleted = refl; runner = refl })

after_shares-SameSecret :
    (g : Guest) (a : Answers) (b : Bool) (p : Pump) → SameSecret p (after_shares g a b p)
after_shares-SameSecret g a true p = remap_rest-SameSecret g a p
after_shares-SameSecret g a false p =
    if-SameSecret p _ (try_again p)
      (remap_rest g a (if ltb a.elapsed 30000 then record p { attempts = suc p.attempts } else p))
      (record { spass = refl; closed = refl; deleted = refl; runner = refl })
      (SameSecret-trans p _ _
        (if-SameSecret p (ltb a.elapsed 30000) (record p { attempts = suc p.attempts }) p
          (record { spass = refl; closed = refl; deleted = refl; runner = refl })
          (SameSecret-refl p))
        (remap_rest-SameSecret g a
          (if ltb a.elapsed 30000 then record p { attempts = suc p.attempts } else p)))

with_shares-SameSecret : (g : Guest) (a : Answers) (p : Pump) → SameSecret p (with_shares g a p)
with_shares-SameSecret g a p =
    let r = mount_network_shares a.windows g.share_file_ok (login g p) p.mounts in
    let p' : Pump = with_calls g a.windows r.2 (record p { mounts = r.1 }) in
    SameSecret-trans p p' (after_shares g a r.0 p')
      (record { spass = refl; closed = refl; deleted = refl; runner = refl })
      (after_shares-SameSecret g a r.0 p')

after_query-SameSecret :
    (g : Guest) (a : Answers) (b : Bool) (p : Pump) → SameSecret p (after_query g a b p)
after_query-SameSecret g a true p = with_shares-SameSecret g a p
after_query-SameSecret g a false p =
    if-SameSecret p _ (try_again p) (remap_rest g a (record p { attempts = suc p.attempts }))
      (record { spass = refl; closed = refl; deleted = refl; runner = refl })
      (let r = remap_rest-SameSecret g a (record p { attempts = suc p.attempts }) in
        record { spass = r.spass; closed = r.closed; deleted = r.deleted; runner = r.runner })

-- A query does not touch the password.
abbrev KeepsSpass : Query → Asked → Type 0
KeepsSpass q asked = asked.after.spass ≡ q.spass

if-KeepsSpass :
    (q : Query) (b : Bool) (x y : Asked)
    → KeepsSpass q x
    → KeepsSpass q y
    → KeepsSpass q (if b then x else y)
if-KeepsSpass q true x y h k = h
if-KeepsSpass q false x y h k = k

query_password_daemon-spass :
    (sys : System) (ok : Bool) (remote : Remote) (q : Query)
    → KeepsSpass q (query_password_daemon sys ok remote q)
unfolding query_password_daemon
query_password_daemon-spass sys ok remote q =
    let r : Query = init_wsa sys q in
    let same : r.spass ≡ q.spass = ground arith in
    if-KeepsSpass q _ (ended (pos 0) q) _ refl (
      if-KeepsSpass q _ (with_wsa sys remote r) (ended (pos 6) q)
        (if-KeepsSpass q _ (with_socket sys remote r) _
          (if-KeepsSpass q _ (send_request sys remote (record r { sock = true })) _ same same) same)
        refl)

pub setup_network_drives-SameSecret :
    (g : Guest) (a : Answers) (p : Pump) → SameSecret p (setup_network_drives g a p)
unfolding setup_network_drives
setup_network_drives-SameSecret g a p =
    let asked : Asked = query_password_daemon a.network g.share_file_ok g.remote p.query in
    let r = remap_via_shared_folder-SameSecret g a p in
    if-SameSecret p _ p _ (SameSecret-refl p) (
      if-SameSecret p _ (with_share_file g a p) (without_share_file g a p)
        (SameSecret-trans p (record p { query = asked.after }) _
          (record {
            spass = query_password_daemon-spass a.network g.share_file_ok g.remote p.query;
            closed = refl;
            deleted = refl;
            runner = refl;
          })
          (after_query-SameSecret g a _ (record p { query = asked.after })))
        (if-SameSecret p _ (finish_drives g (remap_via_shared_folder g a p)) (finish_drives g p)
          (record { spass = r.spass; closed = r.closed; deleted = r.deleted; runner = r.runner })
          (record { spass = refl; closed = refl; deleted = refl; runner = refl })))

-- A call after the end does nothing.
pub setup_network_drives_done :
    (g : Guest) (a : Answers) (p : Pump) → p.mount_done ≡ true → setup_network_drives g a p ≡ p
unfolding setup_network_drives
setup_network_drives_done g a p done =
    go p.in_proc p.mount_done
      (if g.share_file_ok then with_share_file g a p else without_share_file g a p) done
  where
    go : (b c : Bool) (x : Pump) → c ≡ true → (if b || c then p else x) ≡ p
    go true c x h = refl
    go false true x h = refl
    go false false x h = cc

pub launch_runscript_done :
    (fuel : ℕ) (s : Scripts) (user : List ℕ) (pass : Option (List ℕ)) (r : Runner) (run : Run)
    → r.script_done ≡ true
    → launch_runscript fuel s user pass r ≡ some run
    → run.after ≡ r
unfolding launch_runscript
launch_runscript_done fuel s user pass r run done h = sym (
    ap (λ (x : Run). x.after)
      (some_injective (record { after = r; killed = true; launched = [] }) run
        (sym (
            if_true (some (record { after = r; killed = true; launched = [] }))
              (with_spass fuel s r user pass) r.script_done done)
          ∙ h)))
