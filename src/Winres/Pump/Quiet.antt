-- ===== src/Winres/Pump/Quiet.antt =====
-- Once the status is FS_OK, the handlers leave the folders of the user alone, and warn of nothing.
use mltk.Common.{
  ℕ, suc, ◌≡◌, ap, ◌∙◌, Bool, true, false, not, ◌&&◌, List, [], ◌∷◌, Option, none, some,
  if◌then◌else◌, ltb, codes, eqb_list, starts_with,
}
use mltk.Winres.ShareFile.{Drive}
use mltk.Winres.Mount.{Windows, Outcome, mount_network_share, or_empty}
use mltk.Winres.Shares.{Call, calls_of, mount_network_shares}
use mltk.Winres.Query.{Remote, Asked, query_password_daemon, receive, Received, is_known}
use mltk.Winres.Folders.Patch.{Profile}
use mltk.Winres.Folders.Targets.{FolderStatus, fs_ok}
use mltk.Winres.Folders.Shortcut.{
  Desk, Settings, may_patch, is_fs_ok, allows, vmware_home, post_successful_mount,
  post_successful_mount_other,
}
use mltk.Winres.Pump.{
  Guest, Answers, Warning, Pump, warning_for, remap_letter, remap_via_shared_folder, remap_rest,
  finish_drives, try_again, after_shares, after_query, with_share_file, without_share_file,
  setup_network_drives, with_calls, post_all, find_letter, login, datagram_event, after_message,
  Reaches, here, drives, script, datagram, closed_box, other, shared_folder,
}

-- The folders are as they were, and nothing is to be done about them.
abbrev pub QuietDesk : Profile → Desk → Type 0
QuietDesk f k = (k.profile ≡ f) × (k.status ≡ fs_ok)

-- And no warning has been shown.
abbrev pub IsQuiet : Profile → Pump → Type 0
IsQuiet f p = QuietDesk f p.desk × (p.warned ≡ none)

may_patch_never :
    (set : Settings) (d : Drive) (k : Desk) → k.status ≡ fs_ok → may_patch set d k ≡ false
unfolding may_patch
may_patch_never set d k h =
    ap
      (λ s.
        not (is_fs_ok s)
        && (starts_with (or_empty d.shortcut) (codes "Home-")
            && allows set.remap_mode (eqb_list d.path vmware_home)))
      h

post_all-QuietDesk :
    (f : Profile) (g : Guest) (w : Windows) (cs : List Call) (k : Desk)
    → QuietDesk f k
    → QuietDesk f (post_all g w cs k)
unfolding post_all
post_all-QuietDesk f g w [] k h = h
post_all-QuietDesk f g w (c ∷ cs) k h =
    let same =
      post_successful_mount_other w g.shell g.system g.settings c.mounted_drive c.mounted_letter k
        (may_patch_never g.settings c.mounted_drive k h.1) in
    post_all-QuietDesk f g w cs
      (post_successful_mount w g.shell g.system g.settings c.mounted_drive c.mounted_letter k)
      (same.0 ∙ h.0, same.1 ∙ h.1)

with_calls-IsQuiet :
    (f : Profile) (g : Guest) (w : Windows) (cs : List Call) (p : Pump)
    → IsQuiet f p
    → IsQuiet f (with_calls g w cs p)
with_calls-IsQuiet f g w cs p h = (post_all-QuietDesk f g w cs p.desk h.0, h.1)

if-IsQuiet :
    (f : Profile) (b : Bool) (x y : Pump)
    → IsQuiet f x
    → IsQuiet f y
    → IsQuiet f (if b then x else y)
if-IsQuiet f true x y h k = h
if-IsQuiet f false x y h k = k

remap_letter-IsQuiet :
    (f : Profile) (g : Guest) (a : Answers) (p : Pump) (l : Option (List ℕ))
    → IsQuiet f p
    → IsQuiet f (remap_letter g a p l)
unfolding remap_letter
remap_letter-IsQuiet f g a p (some letter) h =
    with_calls-IsQuiet f g a.windows (calls_of (shared_folder g) (some letter)) p h
remap_letter-IsQuiet f g a p none h =
    let o : Outcome =
      mount_network_share a.windows (login g p) p.mounts.cached (shared_folder g) false in
    with_calls-IsQuiet f g a.windows (calls_of (shared_folder g) o.mounted)
      (record p { mounts = record p.mounts { cached = o.cache } }) h

remap_via_shared_folder-IsQuiet :
    (f : Profile) (g : Guest) (a : Answers) (p : Pump)
    → IsQuiet f p
    → IsQuiet f (remap_via_shared_folder g a p)
unfolding remap_via_shared_folder
remap_via_shared_folder-IsQuiet f g a p h =
    let letter : Option (List ℕ) = find_letter g a.universal_name 23 in
    if-IsQuiet f p.once p (remap_letter g a (record p { once = true }) letter) h
      (remap_letter-IsQuiet f g a (record p { once = true }) letter h)

no_warning :
    (b : Bool) (o : Option Warning) (remote : Remote) (s : FolderStatus)
    → o ≡ none
    → s ≡ fs_ok
    → (if b then o else warning_for remote s) ≡ none
no_warning true o remote s h k = h
no_warning false o remote s h k = ap (warning_for remote) k

finish_drives-IsQuiet :
    (f : Profile) (g : Guest) (p : Pump) → IsQuiet f p → IsQuiet f (finish_drives g p)
finish_drives-IsQuiet f g p h =
    (h.0, no_warning g.no_home_warn p.warned g.remote p.desk.status h.1 h.0.1)

remap_rest-IsQuiet :
    (f : Profile) (g : Guest) (a : Answers) (p : Pump) → IsQuiet f p → IsQuiet f (remap_rest g a p)
remap_rest-IsQuiet f g a p h =
    let p' : Pump = remap_via_shared_folder g a p in
    if-IsQuiet f _ (finish_drives g p') (finish_drives g p)
      (finish_drives-IsQuiet f g p' (remap_via_shared_folder-IsQuiet f g a p h))
      (finish_drives-IsQuiet f g p h)

after_shares-IsQuiet :
    (f : Profile) (g : Guest) (a : Answers) (b : Bool) (p : Pump)
    → IsQuiet f p
    → IsQuiet f (after_shares g a b p)
after_shares-IsQuiet f g a true p h = remap_rest-IsQuiet f g a p h
after_shares-IsQuiet f g a false p h =
    let p' : Pump = if ltb a.elapsed 30000 then record p { attempts = suc p.attempts } else p in
    if-IsQuiet f _ (try_again p) (remap_rest g a p') h (
      remap_rest-IsQuiet f g a p'
        (if-IsQuiet f (ltb a.elapsed 30000) (record p { attempts = suc p.attempts }) p h h))

after_query-IsQuiet :
    (f : Profile) (g : Guest) (a : Answers) (b : Bool) (p : Pump)
    → IsQuiet f p
    → IsQuiet f (after_query g a b p)
after_query-IsQuiet f g a true p h =
    let r = mount_network_shares a.windows g.share_file_ok (login g p) p.mounts in
    after_shares-IsQuiet f g a r.0 (with_calls g a.windows r.2 (record p { mounts = r.1 }))
      (with_calls-IsQuiet f g a.windows r.2 (record p { mounts = r.1 }) h)
after_query-IsQuiet f g a false p h =
    if-IsQuiet f _ (try_again p) (remap_rest g a (record p { attempts = suc p.attempts })) h
      (remap_rest-IsQuiet f g a (record p { attempts = suc p.attempts }) h)

setup_network_drives-IsQuiet :
    (f : Profile) (g : Guest) (a : Answers) (p : Pump)
    → IsQuiet f p
    → IsQuiet f (setup_network_drives g a p)
unfolding setup_network_drives
setup_network_drives-IsQuiet f g a p h =
    let asked : Asked = query_password_daemon a.network g.share_file_ok g.remote p.query in
    let p' : Pump = remap_via_shared_folder g a p in
    if-IsQuiet f _ p _ h (
      if-IsQuiet f g.share_file_ok (with_share_file g a p) (without_share_file g a p)
        (after_query-IsQuiet f g a _ (record p { query = asked.after }) h)
        (if-IsQuiet f _ (finish_drives g p') (finish_drives g p)
          (finish_drives-IsQuiet f g p' (remap_via_shared_folder-IsQuiet f g a p h))
          (finish_drives-IsQuiet f g p h)))

after_message-IsQuiet : (f : Profile) (p : Pump) → IsQuiet f p → IsQuiet f (after_message p)
unfolding after_message
after_message-IsQuiet f p h =
    if-IsQuiet f _ (record p { query = record p.query { spass = some [] }; deleted = true }) p h h

datagram_event-IsQuiet :
    (f : Profile) (g : Guest) (w : Windows) (bytes : List ℕ) (p : Pump)
    → IsQuiet f p
    → IsQuiet f (datagram_event g w bytes p)
unfolding datagram_event
datagram_event-IsQuiet f g w bytes p h =
    let r : Received = receive w g.share_file_ok g.suser g.remote bytes p.query p.mounts in
    let p' : Pump = record p {
      query = r.query;
      mounts = r.mounts;
      closed = is_known r.query.spass;
    } in
    if-IsQuiet f p.closed p (with_calls g w r.calls p') h (with_calls-IsQuiet f g w r.calls p' h)

pub Reaches-IsQuiet :
    (f : Profile) (g : Guest) (start : Pump) (n m : ℕ) (p : Pump)
    → IsQuiet f start
    → Reaches g start n m p
    → IsQuiet f p
Reaches-IsQuiet f g start n m p h here = h
Reaches-IsQuiet f g start n m p h (drives {n = i} {p = q} r a) =
    after_message-IsQuiet f (setup_network_drives g a q)
      (setup_network_drives-IsQuiet f g a q (Reaches-IsQuiet f g start i m q h r))
Reaches-IsQuiet f g start n m p h (script {m = i} {p = q} r fuel run ran) =
    after_message-IsQuiet f (record q { runner = run.after }) (Reaches-IsQuiet f g start n i q h r)
Reaches-IsQuiet f g start n m p h (datagram {p = q} r w bytes) =
    after_message-IsQuiet f (datagram_event g w bytes q)
      (datagram_event-IsQuiet f g w bytes q (Reaches-IsQuiet f g start n m q h r))
Reaches-IsQuiet f g start n m p h (closed_box {p = q} r) =
    after_message-IsQuiet f (record q { boxed = false }) (Reaches-IsQuiet f g start n m q h r)
Reaches-IsQuiet f g start n m p h (other {p = q} r) =
    after_message-IsQuiet f q (Reaches-IsQuiet f g start n m q h r)
