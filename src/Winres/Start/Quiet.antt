-- ===== src/Winres/Start/Quiet.antt =====
-- With `remapMode` 0 in OPENSLX.INI the guest leaves the folders of the user alone, and warns of
-- nothing.
use mltk.Common.{
  ℕ, ◌≡◌, refl, sym, ap, ◌∙◌, Bool, List, Option, none, some, some_injective, if◌then◌else◌, codes,
}
use mltk.Winres.ShareFile.{Shares, read_share_file}
use mltk.Winres.Folders.Targets.{unknown, fs_ok}
use mltk.Winres.Pump.{Pump, Reaches}
use mltk.Winres.Pump.Quiet.{IsQuiet, Reaches-IsQuiet}
use mltk.Winres.Start
use mltk.Winres.Start.Settings.{Ini, Machine, Loaded, load_paths, openslx, mode_of, is_none}
use mltk.Winres.Start.{Version, Timers, Boot, Rest, win_main, started, guest_of, pump_of, no_shares}

status_at_start :
    (ini : Ini) (at : Machine)
    → ini.int openslx (codes "remapMode") 2 ≡ 0
    → (load_paths ini at).folder_status ≡ fs_ok
unfolding load_paths
status_at_start ini at h = ap (λ n. if is_none (mode_of n) then fs_ok else unknown) h

with_shares_loaded :
    (ini : Ini) (cmd_line : List ℕ) (has_power : Bool) (v : Version) (t : Timers) (l : Loaded)
    (o : Option Shares) (b : Boot)
    → Start.with_shares ini cmd_line has_power v t l o ≡ some b
    → b.loaded ≡ l
with_shares_loaded ini cmd_line has_power v t l none b h = cc
with_shares_loaded ini cmd_line has_power v t l (some s) b h =
    sym (ap (λ (x : Boot). x.loaded) (some_injective (started ini cmd_line has_power v t l s) b h))

booted_status :
    (ini : Ini) (at : Machine) (cmd_line : List ℕ) (has_power : Bool) (v : Version) (t : Timers)
    (resolve : List ℕ → Option (List ℕ)) (file : Option (List ℕ)) (b : Boot)
    → win_main ini at cmd_line has_power v t resolve file ≡ some b
    → b.loaded ≡ load_paths ini at
unfolding win_main
booted_status ini at cmd_line has_power v t resolve file b h =
    with_shares_loaded ini cmd_line has_power v t (load_paths ini at)
      (read_share_file resolve file no_shares) b h

-- If OPENSLX.INI has 0 for `remapMode`, then after the start and any messages in any order no
-- entry of the registry for the user's folders, and no folder, has changed, and no warning about
-- the home directory has been shown.
pub win_main-IsQuiet :
    (ini : Ini) (at : Machine) (cmd_line : List ℕ) (has_power : Bool) (v : Version) (t : Timers)
    (resolve : List ℕ → Option (List ℕ)) (file : Option (List ℕ)) (x : Rest) (b : Boot) (n m : ℕ)
    (p : Pump)
    → win_main ini at cmd_line has_power v t resolve file ≡ some b
    → ini.int openslx (codes "remapMode") 2 ≡ 0
    → Reaches (guest_of at v x b) (pump_of x b) n m p
    → (p.desk.profile ≡ x.profile) × (p.warned ≡ none)
win_main-IsQuiet ini at cmd_line has_power v t resolve file x b n m p boot off r =
    let ok : b.loaded.folder_status ≡ fs_ok =
      ap (λ (l : Loaded). l.folder_status)
        (booted_status ini at cmd_line has_power v t resolve file b boot)
      ∙ status_at_start ini at off in
    let q : IsQuiet x.profile p =
      Reaches-IsQuiet x.profile (guest_of at v x b) (pump_of x b) n m p ((refl, ok), refl) r in
    (q.0.0, q.1)
