-- ===== src/Winres/Start.antt =====
-- The start of core/modules/run-virt/winres/src/winres.c: `WinMain` up to its message pump.
pub mod Paths
pub mod Settings
pub mod Overwritten
pub mod Quiet
use mltk.Common.{
  ℕ, Bool, true, false, not, ◌&&◌, ◌||◌, List, [], ◌∷◌, ◌++◌, Option, none, some, if◌then◌else◌,
  ◌==◌, ltb, leb, length, take, codes, eqb_list, get_or, ℤ,
}
use mltk.Winres.ShareFile.{Drive, Shares, read_share_file}
use mltk.Winres.Mount.{Cache, or_empty}
use mltk.Winres.Shares.{Mounts}
use mltk.Winres.Scripts.{Entry, Scripts}
use mltk.Winres.Folders.Patch.{Shell, Profile}
use mltk.Winres.Folders.Targets.{Remap, Process, FolderStatus, unknown, fs_ok, is_recent}
use mltk.Winres.Folders.Targets
use mltk.Winres.Folders.Shortcut.{
  RemapMode, rm_none, rm_native, rm_native_fallback, rm_vmware, rm_other, Desk, contains,
}
use mltk.Winres.Pump.{Guest, Pump}
use mltk.Winres.Pump.Erased.{at_start}
use mltk.Winres.Start.Paths.{KnownPaths, Places, find_paths, Log, log_file}
use mltk.Winres.Start.Settings.{
  Ini, flag, openslx, remap_section, mode_of, read_remap, home_drive_of, wide_or_empty,
  script_file_of, Loaded, is_none, Machine, load_paths,
}

-- `winVer`, and whether `GetVersionEx` has set it; else it is 0.0.
pub record Version : Type 0 where
  pub is_known : Bool
  pub major : ℕ
  pub minor : ℕ

-- Whether `SetTimer` makes each timer, and whether the window for the devices can be made.
pub record Timers : Type 0 where
  pub drives : Bool
  pub shutdown : Bool
  pub resolution : Bool
  pub script : Bool
  pub devices : Bool

-- What `SetThreadExecutionState` is called with: whether with the flag for the away mode.
abbrev pub power_state : Bool → Version → Option Bool
power_state has_function v =
    if not has_function || not (is_recent v.major v.minor) then none else some (leb 6 v.major)

-- How the start has gone.
pub record Boot : Type 0 where
  pub persistent_mode : Bool
  pub prefer_physical_screen : Bool
  pub debug : Bool
  pub loaded : Loaded
  pub muted : Option Bool
  pub power : Option Bool
  pub shares : Shares
  pub drives_timer : Bool
  pub shutdown_timer : Bool
  pub device_events : Bool
  pub resolution_timer : Bool
  pub script_timer : Bool
  pub remote : Bool

abbrev pub no_shares : Shares
no_shares = record {
  share_file_ok = false;
  shost = none;
  sport = none;
  suser = none;
  spass = none;
  bkey1 = none;
  bkey2 = none;
  drives = [];
}

abbrev pub started : Ini → List ℕ → Bool → Version → Timers → Loaded → Shares → Boot
started ini cmd_line has_power v t l s = record {
  persistent_mode = flag ini openslx (codes "persistentMode") 0;
  prefer_physical_screen = flag ini openslx (codes "preferPhysicalScreen") 0;
  debug = contains cmd_line (codes "/debug") || flag ini openslx (codes "debug") 0;
  loaded = l;
  muted =
      if v.is_known && leb 6 v.major then some (flag ini openslx (codes "muteSound") 1) else none;
  power = power_state has_power v;
  shares = s;
  drives_timer = (s.share_file_ok || not (is_none l.remap_mode)) && t.drives;
  shutdown_timer = (v.is_known && (v.major == 6 && v.minor == 1)) && t.shutdown;
  device_events = (ltb 6 v.major || (v.major == 6 && leb 1 v.minor)) && t.devices;
  resolution_timer = t.resolution;
  script_timer = t.script;
  remote = eqb_list (ini.text openslx (codes "runMode") []) (codes "remoteaccess");
}

abbrev pub with_shares :
    Ini → List ℕ → Bool → Version → Timers → Loaded → Option Shares → Option Boot
with_shares ini cmd_line has_power v t l none = none
with_shares ini cmd_line has_power v t l (some s) = some (started ini cmd_line has_power v t l s)

-- The start, with the addresses of hosts and the contents of shares.dat. `none` means that the fuel
-- of `readShareFile` ran out.
unfoldable pub win_main :
    Ini
    → Machine
    → List ℕ
    → Bool
    → Version
    → Timers
    → (List ℕ → Option (List ℕ))
    → Option (List ℕ)
    → Option Boot
unfolding load_paths
win_main ini at cmd_line has_power v t resolve file =
    with_shares ini cmd_line has_power v t (load_paths ini at)
      (read_share_file resolve file no_shares)

-- The rest of what the pump needs: the registry and the processes, and the scripts.
pub record Rest : Type 0 where
  pub shell : Shell
  pub key_opens : Bool
  pub has_snapshot : Bool
  pub processes : List Process
  pub garbage : List ℕ
  pub found : List Entry
  pub script_visibility : ℤ
  pub profile : Profile

-- The pump after the start: what does not change, and the variables.
abbrev pub guest_of : Machine → Version → Rest → Boot → Guest
guest_of at v x b = record {
  shell = x.shell;
  system = record {
    persistent = b.persistent_mode;
    remap = b.loaded.remap;
    create_missing = b.loaded.create_missing_remap;
    major = v.major;
    minor = v.minor;
    key_opens = x.key_opens;
    has_snapshot = x.has_snapshot;
    processes = x.processes;
  };
  settings = record {
    desktop_path = b.loaded.paths.desktop;
    remap_mode = b.loaded.remap_mode;
    garbage = x.garbage;
  };
  share_file_ok = b.shares.share_file_ok;
  remote = record {
    shost = or_empty b.shares.shost;
    sport = or_empty b.shares.sport;
    bkey1 = or_empty b.shares.bkey1;
    bkey2 = or_empty b.shares.bkey2;
  };
  suser = b.shares.suser;
  scripts = record {
    utf8_to_wide = at.utf8_to_wide;
    acp_to_wide = at.acp_to_wide;
    found = x.found;
    script_file = b.loaded.script_file;
    script_visibility = x.script_visibility;
    has_pass_creds = b.loaded.pass_creds;
  };
  home_drive = b.loaded.remap_home_drive;
  no_home_warn = b.loaded.no_home_warn;
}

abbrev pub pump_of : Rest → Boot → Pump
pump_of x b =
    at_start
      (record {
        attempt_no = 0;
        drives = b.shares.drives;
        cached = record { nuser = []; npass = [] };
      })
      (record { profile = x.profile; status = b.loaded.folder_status; links = []; commands = [] })
      b.shares.spass b.drives_timer b.script_timer
