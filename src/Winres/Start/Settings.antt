-- ===== src/Winres/Start/Settings.antt =====
-- The settings that `loadPaths` of core/modules/run-virt/winres/src/winres.c reads from
-- OPENSLX.INI.
use mltk.Common.{
  ℕ, Bool, true, false, not, List, [], ◌∷◌, ◌++◌, Option, none, some, if◌then◌else◌, ◌==◌, ltb,
  length, take, codes,
}
use mltk.Winres.Folders.Targets.{Remap, FolderStatus, unknown, fs_ok}
use mltk.Winres.Folders.Shortcut.{
  RemapMode, rm_none, rm_native, rm_native_fallback, rm_vmware, rm_other,
}
use mltk.Winres.Start.Paths.{KnownPaths, Places, find_paths, Log, log_file}

-- `GetPrivateProfileIntA` and `GetPrivateProfileStringA` on OPENSLX.INI: the value of a key in a
-- section, or the default.
pub record Ini : Type 0 where
  pub int : List ℕ → List ℕ → ℕ → ℕ
  pub text : List ℕ → List ℕ → List ℕ → List ℕ

abbrev pub flag : Ini → List ℕ → List ℕ → ℕ → Bool
flag ini section key default = not (ini.int section key default == 0)

abbrev pub openslx : List ℕ
openslx = codes "openslx"

abbrev pub remap_section : List ℕ
remap_section = codes "remap"

abbrev pub mode_of : ℕ → RemapMode
mode_of n =
    if n == 0
    then rm_none
    else if n == 1
    then rm_native
    else if n == 2
    then rm_native_fallback
    else if n == 3
    then rm_vmware
    else rm_other

abbrev pub read_remap : Ini → Remap
read_remap ini = record {
  documents = flag ini remap_section (codes "documents") 1;
  downloads = flag ini remap_section (codes "downloads") 1;
  desktop = flag ini remap_section (codes "desktop") 0;
  media = flag ini remap_section (codes "media") 1;
  other = flag ini remap_section (codes "other") 0;
}

-- The first letter in upper case and a colon; an empty text stays empty.
abbrev pub home_drive_of : (ℕ → ℕ) → List ℕ → List ℕ
home_drive_of upper [] = []
home_drive_of upper (c ∷ cs) = upper c ∷ b':' ∷ []

-- The wide text, unless it cannot be converted or does not fit in 50 characters with its end.
abbrev pub wide_or_empty : Option (List ℕ) → List ℕ
wide_or_empty none = []
wide_or_empty (some wide) = if ltb (length wide) 50 then wide else []

abbrev pub script_file_of : (List ℕ → Option (List ℕ)) → List ℕ → List ℕ
script_file_of to_wide ext = wide_or_empty (to_wide (codes "B:\\runscript" ++ take 87 ext))

-- The variables that `loadPaths` sets.
pub record Loaded : Type 0 where
  pub paths : KnownPaths
  pub log : Log
  pub remap : Remap
  pub create_missing_remap : Bool
  pub remap_mode : RemapMode
  pub folder_status : FolderStatus
  pub remap_home_drive : List ℕ
  pub script_file : List ℕ
  pub pass_creds : Bool
  pub no_home_warn : Bool

abbrev pub is_none : RemapMode → Bool
is_none rm_none = true
is_none rm_native = false
is_none rm_native_fallback = false
is_none rm_vmware = false
is_none rm_other = false

-- What the machine gives: the folders, the size of a file that can be opened to append to it, the
-- conversion to wide characters, and `toupper`.
pub record Machine : Type 0 where
  pub places : Places
  pub opens : List ℕ → Option ℕ
  pub utf8_to_wide : List ℕ → Option (List ℕ)
  pub acp_to_wide : List ℕ → Option (List ℕ)
  pub upper : ℕ → ℕ

unfoldable pub load_paths : Ini → Machine → Loaded
unfolding find_paths log_file
load_paths ini at =
    let paths : KnownPaths = find_paths at.places in
    let mode : RemapMode = mode_of (ini.int openslx (codes "remapMode") 2) in
    record {
      paths = paths;
      log = log_file at.opens paths;
      remap = read_remap ini;
      create_missing_remap = flag ini openslx (codes "createMissingRemap") 1;
      remap_mode = mode;
      folder_status = if is_none mode then fs_ok else unknown;
      remap_home_drive = home_drive_of at.upper (ini.text openslx (codes "homeDrive") (codes "H:"));
      script_file = script_file_of at.utf8_to_wide (ini.text openslx (codes "scriptExt") []);
      pass_creds = flag ini openslx (codes "passCreds") 0;
      no_home_warn = flag ini openslx (codes "noHomeWarn") 0;
    }
