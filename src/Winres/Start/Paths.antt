-- ===== src/Winres/Start/Paths.antt =====
-- `loadPath` of core/modules/run-virt/winres/src/winres.c, and the paths and the log file that
-- `loadPaths` finds.
use mltk.Common.{
  ℕ, Bool, false, ◌&&◌, List, [], ◌++◌, Option, none, some, if◌then◌else◌, ltb, leb, length, take,
  codes,
}

-- `programsPath`, `windowsPath`, `desktopPath` and `tempPath`.
pub record KnownPaths : Type 0 where
  pub programs : List ℕ
  pub windows : List ℕ
  pub desktop : List ℕ
  pub temp : List ℕ

pub data Dest : Type 0 where
  programs_path windows_path desktop_path : Dest

abbrev pub put : Dest → List ℕ → KnownPaths → KnownPaths
put programs_path text p = record p { programs = text }
put windows_path text p = record p { windows = text }
put desktop_path text p = record p { desktop = text }

-- What is found for a folder: with `SHGetFolderPathW`, or else with the functions of an older
-- shell, where there are any, and in the environment. A call that fails leaves its buffer alone. For
-- a variable that is longer than the buffer that is an assumption: Windows leaves undefined what the
-- buffer then holds.
pub record Lookup : Type 0 where
  pub folder : Option (List ℕ)
  pub special : Option (List ℕ)
  pub env : Option (List ℕ)

-- The last way. It writes a fallback to `programsPath`, whatever is asked for.
abbrev pub fall_back : Dest → Option (List ℕ) → KnownPaths → KnownPaths
fall_back dest none p = put dest [] p
fall_back dest (some fallback) p = record p { programs = fallback }

-- A variable that is empty, or longer than 260 characters, does not count.
abbrev pub is_usable : List ℕ → Bool
is_usable text = ltb 0 (length text) && leb (length text) 260

abbrev pub from_env : Dest → Option (List ℕ) → Option (List ℕ) → KnownPaths → KnownPaths
from_env dest none fallback p = fall_back dest fallback p
from_env dest (some text) fallback p =
    if is_usable text then put dest text p else fall_back dest fallback p

abbrev pub from_special :
    Dest → Option (List ℕ) → Option (List ℕ) → Option (List ℕ) → KnownPaths → KnownPaths
from_special dest none env fallback p = from_env dest env fallback p
from_special dest (some text) env fallback p = put dest text p

abbrev pub from_folder : Dest → Lookup → Option (List ℕ) → Option (List ℕ) → KnownPaths → KnownPaths
from_folder dest l none fallback p = from_special dest l.special l.env fallback p
from_folder dest l (some text) fallback p = put dest text p

unfoldable pub load_path : Dest → Lookup → Option (List ℕ) → KnownPaths → KnownPaths
load_path dest l fallback p = from_folder dest l l.folder fallback p

-- What is found for the three folders, by `GetTempPathW`, and in the variable TEMP.
pub record Places : Type 0 where
  pub programs : Lookup
  pub windows : Lookup
  pub desktop : Lookup
  pub temp_path : Option (List ℕ)
  pub temp_env : Option (List ℕ)

abbrev pub temp_of_env : Option (List ℕ) → List ℕ
temp_of_env none = []
temp_of_env (some text) = if is_usable text then text else []

abbrev pub temp_of : Option (List ℕ) → Option (List ℕ) → List ℕ
temp_of none env = temp_of_env env
temp_of (some text) env = text

-- There is neither a variable nor a fallback for the desktop.
unfoldable pub find_paths : Places → KnownPaths
unfolding load_path
find_paths at =
    let nothing : KnownPaths = record { programs = []; windows = []; desktop = []; temp = [] } in
    let p = load_path programs_path at.programs (some (codes "C:\\Program Files")) nothing in
    let p' = load_path windows_path at.windows (some (codes "C:\\WINDOWS")) p in
    let p'' = load_path desktop_path (record at.desktop { env = none }) none p' in
    record p'' { temp = temp_of at.temp_path at.temp_env }

-- `logFile`, and whether a log file that is as good as empty is removed.
pub record Log : Type 0 where
  pub file : List ℕ
  pub removed : Bool

abbrev pub log_in : List ℕ → List ℕ
log_in dir = take 299 (dir ++ codes "\\openslx.log")

-- With the size of the file, if it can be opened.
abbrev pub in_temp : List ℕ → Option ℕ → Log
in_temp file none = record { file = file; removed = false }
in_temp file (some size) = record { file = file; removed = ltb size 3 }

abbrev pub choose_log : (List ℕ → Option ℕ) → KnownPaths → Option ℕ → Log
choose_log opens p none = in_temp (log_in p.temp) (opens (log_in p.temp))
choose_log opens p (some size) = record { file = log_in p.desktop; removed = ltb size 3 }

unfoldable pub log_file : (List ℕ → Option ℕ) → KnownPaths → Log
log_file opens p = choose_log opens p (opens (log_in p.desktop))
