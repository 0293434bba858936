-- ===== src/Winres/Start/Overwritten.antt =====
-- A folder of Windows that is not found costs the directory of the programs.
use mltk.Common.{
  ℕ, ◌≡◌, refl, ap, false, List, [], Option, none, some, codes, if_false, ◌∙◌, Bool-cases, inl, inr,
}
use mltk.Winres.Start.Paths.{
  KnownPaths, Lookup, Places, load_path, find_paths, is_usable, from_env, fall_back, windows_path,
  programs_path, desktop_path, from_folder, from_special,
}

-- Neither the shell nor the environment has the folder.
abbrev pub IsUnusable : Option (List ℕ) → Type 0
IsUnusable none = Unit
IsUnusable (some text) = is_usable text ≡ false

pub record IsMissing (l : Lookup) : Type 0 where
  pub no_folder : l.folder ≡ none
  pub no_special : l.special ≡ none
  pub no_env : IsUnusable l.env

from_env_fallback :
    (env : Option (List ℕ)) (f : List ℕ) (p : KnownPaths)
    → IsUnusable env
    → from_env windows_path env (some f) p ≡ fall_back windows_path (some f) p
from_env_fallback none f p h = refl
from_env_fallback (some text) f p h = if_false _ _ (is_usable text) h

-- The path of a folder that is missing.
load_path_missing :
    (l : Lookup) (f : List ℕ) (p : KnownPaths)
    → IsMissing l
    → load_path windows_path l (some f) p ≡ record p { programs = f }
unfolding load_path
load_path_missing l f p h =
    ap (λ o. from_folder windows_path l o (some f) p) h.no_folder
    ∙ ap (λ o. from_special windows_path o l.env (some f) p) h.no_special
    ∙ from_env_fallback l.env f p h.no_env

-- A look-up for the programs leaves the directory of Windows alone.
abbrev SameWindows : KnownPaths → KnownPaths → Type 0
SameWindows p q = q.windows ≡ p.windows

from_env-SameWindows :
    (env : Option (List ℕ)) (f : List ℕ) (p : KnownPaths)
    → SameWindows p (from_env programs_path env (some f) p)
from_env-SameWindows none f p = refl
from_env-SameWindows (some text) f p = elim (Bool-cases (is_usable text)) [
  | inl usable ↦ rw usable refl
  | inr unusable ↦ rw unusable refl
]

from_folder-SameWindows :
    (l : Lookup) (folder special : Option (List ℕ)) (f : List ℕ) (p : KnownPaths)
    → SameWindows p (from_folder programs_path (record l { special = special }) folder (some f) p)
from_folder-SameWindows l (some text) special f p = refl
from_folder-SameWindows l none (some text) f p = refl
from_folder-SameWindows l none none f p = from_env-SameWindows l.env f p

-- A look-up for the desktop leaves both alone.
from_folder_desktop :
    (l : Lookup) (folder special : Option (List ℕ)) (p : KnownPaths)
    → let q = from_folder desktop_path (record l { special = special; env = none }) folder none p in
      (q.programs ≡ p.programs) × (q.windows ≡ p.windows)
from_folder_desktop l (some text) special p = (refl, refl)
from_folder_desktop l none (some text) p = (refl, refl)
from_folder_desktop l none none p = (refl, refl)

-- If the directory of Windows is found neither by the shell nor in the environment, then the
-- directory of the programs is C:\WINDOWS, whatever has been found for it, and the directory of
-- Windows stays empty.
pub find_paths_overwritten :
    (at : Places)
    → IsMissing at.windows
    → ((find_paths at).programs ≡ codes "C:\\WINDOWS") × ((find_paths at).windows ≡ [])
unfolding find_paths load_path
find_paths_overwritten at missing =
    let nothing : KnownPaths = record { programs = []; windows = []; desktop = []; temp = [] } in
    let first : KnownPaths =
      load_path programs_path at.programs (some (codes "C:\\Program Files")) nothing in
    let second : KnownPaths =
      load_path windows_path at.windows (some (codes "C:\\WINDOWS")) first in
    let kept = from_folder_desktop at.desktop at.desktop.folder at.desktop.special second in
    let lost = load_path_missing at.windows (codes "C:\\WINDOWS") first missing in
    (
      kept.0 ∙ ap (λ (p : KnownPaths). p.programs) lost,
      kept.1
          ∙ ap (λ (p : KnownPaths). p.windows) lost
          ∙ from_folder-SameWindows at.programs at.programs.folder at.programs.special
              (codes "C:\\Program Files") nothing,
    )
