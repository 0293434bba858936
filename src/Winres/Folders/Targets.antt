-- ===== src/Winres/Folders/Targets.antt =====
-- `patchUserPaths` of core/modules/run-virt/winres/src/winres.c: the entries that are moved, and
-- the end of Explorer.
use mltk.Common.{
  ℕ, Bool, true, false, ◌&&◌, ◌||◌, List, [], ◌∷◌, ◌++◌, if◌then◌else◌, codes, leb, ltb, ◌==◌,
}
use mltk.Winres.Folders.Patch.{Profile, Shell, Target, patch_reg_path}

-- The settings, from OPENSLX.INI.
pub record Remap : Type 0 where
  pub documents : Bool
  pub downloads : Bool
  pub desktop : Bool
  pub media : Bool
  pub other : Bool

abbrev pub target : List ℕ → List (List ℕ) → Target
target value folders = record { value = value; folders = folders }

abbrev pub contacts : List (List ℕ)
contacts = codes "Contacts" ∷ codes "Profile\\Contacts" ∷ codes "Kontakte" ∷ []

abbrev pub favorites : List (List ℕ)
favorites = codes "Favorites" ∷ codes "Profile\\Favorites" ∷ codes "Favoriten" ∷ []

abbrev pub saved_games : List (List ℕ)
saved_games = codes "Saved Games" ∷ codes "SavedGames" ∷ codes "Profile\\SavedGames" ∷ []

abbrev pub videos : List (List ℕ)
videos = codes "Videos" ∷ codes "My Videos" ∷ codes "Eigene Videos" ∷ []

abbrev pub pictures : List (List ℕ)
pictures = codes "Pictures" ∷ codes "My Pictures" ∷ codes "Eigene Bilder" ∷ codes "Bilder" ∷ []

abbrev pub music : List (List ℕ)
music = codes "Music" ∷ codes "My Music" ∷ codes "Eigene Musik" ∷ codes "Musik" ∷ []

abbrev pub downloads : List (List ℕ)
downloads = codes "Downloads" ∷ codes "Profile\\Downloads" ∷ []

abbrev pub documents : List (List ℕ)
documents =
    codes "Documents" ∷ codes "Dokumente" ∷ codes "My Documents" ∷ codes "Eigene Dateien" ∷ []

abbrev pub desktop : List (List ℕ)
desktop = codes "Windows Desktop" ∷ codes "Desktop" ∷ (codes "Arbeitsfl" ++ 0xe4 ∷ codes "che") ∷ []

abbrev pub when : Bool → List Target → List Target
when b ts = if b then ts else []

abbrev pub other_targets : List Target
other_targets =
    target (codes "{56784854-C6CB-462B-8169-88E350ACB882}") contacts
    ∷ target (codes "Favorites") favorites
    ∷ target (codes "{7D1D3A04-DEBB-4115-95CF-2F29DA2920DA}")
        (codes "Searches" ∷ codes "Profile\\Searches" ∷ [])
    ∷ target (codes "{BFB9D5E0-C6A9-404C-B2B2-AE6DB6AF4968}")
        (codes "Links" ∷ codes "Profile\\Links" ∷ [])
    ∷ target (codes "{4C5C32FF-BB9D-43B0-B5B4-2D72E54EAAA4}") saved_games
    ∷ []

abbrev pub media_targets : Bool → List Target
media_targets win10 =
    target (codes "My Video") videos
    ∷ target (codes "My Pictures") pictures
    ∷ target (codes "My Music") music
    ∷ when win10 (
        target (codes "{35286a68-3c57-41a1-bbb1-0eae73d76c95}") videos
        ∷ target (codes "{0ddd015d-b06c-45d5-8c4c-f59713854639}") pictures
        ∷ target (codes "{a0c69a99-21c8-4671-8703-7934162fcf1d}") music
        ∷ [])

abbrev pub download_targets : Bool → List Target
download_targets win10 =
    target (codes "{374DE290-123F-4565-9164-39C4925E467B}") downloads
    ∷ when win10 (target (codes "{7d83ee9b-2244-4e70-b1f5-5393042af1e4}") downloads ∷ [])

abbrev pub document_targets : Bool → List Target
document_targets win10 =
    target (codes "Personal") documents
    ∷ when win10 (target (codes "{f42ee2d3-909f-4907-8871-4c22fc0bf756}") documents ∷ [])

abbrev pub desktop_targets : Bool → List Target
desktop_targets win10 =
    target (codes "Desktop") desktop
    ∷ when win10 (target (codes "{B4BFCC3A-DB2C-424C-B029-7FE99A87C641}") desktop ∷ [])

-- The calls of `patchRegPath`, in their order.
unfoldable pub targets : Remap → Bool → List Target
targets remap win10 =
    when remap.other other_targets
    ++ (when remap.media (media_targets win10)
        ++ (when remap.downloads (download_targets win10)
            ++ (when remap.documents (document_targets win10)
                ++ when remap.desktop (desktop_targets win10))))

unfoldable pub patch_all : Shell → Bool → List ℕ → List Target → Profile → Profile
unfolding patch_reg_path
patch_all sh create_missing letter [] p = p
patch_all sh create_missing letter (t ∷ ts) p =
    patch_all sh create_missing letter ts (patch_reg_path sh false create_missing letter t p).0

-- A process: whether it is explorer.exe, can be opened, and ended.
pub record Process : Type 0 where
  pub is_explorer : Bool
  pub opened : Bool
  pub terminated : Bool

-- `killOk`.
unfoldable pub kill_explorer : List Process → Bool
kill_explorer [] = false
kill_explorer (x ∷ xs) = (x.is_explorer && (x.opened && x.terminated)) || kill_explorer xs

-- `_folderStatus`.
pub data FolderStatus : Type 0 where
  unknown : FolderStatus
  error : FolderStatus
  fs_ok : FolderStatus

-- The settings, the version of Windows, whether the key can be opened, whether the functions for
-- the list of processes are there, and that list.
pub record System : Type 0 where
  pub persistent : Bool
  pub remap : Remap
  pub create_missing : Bool
  pub major : ℕ
  pub minor : ℕ
  pub key_opens : Bool
  pub has_snapshot : Bool
  pub processes : List Process

-- Windows XP or later.
abbrev pub is_recent : ℕ → ℕ → Bool
is_recent major minor = ltb 5 major || (major == 5 && leb 1 minor)

-- The status after the entries have been patched.
unfoldable pub status_after : System → Profile → FolderStatus
unfolding kill_explorer
status_after sys p =
    if p.any_mapped
    then (if is_recent sys.major sys.minor && sys.has_snapshot
        then (if p.patch_ok && kill_explorer sys.processes then fs_ok else error)
        else error)
    else fs_ok

abbrev pub fresh_flags : Profile → Profile
fresh_flags p = record p { patch_ok = true; any_mapped = false }

abbrev pub patched : Shell → System → List ℕ → Profile → Profile
patched sh sys letter p =
    patch_all sh sys.create_missing letter (targets sys.remap (leb 10 sys.major)) (fresh_flags p)

-- The entries and the status after the call.
unfoldable pub patch_user_paths :
    Shell → System → List ℕ → Profile → FolderStatus → Profile × FolderStatus
unfolding patch_all targets status_after
patch_user_paths sh sys letter p status =
    let p' = patched sh sys letter p in
    if sys.persistent
    then (p, status)
    else if sys.key_opens
    then (p', status_after sys p')
    else (fresh_flags p, error)
