-- ===== src/Winres/Folders/Shortcut.antt =====
-- `postSuccessfulMount` of core/modules/run-virt/winres/src/winres.c: a shortcut on the desktop for
-- a share, the home drive's folders, and the commands for a printer.
use mltk.Common.{
  ◌≡◌, refl, sym, subst, if_false, arith, ℕ, Bool, true, false, not, ◌&&◌, ◌||◌, List, [], ◌∷◌,
  ◌++◌, Option, none, some, if◌then◌else◌, ◌==◌, eqb_list, codes, starts_with, take, get_or,
}
use mltk.Winres.ShareFile.{Drive}
use mltk.Winres.Mount.{Windows, is_empty, or_empty}
use mltk.Winres.Shares.{is_printer}
use mltk.Winres.Folders.Patch.{Profile, Shell}
use mltk.Winres.Folders.Targets.{System, FolderStatus, unknown, error, fs_ok, patch_user_paths}

-- `_remapMode`.
pub data RemapMode : Type 0 where
  rm_none : RemapMode
  rm_native : RemapMode
  rm_native_fallback : RemapMode
  rm_vmware : RemapMode
  rm_other : RemapMode

-- A call of `createFolderShortcut` that is not cut short.
pub record Link : Type 0 where
  pub target_dir : List ℕ
  pub link_file : List ℕ
  pub comment : List ℕ

-- The registry and the folders, `_folderStatus`, the shortcuts, and the commands for printers.
pub record Desk : Type 0 where
  pub profile : Profile
  pub status : FolderStatus
  pub links : List Link
  pub commands : List (List ℕ)

-- The desktop's path, the mode, and what stands in the uninitialised buffer `wUncPath`.
pub record Settings : Type 0 where
  pub desktop_path : List ℕ
  pub remap_mode : RemapMode
  pub garbage : List ℕ

-- `strstr(text, part) != NULL`.
unfoldable pub contains : List ℕ → List ℕ → Bool
unfolding starts_with
contains [] part = is_empty part
contains (c ∷ text) part = starts_with (c ∷ text) part || contains text part

unfoldable pub is_webdav : List ℕ → Bool
unfolding contains
is_webdav path =
    contains path (codes "@SSL")
    || (contains path (codes "webdav")
        || (contains path (codes "WebDav")
            || (contains path (codes "WebDAV")
                || (contains path (codes "@ssl") || starts_with path (codes "http")))))

abbrev pub vmware_home : List ℕ
vmware_home = codes "\\\\vmware-host\\Shared Folders\\home"

abbrev pub allows : RemapMode → Bool → Bool
allows rm_none is_vmware = false
allows rm_native is_vmware = not is_vmware
allows rm_native_fallback is_vmware = true
allows rm_vmware is_vmware = is_vmware
allows rm_other is_vmware = false

abbrev pub is_fs_ok : FolderStatus → Bool
is_fs_ok unknown = false
is_fs_ok error = false
is_fs_ok fs_ok = true

-- The home drive, if its folders are still to be moved.
unfoldable pub may_patch : Settings → Drive → Desk → Bool
may_patch set d k =
    not (is_fs_ok k.status)
    && (starts_with (or_empty d.shortcut) (codes "Home-")
        && allows set.remap_mode (eqb_list d.path vmware_home))

unfoldable pub wide_shortcut : Windows → Option (List ℕ) → List ℕ
wide_shortcut w none = []
wide_shortcut w (some text) =
    if is_empty text then [] else elim (w.convert 260 text) [ none ↦ [] | some wide ↦ wide ]

abbrev pub wide_path : Windows → Settings → List ℕ → List ℕ
wide_path w set path = elim (w.convert 260 path) [ none ↦ set.garbage | some wide ↦ wide ]

-- What is linked to: the drive for WebDAV, else the share itself.
abbrev pub link_target : Drive → List ℕ → List ℕ → List ℕ
link_target d letter unc =
    if not (is_empty letter) && is_webdav d.path
    then letter
    else take 259 (b'"' ∷ (unc ++ b'"' ∷ []))

abbrev pub push_link : System → Link → Desk → Desk
push_link sys l k = if sys.persistent then k else record k { links = l ∷ k.links }

abbrev pub patch_desk : Shell → System → List ℕ → Desk → Desk
patch_desk sh sys letter k =
    let r = patch_user_paths sh sys letter k.profile k.status in
    record k { profile = r.0; status = r.1 }

-- A share with a shortcut.
unfoldable pub post_share :
    Shell → System → Settings → Drive → List ℕ → List ℕ → List ℕ → Desk → Desk
unfolding may_patch is_webdav
post_share sh sys set d letter unc name k =
    let k' =
      push_link sys
        (record {
          target_dir = link_target d letter unc;
          link_file = take 259 (set.desktop_path ++ b'\\' ∷ (name ++ codes ".lnk"));
          comment = letter;
        })
        k in
    if may_patch set d k then patch_desk sh sys letter k' else k'

abbrev pub printui : List ℕ → List ℕ → List ℕ
printui option unc =
    take 259
      (codes "printui.dll PrintUIEntry /q " ++ (option ++ (codes " /n \"" ++ (unc ++ b'"' ∷ []))))

-- A printer is connected, and made the default if its shortcut starts with '@'.
unfoldable pub post_printer : Drive → List ℕ → List ℕ → Desk → Desk
post_printer d unc name k =
    let is_default = not (is_empty name) && get_or (or_empty d.shortcut) 0 0 == b'@' in
    record k {
      commands =
          (if is_default then printui (codes "/y") unc ∷ [] else [])
          ++ printui (codes "/in") unc ∷ k.commands;
    }

unfoldable pub post_successful_mount :
    Windows → Shell → System → Settings → Drive → List ℕ → Desk → Desk
unfolding wide_shortcut post_share post_printer
post_successful_mount w sh sys set d letter k =
    let unc = wide_path w set d.path in
    let name = wide_shortcut w d.shortcut in
    if is_printer d
    then post_printer d unc name k
    else if is_empty name
    then k
    else post_share sh sys set d letter unc name k

abbrev SameFolders : Desk → Desk → Type 0
SameFolders k k' = (k'.profile ≡ k.profile) × (k'.status ≡ k.status)

push_link_folders : (sys : System) (l : Link) (k : Desk) → SameFolders k (push_link sys l k)
push_link_folders sys l k = ground arith

post_share_done :
    (sh : Shell) (sys : System) (set : Settings) (d : Drive) (letter unc name : List ℕ) (k : Desk)
    → may_patch set d k ≡ false
    → SameFolders k (post_share sh sys set d letter unc name k)
unfolding post_share
post_share_done sh sys set d letter unc name k never =
    let link : Link = record {
      target_dir = link_target d letter unc;
      link_file = take 259 (set.desktop_path ++ b'\\' ∷ (name ++ codes ".lnk"));
      comment = letter;
    } in
    subst (SameFolders k)
      (sym (
        if_false (patch_desk sh sys letter (push_link sys link k)) (push_link sys link k)
          (may_patch set d k) never))
      (push_link_folders sys link k)

-- Unless it is the home drive, and its folders are still to be moved, a mount leaves the registry
-- and the status alone.
pub post_successful_mount_other :
    (w : Windows) (sh : Shell) (sys : System) (set : Settings) (d : Drive) (letter : List ℕ)
    (k : Desk)
    → may_patch set d k ≡ false
    → SameFolders k (post_successful_mount w sh sys set d letter k)
unfolding post_successful_mount post_printer
post_successful_mount_other w sh sys set d letter k never =
    go (is_printer d) (is_empty (wide_shortcut w d.shortcut))
      (post_share sh sys set d letter (wide_path w set d.path) (wide_shortcut w d.shortcut) k)
      (post_share_done sh sys set d letter (wide_path w set d.path) (wide_shortcut w d.shortcut) k
        never)
  where
    go :
        (a b : Bool) (shared : Desk)
        → SameFolders k shared
        → SameFolders k (
            if a
            then post_printer d (wide_path w set d.path) (wide_shortcut w d.shortcut) k
            else if b
            then k
            else shared)
    go true b shared h = (refl, refl)
    go false true shared h = (refl, refl)
    go false false shared h = h
