-- ===== src/Winres/Folders/Patch.antt =====
-- `patchRegPath` of core/modules/run-virt/winres/src/winres.c: one entry of the registry. What
-- Windows does with an entry and with a folder is a parameter.
use mltk.Common.{
  ℕ, ◌+◌, Bool, true, false, ◌&&◌, List, [], ◌∷◌, ◌++◌, Option, none, some, if◌then◌else◌, ◌==◌,
  leb, length, get_or, take, eqb_list, map,
}

-- An entry: whether it is a text (`REG_SZ` or `REG_EXPAND_SZ`), and the text without its final NUL.
pub record Value : Type 0 where
  pub is_text : Bool
  pub text : List ℕ

-- The entries by name, the folders that exist, and the flags that the calls share.
pub record Profile : Type 0 where
  pub registry : List ℕ → Option Value
  pub exists : List ℕ → Bool
  pub patch_ok : Bool
  pub any_mapped : Bool

-- `towlower`, whether an entry can be set, the folders after `CreateDirectoryW`, and what stands
-- in the uninitialised buffer `oldvalue` in the call for an entry. A Shell is what Windows and the
-- stack do while every entry is patched once.
pub record Shell : Type 0 where
  pub lower : ℕ → ℕ
  pub can_set : List ℕ → Bool
  pub create : List ℕ → (List ℕ → Bool) → List ℕ → Bool
  pub garbage : List ℕ → List ℕ

-- An entry, and the folders that it may point to.
pub record Target : Type 0 where
  pub value : List ℕ
  pub folders : List (List ℕ)

abbrev pub max_path : ℕ
max_path = 260

-- A text that fits in the buffer with its NUL and a place more.
abbrev pub readable : Option Value → Option (List ℕ)
readable none = none
readable (some v) = if v.is_text && leb (length v.text + 2) max_path then some v.text else none

abbrev pub old_text : Shell → List ℕ → Option (List ℕ) → List ℕ
old_text sh name none = sh.garbage name
old_text sh name (some text) = text

-- The same drive, and the folder exists.
abbrev pub fits : Shell → (List ℕ → Bool) → List ℕ → Option (List ℕ) → Bool
fits sh exists letter none = false
fits sh exists letter (some text) =
    sh.lower (get_or text 0 0) == sh.lower (get_or letter 0 0) && exists text

abbrev pub folder_path : List ℕ → List ℕ → List ℕ
folder_path letter folder = take 259 (letter ++ b'\\' ∷ folder)

-- The first of the folders that exists.
unfoldable pub find_folder : (List ℕ → Bool) → List ℕ → List (List ℕ) → Option (List ℕ)
find_folder exists letter [] = none
find_folder exists letter (f ∷ fs) =
    let rest = find_folder exists letter fs in
    if exists (folder_path letter f) then some (folder_path letter f) else rest

abbrev pub first_folder : List ℕ → List (List ℕ) → List ℕ
first_folder letter [] = []
first_folder letter (f ∷ fs) = folder_path letter f

abbrev pub set_value : List ℕ → List ℕ → (List ℕ → Option Value) → List ℕ → Option Value
set_value name text registry n =
    if eqb_list n name then some (record { is_text = true; text = text }) else registry n

-- A folder that the entry does not name yet: the state, and the result.
abbrev pub write_new : Shell → Target → List ℕ → Profile → Profile × Bool
write_new sh t folder p =
    if sh.can_set t.value
    then (
      record p { registry = set_value t.value (map sh.lower folder) p.registry; any_mapped = true },
      true,
    )
    else (record p { patch_ok = false }, false)

-- With the folder that is chosen.
unfoldable pub write_path : Shell → Target → List ℕ → List ℕ → Profile → Profile × Bool
write_path sh t old folder p =
    if eqb_list (map sh.lower folder) (map sh.lower old) then (p, true) else write_new sh t folder p

unfoldable pub choose_path :
    Shell → Bool → List ℕ → Target → List ℕ → Profile → Option (List ℕ) → Profile × Bool
unfolding write_path
choose_path sh create_missing letter t old p (some path) = write_path sh t old path p
choose_path sh create_missing letter t old p none =
    let first = first_folder letter t.folders in
    if create_missing
    then write_path sh t old first (record p { exists = sh.create first p.exists })
    else (p, false)

unfoldable pub patch_reg_path : Shell → Bool → Bool → List ℕ → Target → Profile → Profile × Bool
unfolding choose_path find_folder
patch_reg_path sh persistent create_missing letter t p =
    let old = readable (p.registry t.value) in
    if persistent
    then (p, true)
    else if fits sh p.exists letter old
    then (p, true)
    else choose_path sh create_missing letter t (old_text sh t.value old) p
        (find_folder p.exists letter t.folders)
