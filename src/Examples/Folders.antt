-- ===== src/Examples/Folders.antt =====
-- Examples for the home directory's folders.
use mltk.Common.{
  ℕ, ◌+◌, ◌≡◌, ◌⊎◌, refl, Bool, true, false, ◌&&◌, ◌||◌, List, [], ◌∷◌, some, none, codes, arith,
  if◌then◌else◌, leb, eqb_list, eqb_list→eq, map, inl, inr, All, starts_with,
}
use mltk.Winres.ShareFile.{Drive}
use mltk.Winres.Mount.{Windows, no_error}
use mltk.Winres.Folders.Patch.{Profile, Shell, Target, patch_reg_path, find_folder}
use mltk.Winres.Folders.Targets.{
  Remap, target, documents, targets, System, unknown, fs_ok, fresh_flags, patch_user_paths,
}
use mltk.Winres.Folders.Choice.{IsWindows, Fit}
use mltk.Winres.Folders.Garbage.{over, IsReadable}
use mltk.Winres.Folders.Twice.{patch_reg_path_twice}
use mltk.Winres.Folders.Untouched.{patch_user_paths_blocked}
use mltk.Winres.Folders.Shortcut.{Desk, Settings, rm_native_fallback, may_patch}

abbrev lower : ℕ → ℕ
lower c = if leb b'A' c && leb c b'Z' then c + 32 else c

abbrev make : List ℕ → (List ℕ → Bool) → List ℕ → Bool
make path exists q = eqb_list (map lower q) (map lower path) || exists q

abbrev pub shell : Shell
shell = record { lower = lower; can_set = λ n. true; create = make; garbage = λ n. [] }

made : (a b : Bool) (x y : List ℕ) → (a ≡ true → x ≡ y) → (a || b) ≡ true → (b ≡ true) ⊎ (x ≡ y)
made true b x y h k = inr (h refl)
made false b x y h k = inl k

shell-IsWindows : IsWindows shell
shell-IsWindows = record {
  lower_twice = λ c. ground arith;
  made = λ path exists q h.
      made (eqb_list (map lower q) (map lower path)) (exists q) (map lower q) (map lower path)
        (eqb_list→eq (map lower q) (map lower path)) h;
}

abbrev personal : Target
personal = target (codes "Personal") documents

abbrev pub home : Profile
home = record {
  registry = λ n.
      if eqb_list n (codes "Personal")
      then some (record { is_text = true; text = codes "C:\\Users" })
      else none;
  exists = λ p. eqb_list p (codes "H:\\Dokumente");
  patch_ok = true;
  any_mapped = false;
}

-- The entry is moved to the folder that exists.
moved :
    (patch_reg_path shell false true (codes "H:") personal home).0.registry (codes "Personal")
    ≡ some (record { is_text = true; text = codes "h:\\dokumente" })
unfolding patch_reg_path eqb_list find_folder
moved = refl

documents_Fit : Fit (codes "H:") documents
unfolding Fit
documents_Fit = (omega arith, (omega arith, (omega arith, (omega arith, tt))))

home-IsReadable : IsReadable personal home
unfolding eqb_list
home-IsReadable = (codes "C:\\Users", refl)

patch_reg_path_twice_example :
    let first = (patch_reg_path shell false true (codes "H:") personal home).0 in
    let second =
      (patch_reg_path
        (over shell (λ n. codes "H:"))
        false
        true
        (codes "H:")
        personal
        (fresh_flags first)).0 in
    (second.registry ≡ first.registry) × (second.any_mapped ≡ false)
patch_reg_path_twice_example =
    patch_reg_path_twice shell shell-IsWindows true (codes "H:") personal documents_Fit home
      (λ n. codes "H:") (inl home-IsReadable)

abbrev only_documents : Remap
only_documents = record {
  documents = true;
  downloads = false;
  desktop = false;
  media = false;
  other = false;
}

abbrev pub system : System
system = record {
  persistent = false;
  remap = only_documents;
  create_missing = true;
  major = 6;
  minor = 1;
  key_opens = true;
  has_snapshot = true;
  processes = record { is_explorer = true; opened = true; terminated = true } ∷ [];
}

untargeted :
    All
      (λ (t : Target). eqb_list (codes "Cache") t.value ≡ false)
      (targets only_documents (leb 10 6))
unfolding targets eqb_list
untargeted = (refl, tt)

abbrev locked : Shell
locked = record shell { can_set = λ n. false }

nothing_set :
    All (λ (t : Target). locked.can_set t.value ≡ false) (targets only_documents (leb 10 6))
unfolding targets
nothing_set = (refl, tt)

patch_user_paths_blocked_example :
    let r = patch_user_paths locked system (codes "H:") home unknown in
    (r.0.registry ≡ home.registry) × (r.1 ≡ fs_ok)
patch_user_paths_blocked_example =
    patch_user_paths_blocked locked system (codes "H:") home unknown refl refl nothing_set

abbrev pub desk : Desk
desk = record { profile = home; status = unknown; links = []; commands = [] }

abbrev pub settings : Settings
settings = record {
  desktop_path = codes "C:\\Desktop";
  remap_mode = rm_native_fallback;
  garbage = [];
}

abbrev pub network : Windows
network = record { convert = λ size text. some text; connect = λ r. no_error }

abbrev archive : Drive
archive = record {
  path = codes "\\\\host\\archive";
  path_ip = none;
  letter = some (codes "Y");
  shortcut = some (codes "Archiv");
  user = none;
  pass = none;
  success = false;
}

not_home : may_patch settings archive desk ≡ false
unfolding may_patch starts_with
not_home = refl
