-- ===== src/Winres/Folders/Untouched.antt =====
-- What `patchUserPaths` leaves alone, and what it says where nothing can be written.
use mltk.Common.{
  ℕ, ◌≡◌, arith, refl, sym, ◌∙◌, subst, Bool, true, false, List, [], ◌∷◌, Option, none, some,
  if◌then◌else◌, if_true, if_false, eqb_list, All, leb,
}
use mltk.Winres.Folders.Patch.{
  Profile, Shell, Target, readable, old_text, fits, find_folder, first_folder, write_path,
  choose_path, patch_reg_path,
}
use mltk.Winres.Folders.Targets.{
  targets, patch_all, System, FolderStatus, error, fs_ok, status_after, fresh_flags, patched,
  patch_user_paths,
}
use mltk.Winres.Folders.Choice.{Idles, patch_reg_path-Idles, blocked-Idles}

-- An entry under another name.
write_path-other :
    (sh : Shell) (t : Target) (old folder n : List ℕ) (p : Profile)
    → eqb_list n t.value ≡ false
    → (write_path sh t old folder p).0.registry n ≡ p.registry n
unfolding write_path
write_path-other sh t old folder n p other = ground arith

choose_path-other :
    (sh : Shell) (cm : Bool) (letter : List ℕ) (t : Target) (old n : List ℕ) (p : Profile)
    (found : Option (List ℕ))
    → eqb_list n t.value ≡ false
    → (choose_path sh cm letter t old p found).0.registry n ≡ p.registry n
unfolding choose_path
choose_path-other sh cm letter t old n p (some path) other =
    write_path-other sh t old path n p other
choose_path-other sh true letter t old n p none other =
    write_path-other sh t old (first_folder letter t.folders) n
      (record p { exists = sh.create (first_folder letter t.folders) p.exists }) other
choose_path-other sh false letter t old n p none other = refl

patch_reg_path-other :
    (sh : Shell) (cm : Bool) (letter : List ℕ) (t : Target) (n : List ℕ) (p : Profile)
    → eqb_list n t.value ≡ false
    → (patch_reg_path sh false cm letter t p).0.registry n ≡ p.registry n
unfolding patch_reg_path
patch_reg_path-other sh cm letter t n p other =
    go (fits sh p.exists letter (readable (p.registry t.value)))
      (choose_path sh cm letter t (old_text sh t.value (readable (p.registry t.value))) p
        (find_folder p.exists letter t.folders))
      (choose_path-other sh cm letter t (old_text sh t.value (readable (p.registry t.value))) n p
        (find_folder p.exists letter t.folders) other)
  where
    go :
        (b : Bool) (r : Profile × Bool)
        → r.0.registry n ≡ p.registry n
        → let s : Profile × Bool = if b then (p, true) else r in s.0.registry n ≡ p.registry n
    go true r h = refl
    go false r h = h

patch_all-other :
    (sh : Shell) (cm : Bool) (letter : List ℕ) (ts : List Target) (n : List ℕ) (p : Profile)
    → All (λ (t : Target). eqb_list n t.value ≡ false) ts
    → (patch_all sh cm letter ts p).registry n ≡ p.registry n
unfolding patch_all
patch_all-other sh cm letter [] n p h = refl
patch_all-other sh cm letter (t ∷ ts) n p h =
    patch_all-other sh cm letter ts n (patch_reg_path sh false cm letter t p).0 h.1
    ∙ patch_reg_path-other sh cm letter t n p h.0

-- An entry that is no target of the settings stays as it is, whatever happens.
pub patch_user_paths-other :
    (sh : Shell) (sys : System) (letter n : List ℕ) (p : Profile) (status : FolderStatus)
    → All (λ (t : Target). eqb_list n t.value ≡ false) (targets sys.remap (leb 10 sys.major))
    → (patch_user_paths sh sys letter p status).0.registry n ≡ p.registry n
unfolding patch_user_paths
patch_user_paths-other sh sys letter n p status h =
    go sys.persistent sys.key_opens (patched sh sys letter p) (
      patch_all-other sh sys.create_missing letter (targets sys.remap (leb 10 sys.major)) n
        (fresh_flags p) h)
  where
    go :
        (a b : Bool) (p' : Profile)
        → p'.registry n ≡ p.registry n
        → let s : Profile × FolderStatus =
            if a
            then (p, status)
            else if b
            then (p', status_after sys p')
            else (fresh_flags p, error) in
          s.0.registry n ≡ p.registry n
    go true b p' h = refl
    go false true p' h = h
    go false false p' h = refl

patch_all_blocked :
    (sh : Shell) (cm : Bool) (letter : List ℕ) (ts : List Target) (p : Profile)
    → All (λ (t : Target). sh.can_set t.value ≡ false) ts
    → Idles p (patch_all sh cm letter ts p)
unfolding patch_all
patch_all_blocked sh cm letter [] p h = (refl, refl)
patch_all_blocked sh cm letter (t ∷ ts) p h =
    let rest = patch_all_blocked sh cm letter ts (patch_reg_path sh false cm letter t p).0 h.1 in
    let first = patch_reg_path-Idles sh cm letter t p (
      blocked-Idles sh cm letter t (old_text sh t.value (readable (p.registry t.value))) p
        (find_folder p.exists letter t.folders) h.0) in
    (rest.0 ∙ first.0, rest.1 ∙ first.1)

-- Not in persistent mode, and if the key of the registry can be opened but none of its entries can
-- be set, the registry stays as it is, and still the folders count as mapped.
pub patch_user_paths_blocked :
    (sh : Shell) (sys : System) (letter : List ℕ) (p : Profile) (status : FolderStatus)
    → sys.persistent ≡ false
    → sys.key_opens ≡ true
    → All (λ (t : Target). sh.can_set t.value ≡ false) (targets sys.remap (leb 10 sys.major))
    → let r = patch_user_paths sh sys letter p status in (r.0.registry ≡ p.registry) × (r.1 ≡ fs_ok)
unfolding patch_user_paths status_after
patch_user_paths_blocked sh sys letter p status run opens shut =
    let p' : Profile = patched sh sys letter p in
    let idle =
      patch_all_blocked sh sys.create_missing letter (targets sys.remap (leb 10 sys.major))
        (fresh_flags p) shut in
    subst (λ (r : Profile × FolderStatus). (r.0.registry ≡ p.registry) × (r.1 ≡ fs_ok))
      (sym (if_false _ _ sys.persistent run ∙ if_true _ _ sys.key_opens opens))
      (idle.0, if_false _ _ p'.any_mapped idle.1)
