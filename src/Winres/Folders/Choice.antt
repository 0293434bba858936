-- ===== src/Winres/Folders/Choice.antt =====
-- What a call of `patchRegPath` decides for, and the call after it.
use mltk.Common.{
  ℕ, ◌+◌, ◌≤◌, ◌≡◌, ◌⊎◌, refl, ap, ap₂, ◌∙◌, Bool, true, false, List, [], ◌∷◌, Option, none, some,
  if◌then◌else◌, arith, inl, inr, eqb_list, eqb_list_refl, map, length, if_true,
}
use mltk.Winres.Folders.Patch.{
  Profile, Shell, Target, max_path, readable, old_text, fits, folder_path, find_folder,
  first_folder, set_value, write_new, write_path, choose_path, patch_reg_path,
}

-- What Windows does: lower case is lower case, and a folder that is made is the only new one, in
-- any spelling.
pub record IsWindows (sh : Shell) : Type 0 where
  pub lower_twice : (c : ℕ) → sh.lower (sh.lower c) ≡ sh.lower c
  pub made :
      (path : List ℕ) (exists : List ℕ → Bool) (q : List ℕ)
      → sh.create path exists q ≡ true
      → (exists q ≡ true) ⊎ (map sh.lower q ≡ map sh.lower path)

pub lower_text :
    (sh : Shell) → IsWindows sh → (s : List ℕ) → map sh.lower (map sh.lower s) ≡ map sh.lower s
lower_text sh w [] = refl
lower_text sh w (c ∷ s) = ap₂ ◌∷◌ (w.lower_twice c) (lower_text sh w s)

pub length-map : (f : ℕ → ℕ) (s : List ℕ) → length (map f s) ≡ length s
length-map f [] = refl
length-map f (c ∷ s) = omega (arith, length-map f s)

-- The folder that a call decides for.
abbrev pub or_first : List ℕ → Option (List ℕ) → List ℕ
or_first first none = first
or_first first (some path) = path

abbrev pub chosen : (List ℕ → Bool) → List ℕ → List (List ℕ) → List ℕ
chosen exists letter fs = or_first (first_folder letter fs) (find_folder exists letter fs)

-- Nothing is written.
abbrev pub Idles : Profile → Profile → Type 0
Idles p p' = (p'.registry ≡ p.registry) × (p'.any_mapped ≡ p.any_mapped)

write_path_same :
    (sh : Shell) (t : Target) (old folder : List ℕ) (p : Profile)
    → map sh.lower folder ≡ map sh.lower old
    → write_path sh t old folder p ≡ (p, true)
unfolding write_path
write_path_same sh t old folder p same =
    if_true (p, true) (write_new sh t folder p) (eqb_list (map sh.lower folder) (map sh.lower old))
      (rw same (eqb_list_refl (map sh.lower old)))

-- With the folder decided for, and what that leaves of the entries.
choose_path_same :
    (sh : Shell) (cm : Bool) (letter : List ℕ) (t : Target) (old : List ℕ) (p : Profile)
    (found : Option (List ℕ))
    → map sh.lower (or_first (first_folder letter t.folders) found) ≡ map sh.lower old
    → Idles p (choose_path sh cm letter t old p found).0
unfolding choose_path
choose_path_same sh cm letter t old p (some path) same =
    rw (write_path_same sh t old path p same) (refl, refl)
choose_path_same sh true letter t old p none same =
    rw
      (write_path_same sh t old (first_folder letter t.folders)
        (record p { exists = sh.create (first_folder letter t.folders) p.exists }) same)
      (refl, refl)
choose_path_same sh false letter t old p none same = (refl, refl)

pub patch_reg_path-Idles :
    (sh : Shell) (cm : Bool) (letter : List ℕ) (t : Target) (p : Profile)
    → Idles p
        (choose_path sh cm letter t
          (old_text sh t.value (readable (p.registry t.value)))
          p
          (find_folder p.exists letter t.folders)).0
    → Idles p (patch_reg_path sh false cm letter t p).0
unfolding patch_reg_path
patch_reg_path-Idles sh cm letter t p h =
    go (fits sh p.exists letter (readable (p.registry t.value)))
      (choose_path sh cm letter t (old_text sh t.value (readable (p.registry t.value))) p
        (find_folder p.exists letter t.folders))
      h
  where
    go : (b : Bool) (r : Profile × Bool) → Idles p r.0 → Idles p (if b then (p, true) else r).0
    go true r h = (refl, refl)
    go false r h = h

-- What was not there before the first folder was made is there under its name only.
found-after :
    (sh : Shell) (w : IsWindows sh) (exists : List ℕ → Bool) (letter path : List ℕ)
    (fs : List (List ℕ))
    → find_folder exists letter fs ≡ none
    → (find_folder (sh.create path exists) letter fs ≡ none)
      ⊎ ((q : List ℕ) × (find_folder (sh.create path exists) letter fs ≡ some q)
          × (map sh.lower q ≡ map sh.lower path))
unfolding find_folder
found-after sh w exists letter path [] h = inl refl
found-after sh w exists letter path (f ∷ fs) h =
    go (exists (folder_path letter f)) (sh.create path exists (folder_path letter f))
      (find_folder exists letter fs) (find_folder (sh.create path exists) letter fs) h
      (w.made path exists (folder_path letter f)) (found-after sh w exists letter path fs)
  where
    go :
        (old new : Bool) (before after : Option (List ℕ))
        → (if old then some (folder_path letter f) else before) ≡ none
        → (new ≡ true → (old ≡ true) ⊎ (map sh.lower (folder_path letter f) ≡ map sh.lower path))
        → (before ≡ none
            → (after ≡ none)
              ⊎ ((q : List ℕ) × (after ≡ some q) × (map sh.lower q ≡ map sh.lower path)))
        → ((if new then some (folder_path letter f) else after) ≡ none)
          ⊎ ((q : List ℕ) × ((if new then some (folder_path letter f) else after) ≡ some q)
              × (map sh.lower q ≡ map sh.lower path))
    go true new before after h made rest = cc
    go false true before after h made rest = elim (made refl) [
      | inl was ↦ cc
      | inr same ↦ inr (folder_path letter f, refl, same)
    ]
    go false false before after h made rest = rest h

-- The folders after the choice.
abbrev pub folders_after : Shell → Bool → List ℕ → (List ℕ → Bool) → Option (List ℕ) → List ℕ → Bool
folders_after sh cm first exists (some path) = exists
folders_after sh cm first exists none = if cm then sh.create first exists else exists

-- The next call decides for the same folder.
chosen-after :
    (sh : Shell) (w : IsWindows sh) (cm : Bool) (exists : List ℕ → Bool) (letter : List ℕ)
    (fs : List (List ℕ)) (found : Option (List ℕ))
    → find_folder exists letter fs ≡ found
    → map sh.lower (chosen (folders_after sh cm (first_folder letter fs) exists found) letter fs)
      ≡ map sh.lower (or_first (first_folder letter fs) found)
chosen-after sh w cm exists letter fs (some path) h = rw h refl
chosen-after sh w false exists letter fs none h = rw h refl
chosen-after sh w true exists letter fs none h =
    elim (found-after sh w exists letter (first_folder letter fs) fs h) [
      | inl nothing ↦ rw nothing refl
      | inr there ↦ rw there.1 there.2
    ]

-- A call where the entry names the folder that the one before decided for.
pub names-Idles :
    (sh : Shell) (w : IsWindows sh) (cm : Bool) (letter : List ℕ) (t : Target)
    (exists : List ℕ → Bool) (found : Option (List ℕ)) (q : Profile)
    → find_folder exists letter t.folders ≡ found
    → q.exists ≡ folders_after sh cm (first_folder letter t.folders) exists found
    → map sh.lower (or_first (first_folder letter t.folders) found)
      ≡ map sh.lower (old_text sh t.value (readable (q.registry t.value)))
    → Idles q (patch_reg_path sh false cm letter t q).0
names-Idles sh w cm letter t exists found q at_found at_exists same =
    patch_reg_path-Idles sh cm letter t q (
      choose_path_same sh cm letter t (old_text sh t.value (readable (q.registry t.value))) q
        (find_folder q.exists letter t.folders)
        (ap (λ (e : List ℕ → Bool). map sh.lower (chosen e letter t.folders)) at_exists
          ∙ chosen-after sh w cm exists letter t.folders found at_found
          ∙ same))

-- An entry that cannot be set.
write_path_blocked :
    (sh : Shell) (t : Target) (old folder : List ℕ) (p : Profile)
    → sh.can_set t.value ≡ false
    → Idles p (write_path sh t old folder p).0
unfolding write_path
write_path_blocked sh t old folder p shut =
    go (eqb_list (map sh.lower folder) (map sh.lower old)) (sh.can_set t.value) shut
  where
    go :
        (same can : Bool)
        → can ≡ false
        → let new : Profile × Bool =
            if can
            then (
              record p {
                registry = set_value t.value (map sh.lower folder) p.registry;
                any_mapped = true;
              },
              true,
            )
            else (record p { patch_ok = false }, false) in
          let r : Profile × Bool = if same then (p, true) else new in Idles p r.0
    go true can h = (refl, refl)
    go false true h = cc
    go false false h = (refl, refl)

pub blocked-Idles :
    (sh : Shell) (cm : Bool) (letter : List ℕ) (t : Target) (old : List ℕ) (p : Profile)
    (found : Option (List ℕ))
    → sh.can_set t.value ≡ false
    → Idles p (choose_path sh cm letter t old p found).0
unfolding choose_path
blocked-Idles sh cm letter t old p (some path) shut = write_path_blocked sh t old path p shut
blocked-Idles sh true letter t old p none shut =
    write_path_blocked sh t old (first_folder letter t.folders)
      (record p { exists = sh.create (first_folder letter t.folders) p.exists }) shut
blocked-Idles sh false letter t old p none shut = (refl, refl)

-- The folders' paths fit in the buffer that the entry is read into.
unfoldable pub Fit : List ℕ → List (List ℕ) → Type 0
Fit letter [] = Unit
Fit letter (f ∷ fs) = (length (folder_path letter f) + 2 ≤ max_path) × Fit letter fs

pub chosen_short :
    (exists : List ℕ → Bool) (letter : List ℕ) (fs : List (List ℕ))
    → Fit letter fs
    → (length (first_folder letter fs) + 2 ≤ max_path)
      × (length (chosen exists letter fs) + 2 ≤ max_path)
unfolding find_folder Fit
chosen_short exists letter [] h = (omega arith, omega arith)
chosen_short exists letter (f ∷ fs) h = (
  h.0,
  go (exists (folder_path letter f)) (find_folder exists letter fs)
      (chosen_short exists letter fs h.1).1,
)
  where
    go :
        (b : Bool) (rest : Option (List ℕ))
        → length (or_first (first_folder letter fs) rest) + 2 ≤ max_path
        → length (or_first (folder_path letter f) (if b then some (folder_path letter f) else rest))
            + 2
          ≤ max_path
    go true rest k = h.0
    go false none k = h.0
    go false (some x) k = k
