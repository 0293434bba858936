-- ===== src/Winres/Folders/Garbage.antt =====
-- `patchRegPath` where it does not look at its uninitialised buffer: an entry that can be read.
use mltk.Common.{
  ℕ, ◌+◌, ◌≤◌, ◌≡◌, refl, sym, ap, ◌∙◌, Bool, true, false, List, Option, none, some, if◌then◌else◌,
  arith, eqb_list, eqb_list_refl, map, leb, length,
}
use mltk.Winres.Folders.Patch.{
  Profile, Shell, Target, max_path, readable, old_text, fits, find_folder, first_folder, set_value,
  write_path, choose_path, patch_reg_path,
}
use mltk.Winres.Folders.Choice.{or_first, Fit, length-map, chosen_short}

-- The same Windows with another text in the buffer.
abbrev pub over : Shell → (List ℕ → List ℕ) → Shell
over sh text = record sh { garbage = text }

abbrev pub IsReadable : Target → Profile → Type 0
IsReadable t p = (text : List ℕ) × (readable (p.registry t.value) ≡ some text)

choose_path-over :
    (sh : Shell) (other : List ℕ → List ℕ) (cm : Bool) (letter : List ℕ) (t : Target) (old : List ℕ)
    (p : Profile) (found : Option (List ℕ))
    → choose_path (over sh other) cm letter t old p found ≡ choose_path sh cm letter t old p found
unfolding choose_path write_path
choose_path-over sh other cm letter t old p none = refl
choose_path-over sh other cm letter t old p (some path) = refl

pub patch_reg_path-over :
    (sh : Shell) (other : List ℕ → List ℕ) (cm : Bool) (letter : List ℕ) (t : Target) (p : Profile)
    → IsReadable t p
    → patch_reg_path (over sh other) false cm letter t p ≡ patch_reg_path sh false cm letter t p
unfolding patch_reg_path
patch_reg_path-over sh other cm letter t p h =
    let old : Option (List ℕ) = readable (p.registry t.value) in
    let found : Option (List ℕ) = find_folder p.exists letter t.folders in
    let same : old_text (over sh other) t.value old ≡ old_text sh t.value old =
      ap (old_text (over sh other) t.value) h.1 ∙ sym (ap (old_text sh t.value) h.1) in
    ap (λ (r : Profile × Bool). if fits sh p.exists letter old then (p, true) else r)
      (ap (λ (o : List ℕ). choose_path (over sh other) cm letter t o p found) same
        ∙ choose_path-over sh other cm letter t (old_text sh t.value old) p found)

if-IsReadable :
    (t : Target) (b : Bool) (x y : Profile × Bool)
    → IsReadable t x.0
    → IsReadable t y.0
    → IsReadable t (if b then x else y).0
if-IsReadable t true x y h k = h
if-IsReadable t false x y h k = k

set_value-IsReadable :
    (t : Target) (text : List ℕ) (p : Profile)
    → length text + 2 ≤ max_path
    → IsReadable t (record p { registry = set_value t.value text p.registry })
set_value-IsReadable t text p short =
    let room : leb (length text + 2) max_path ≡ true = ground arith in
    (text, rw (eqb_list_refl t.value, room) refl)

write_path-IsReadable :
    (sh : Shell) (t : Target) (old folder : List ℕ) (p : Profile)
    → length folder + 2 ≤ max_path
    → IsReadable t p
    → IsReadable t (write_path sh t old folder p).0
unfolding write_path
write_path-IsReadable sh t old folder p short h =
    let text : List ℕ = map sh.lower folder in
    let set : Profile × Bool =
      (record p { registry = set_value t.value text p.registry; any_mapped = true }, true) in
    let failed : Profile × Bool = (record p { patch_ok = false }, false) in
    if-IsReadable t (eqb_list text (map sh.lower old)) (p, true)
      (if sh.can_set t.value then set else failed) h
      (if-IsReadable t (sh.can_set t.value) set failed
        (set_value-IsReadable t text p (omega (arith, length-map sh.lower folder))) h)

choose_path-IsReadable :
    (sh : Shell) (cm : Bool) (letter : List ℕ) (t : Target) (old : List ℕ) (p : Profile)
    (found : Option (List ℕ))
    → length (or_first (first_folder letter t.folders) found) + 2 ≤ max_path
    → IsReadable t p
    → IsReadable t (choose_path sh cm letter t old p found).0
unfolding choose_path
choose_path-IsReadable sh cm letter t old p (some path) short h =
    write_path-IsReadable sh t old path p short h
choose_path-IsReadable sh cm letter t old p none short h =
    let first : List ℕ = first_folder letter t.folders in
    let made : Profile = record p { exists = sh.create first p.exists } in
    if-IsReadable t cm (write_path sh t old first made) (p, false)
      (write_path-IsReadable sh t old first made short h) h

-- An entry that can be read can be read after the call.
pub patch_reg_path-IsReadable :
    (sh : Shell) (cm : Bool) (letter : List ℕ) (t : Target) (p : Profile)
    → Fit letter t.folders
    → IsReadable t p
    → IsReadable t (patch_reg_path sh false cm letter t p).0
unfolding patch_reg_path
patch_reg_path-IsReadable sh cm letter t p fit h =
    let old : List ℕ = old_text sh t.value (readable (p.registry t.value)) in
    let found : Option (List ℕ) = find_folder p.exists letter t.folders in
    if-IsReadable t (fits sh p.exists letter (readable (p.registry t.value))) (p, true)
      (choose_path sh cm letter t old p found) h
      (choose_path-IsReadable sh cm letter t old p found
        (chosen_short p.exists letter t.folders fit).1 h)
