-- ===== src/Winres/Folders/Twice.antt =====
-- A call of `patchRegPath` that follows another with the same drive has nothing to do.
use mltk.Common.{
  ℕ, ◌⊎◌, ◌+◌, ◌≤◌, ◌≡◌, refl, sym, ap, ◌∙◌, subst, Bool, true, false, List, Option, none, some,
  if◌then◌else◌, arith, inl, inr, Bool-cases, eqb_list, eqb_list_refl, eqb_list→eq, map, leb,
  length, if_true, if_false,
}
use mltk.Winres.Folders.Patch.{
  Value, Profile, Shell, Target, max_path, readable, old_text, fits, find_folder, first_folder,
  set_value, write_path, choose_path, patch_reg_path,
}
use mltk.Winres.Folders.Targets.{fresh_flags}
use mltk.Winres.Folders.Garbage.{over, IsReadable, patch_reg_path-over, patch_reg_path-IsReadable}
use mltk.Winres.Folders.Choice.{
  IsWindows, Fit, or_first, Idles, folders_after, lower_text, length-map, names-Idles,
  patch_reg_path-Idles, blocked-Idles, chosen_short,
}

written-readable :
    (sh : Shell) (n text : List ℕ) (registry : List ℕ → Option Value)
    → length text + 2 ≤ max_path
    → old_text sh n (readable (set_value n text registry n)) ≡ text
written-readable sh n text registry short =
    let room : leb (length text + 2) max_path ≡ true = ground arith in
    rw (eqb_list_refl n, room) refl

module _ (sh : Shell) (w : IsWindows sh) (cm : Bool) (letter : List ℕ) (t : Target)
    (fit : Fit letter t.folders) where
  -- The second call, after this result of the first.
  abbrev Settles : Profile × Bool → Type 0
  Settles r = Idles (fresh_flags r.0) (patch_reg_path sh false cm letter t (fresh_flags r.0)).0

  Settles-blocked : (r : Profile × Bool) → sh.can_set t.value ≡ false → Settles r
  Settles-blocked r shut =
      let q : Profile = fresh_flags r.0 in
      patch_reg_path-Idles sh cm letter t q (
        blocked-Idles sh cm letter t (old_text sh t.value (readable (q.registry t.value))) q
          (find_folder q.exists letter t.folders) shut)

  -- After the folder that was decided for has been looked up, and perhaps written.
  write_path-Settles :
      (p : Profile) (found : Option (List ℕ)) (old : List ℕ)
      → find_folder p.exists letter t.folders ≡ found
      → old ≡ old_text sh t.value (readable (p.registry t.value))
      → Settles (
          write_path sh t old (or_first (first_folder letter t.folders) found) (record p {
            exists = folders_after sh cm (first_folder letter t.folders) p.exists found;
          }))
  unfolding write_path
  write_path-Settles p found old at_found at_old =
      go (eqb_list (map sh.lower folder) (map sh.lower old)) (sh.can_set t.value) refl refl
    where
      folder : List ℕ
      folder = or_first (first_folder letter t.folders) found

      short : length (map sh.lower folder) + 2 ≤ max_path
      short = omega (
        arith,
        length-map sh.lower folder,
        ap (λ (o : Option (List ℕ)). length (or_first (first_folder letter t.folders) o)) at_found,
        chosen_short p.exists letter t.folders fit,
      )

      here : Profile
      here = record p {
        exists = folders_after sh cm (first_folder letter t.folders) p.exists found;
      }

      go :
          (same can : Bool)
          → eqb_list (map sh.lower folder) (map sh.lower old) ≡ same
          → sh.can_set t.value ≡ can
          → let new : Profile × Bool =
              if can
              then (
                record here {
                  registry = set_value t.value (map sh.lower folder) p.registry;
                  any_mapped = true;
                },
                true,
              )
              else (record here { patch_ok = false }, false) in
            let r : Profile × Bool = if same then (here, true) else new in Settles r
      go true can at_same at_can =
          names-Idles sh w cm letter t p.exists found (fresh_flags here) at_found refl
            (eqb_list→eq _ _ at_same ∙ ap (map sh.lower) at_old)
      go false false at_same at_can =
          Settles-blocked (record here { patch_ok = false }, false) at_can
      go false true at_same at_can =
          names-Idles sh w cm letter t p.exists found
            (fresh_flags (record here {
              registry = set_value t.value (map sh.lower folder) p.registry;
              any_mapped = true;
            }))
            at_found refl
            (sym (lower_text sh w folder)
              ∙ ap (map sh.lower)
                  (sym (written-readable sh t.value (map sh.lower folder) p.registry short)))

  choose_path-Settles :
      (p : Profile) (found : Option (List ℕ))
      → find_folder p.exists letter t.folders ≡ found
      → Settles
          (choose_path sh cm letter t (old_text sh t.value (readable (p.registry t.value))) p found)
  unfolding choose_path
  choose_path-Settles p (some path) at_found =
      write_path-Settles p (some path) (old_text sh t.value (readable (p.registry t.value)))
        at_found refl
  choose_path-Settles p none at_found =
      let old : List ℕ = old_text sh t.value (readable (p.registry t.value)) in
      let first : List ℕ = first_folder letter t.folders in
      let made : List ℕ → Bool = sh.create first p.exists in
      let write : Profile × Bool = write_path sh t old first (record p { exists = made }) in
      elim (Bool-cases cm) [
        | inl creates ↦ subst Settles (sym (if_true write (p, false) cm creates)) (
            subst (λ e. Settles (write_path sh t old first (record p { exists = e })))
              (if_true made p.exists cm creates) (write_path-Settles p none old at_found refl))
        | inr never ↦
            let q : Profile = fresh_flags p in
            let again : Profile × Bool = write_path sh t old first (record q { exists = made }) in
            subst Settles (sym (if_false write (p, false) cm never)) (
              patch_reg_path-Idles sh cm letter t q (
                subst (λ o. Idles q (choose_path sh cm letter t old q o).0) (sym at_found)
                  (subst (λ (r : Profile × Bool). Idles q r.0)
                    (sym (if_false again (q, false) cm never)) (refl, refl))))
      ]

  -- With the same text in the uninitialised buffer.
  patch_reg_path-Settles : (p : Profile) → Settles (patch_reg_path sh false cm letter t p)
  unfolding patch_reg_path
  patch_reg_path-Settles p =
      let old : Option (List ℕ) = readable (p.registry t.value) in
      let more : Profile × Bool =
        choose_path sh cm letter t (old_text sh t.value old) p
          (find_folder p.exists letter t.folders) in
      elim (Bool-cases (fits sh p.exists letter old)) [
        | inl kept ↦
            let q : Profile = fresh_flags p in
            let other : Profile × Bool =
              choose_path sh cm letter t (old_text sh t.value old) q
                (find_folder p.exists letter t.folders) in
            subst Settles (sym (if_true (p, true) more (fits sh p.exists letter old) kept)) (
              subst (λ (r : Profile × Bool). Idles q r.0)
                (sym (if_true (q, true) other (fits sh p.exists letter old) kept)) (refl, refl))
        | inr moved ↦
            subst Settles (sym (if_false (p, true) more (fits sh p.exists letter old) moved))
              (choose_path-Settles p (find_folder p.exists letter t.folders) refl)
      ]

  -- If lower case is lower case, CreateDirectoryW makes no other folder than the one it is given,
  -- the folders' paths fit in the buffer that entries are read into, and Windows lets the same
  -- entries be set in both calls, and if the entry can be read before the first call or the
  -- uninitialised buffer holds the same text both times, then a second call with the same drive and
  -- the same entry leaves the registry as the first call has left it, and does not count as a change
  -- that Explorer has to be ended for.
  pub patch_reg_path_twice :
      (p : Profile) (other : List ℕ → List ℕ)
      → IsReadable t p ⊎ (other ≡ sh.garbage)
      → let first = (patch_reg_path sh false cm letter t p).0 in
        let second = (patch_reg_path (over sh other) false cm letter t (fresh_flags first)).0 in
        (second.registry ≡ first.registry) × (second.any_mapped ≡ false)
  patch_reg_path_twice p other (inl can_read) =
      let first : Profile = (patch_reg_path sh false cm letter t p).0 in
      let still : IsReadable t first = patch_reg_path-IsReadable sh cm letter t p fit can_read in
      subst (λ (r : Profile × Bool). Idles (fresh_flags first) r.0)
        (sym (patch_reg_path-over sh other cm letter t (fresh_flags first) still))
        (patch_reg_path-Settles p)
  patch_reg_path_twice p other (inr same) =
      let first : Profile = (patch_reg_path sh false cm letter t p).0 in
      subst
        (λ (g : List ℕ → List ℕ).
          Idles (fresh_flags first)
            (patch_reg_path (over sh g) false cm letter t (fresh_flags first)).0)
        (sym same) (patch_reg_path-Settles p)
