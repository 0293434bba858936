-- ===== src/Winres/Resolution/Selected.antt =====
-- `setResModern` switches on one path for each available screen of a real adapter.
use mltk.Common.{
  ◌≡◌, refl, sym, ap, ◌∙◌, subst, Bool, true, false, not, ◌&&◌, ◌||◌, List, [], ◌∷◌, ◌++◌,
  if◌then◌else◌, ◌==◌, All, All-append, arith, Bool-cases, inl, inr, some, if_true, if_false,
}
use mltk.Winres.Resolution.Methods.{
  ScreenPath, is_real, has_target, new_paths, any_paths, set_res_modern,
}
use mltk.Winres.Resolution.{Code, done, not_supported}

-- An available screen of a real adapter.
abbrev pub is_usable : ScreenPath → Bool
is_usable p = is_real p.adapter_name && p.available

abbrev same_target : ScreenPath → ScreenPath → Bool
same_target p q = p.target_id == q.target_id && p.adapter_id == q.adapter_id

-- No two paths lead to the same screen.
abbrev pub AreApart : List ScreenPath → Type 0
AreApart [] = Unit
AreApart (q ∷ qs) = (has_target q qs ≡ false) × AreApart qs

abbrev pub Reached : List ScreenPath → ScreenPath → Type 0
Reached qs p = is_usable p ≡ true → has_target p qs ≡ true

same_target_sym : (p q : ScreenPath) → same_target p q ≡ same_target q p
same_target_sym p q = ground arith

same_target_refl : (p : ScreenPath) → same_target p p ≡ true
same_target_refl p = ground arith

or_assoc : (a b c : Bool) → (a || (b || c)) ≡ ((a || b) || c)
or_assoc a b c = ground arith

or_false : (a b : Bool) → (a || b) ≡ false → (a ≡ false) × (b ≡ false)
or_false a b h = ground arith

has_target-append :
    (p : ScreenPath) (xs ys : List ScreenPath)
    → has_target p (xs ++ ys) ≡ (has_target p xs || has_target p ys)
unfolding has_target
has_target-append p [] ys = refl
has_target-append p (x ∷ xs) ys =
    ap (λ b. same_target p x || b) (has_target-append p xs ys)
    ∙ or_assoc (same_target p x) (has_target p xs) (has_target p ys)

-- A path that is added last leads to another screen than all before.
append-AreApart :
    (p : ScreenPath) (qs : List ScreenPath)
    → has_target p qs ≡ false
    → AreApart qs
    → AreApart (qs ++ p ∷ [])
unfolding has_target
append-AreApart p [] new h = (refl, tt)
append-AreApart p (q ∷ qs) new h =
    let parts = or_false (same_target p q) (has_target p qs) new in
    let other : same_target q p ≡ false = same_target_sym q p ∙ parts.0 in
    let joined : (has_target q qs || (same_target q p || false)) ≡ false =
      or_both (has_target q qs) (same_target q p) h.0 other in
    (has_target-append q qs (p ∷ []) ∙ joined, append-AreApart p qs parts.1 h.1)
  where
    or_both : (a b : Bool) → a ≡ false → b ≡ false → (a || (b || false)) ≡ false
    or_both a b h k = ground arith

-- What holds of the paths that are chosen.
abbrev IsChosen : List ScreenPath → Type 0
IsChosen qs = All (λ (q : ScreenPath). is_usable q ≡ true) qs × AreApart qs

-- The paths after a round.
abbrev chosen_after : List ScreenPath → ScreenPath → List ScreenPath
chosen_after qs p = if not (has_target p qs) && is_usable p then qs ++ p ∷ [] else qs

test_parts : (a b : Bool) → (not a && b) ≡ true → (a ≡ false) × (b ≡ true)
test_parts a b h = ground arith

chosen_after-IsChosen :
    (qs : List ScreenPath) (p : ScreenPath) → IsChosen qs → IsChosen (chosen_after qs p)
chosen_after-IsChosen qs p h = elim (Bool-cases (not (has_target p qs) && is_usable p)) [
  | inr skipped ↦ subst IsChosen (sym (if_false (qs ++ p ∷ []) qs _ skipped)) h
  | inl taken ↦
      let parts = test_parts (has_target p qs) (is_usable p) taken in
      subst IsChosen (sym (if_true (qs ++ p ∷ []) qs _ taken)) (
        All-append (λ (q : ScreenPath). is_usable q ≡ true) qs (p ∷ []) h.0 (parts.1, tt),
        append-AreApart p qs parts.0 h.1,
      )
]

new_paths-IsChosen : (qs ps : List ScreenPath) → IsChosen qs → IsChosen (new_paths qs ps)
unfolding new_paths
new_paths-IsChosen qs [] h = h
new_paths-IsChosen qs (p ∷ ps) h =
    new_paths-IsChosen (chosen_after qs p) ps (chosen_after-IsChosen qs p h)

if_has_target :
    (r : ScreenPath) (b : Bool) (xs ys : List ScreenPath)
    → has_target r xs ≡ true
    → has_target r ys ≡ true
    → has_target r (if b then xs else ys) ≡ true
if_has_target r true xs ys h k = h
if_has_target r false xs ys h k = k

-- What is reached stays so.
chosen_after-has_target :
    (r p : ScreenPath) (qs : List ScreenPath)
    → has_target r qs ≡ true
    → has_target r (chosen_after qs p) ≡ true
chosen_after-has_target r p qs h =
    if_has_target r (not (has_target p qs) && is_usable p) (qs ++ p ∷ []) qs
      (has_target-append r qs (p ∷ []) ∙ ap (λ b. b || has_target r (p ∷ [])) h) h

new_paths-has_target :
    (r : ScreenPath) (qs ps : List ScreenPath)
    → has_target r qs ≡ true
    → has_target r (new_paths qs ps) ≡ true
unfolding new_paths
new_paths-has_target r qs [] h = h
new_paths-has_target r qs (p ∷ ps) h =
    new_paths-has_target r (chosen_after qs p) ps (chosen_after-has_target r p qs h)

-- After its round a usable path is reached.
chosen_after-Reached : (p : ScreenPath) (qs : List ScreenPath) → Reached (chosen_after qs p) p
unfolding has_target
chosen_after-Reached p qs usable = elim (Bool-cases (has_target p qs)) [
  | inl before ↦ chosen_after-has_target p p qs before
  | inr new ↦
      let taken : (not (has_target p qs) && is_usable p) ≡ true =
        ap (λ b. not b && is_usable p) new ∙ usable in
      subst (λ xs. has_target p xs ≡ true) (sym (if_true (qs ++ p ∷ []) qs _ taken))
        (has_target-append p qs (p ∷ [])
          ∙ last_one (has_target p qs) (same_target p p) (same_target_refl p))
]
  where
    last_one : (a b : Bool) → b ≡ true → (a || (b || false)) ≡ true
    last_one a b h = ground arith

new_paths-Reached : (qs ps : List ScreenPath) → All (Reached (new_paths qs ps)) ps
unfolding new_paths
new_paths-Reached qs [] = tt
new_paths-Reached qs (p ∷ ps) = (
  λ usable. new_paths-has_target p (chosen_after qs p) ps (chosen_after-Reached p qs usable),
  new_paths-Reached (chosen_after qs p) ps,
)

-- What is proved of the paths that are switched on.
abbrev pub IsSelection : List ScreenPath → Code × List ScreenPath → Type 0
IsSelection paths r =
    All (λ (q : ScreenPath). is_usable q ≡ true) r.1
    × AreApart r.1
    × All (Reached r.1) paths
    × (r.0 ≡ not_supported → All (λ (q : ScreenPath). is_usable q ≡ false) paths)

unreached : (p : ScreenPath) → Reached [] p → is_usable p ≡ false
unfolding has_target
unreached p h = elim (Bool-cases (is_usable p)) [
  | inl usable ↦ absurd (false_not_true (h usable))
  | inr unusable ↦ unusable
]
  where
    false_not_true : false ≡ true → ⊥
    false_not_true h = cc

All-unreached :
    (paths : List ScreenPath)
    → All (Reached []) paths
    → All (λ (q : ScreenPath). is_usable q ≡ false) paths
All-unreached [] h = tt
All-unreached (p ∷ ps) h = (unreached p h.0, All-unreached ps h.1)

any_paths-IsSelection :
    (paths qs : List ScreenPath)
    → IsChosen qs
    → All (Reached qs) paths
    → IsSelection paths (any_paths qs)
any_paths-IsSelection paths [] chosen reached =
    (chosen.0, chosen.1, reached, λ h. All-unreached paths reached)
any_paths-IsSelection paths (q ∷ qs) chosen reached =
    (chosen.0, chosen.1, reached, λ h. absurd (done_supported h))
  where
    done_supported : done ≡ not_supported → ⊥
    done_supported h = cc

-- Where Windows has the functions and answers the query with these paths: every path that is
-- switched on leads to an available screen of a real adapter, no two of them to the same screen,
-- every available screen of a real adapter is reached by one, and only if there is none the other
-- methods are left to try.
pub set_res_modern-IsSelection :
    (paths : List ScreenPath) → IsSelection paths (set_res_modern (some paths))
unfolding set_res_modern
set_res_modern-IsSelection paths =
    any_paths-IsSelection paths (new_paths [] paths) (new_paths-IsChosen [] paths (tt, tt))
      (new_paths-Reached [] paths)
