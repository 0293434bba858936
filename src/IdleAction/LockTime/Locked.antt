-- ===== src/IdleAction/LockTime/Locked.antt =====
-- A time is printed only if the screen is locked.
use mltk.Common.{
  ℕ, ◌≤◌, ◌<◌, ◌≡◌, refl, sym, ◌∙◌, ap, true, false, List, [], ◌∷◌, ◌++◌, Option, none, some,
  show_ℕ, get_or, length, All, arith, Bool-cases, inl, inr, if_true, if_false, some_injective,
}
use mltk.IdleAction.LockTime.{
  Kid, Tree, has_version, first_with_version, Found, to_found, aborted, missing, found,
  find_screensaver_window, Status, Display, exit, print_time, check_status, check_window, no_text,
  main,
}

-- The first of some windows with the property.
pub IsFirst : List Kid → Kid → Type 0
IsFirst ks k =
    (before : List Kid) × (after : List Kid) × (ks ≡ before ++ (k ∷ after))
    × All (λ k'. has_version k' ≡ false) before
    × (has_version k ≡ true)

first_with_version_lem : (ks : List Kid) (k : Kid) → first_with_version ks ≡ some k → IsFirst ks k
unfolding first_with_version IsFirst
first_with_version_lem [] k e = cc
first_with_version_lem (x ∷ xs) k e = elim (Bool-cases (has_version x)) [
  | inl has ↦
      let same : x ≡ k = some_injective x k (sym (if_true _ _ (has_version x) has) ∙ e) in
      ([], xs, ap (λ y. y ∷ xs) same, tt, ap has_version (sym same) ∙ has)
  | inr lacks ↦
      let r = first_with_version_lem xs k (sym (if_false _ _ (has_version x) lacks) ∙ e) in
      (x ∷ r.0, r.1, ap (λ ys. x ∷ ys) r.2, (lacks, r.3), r.4)
]

to_found_lem : (o : Option Kid) (k : Kid) → to_found o ≡ found k → o ≡ some k
to_found_lem none k e = cc
to_found_lem (some x) k e = cc

find_screensaver_window_lem :
    (o : Option Tree) (k : Kid)
    → find_screensaver_window o ≡ found k
    → (t : Tree) × (o ≡ some t) × IsFirst t.kids k
unfolding find_screensaver_window
find_screensaver_window_lem none k e = cc
find_screensaver_window_lem (some t) k e =
    (t, refl, first_with_version_lem t.kids k (to_found_lem _ k (ground arith)))

-- What holds when a time is printed.
pub IsLocked : Display → List ℕ → Type 0
IsLocked d out =
    (t : Tree) × (k : Kid) × (s : Status) × (d.tree ≡ some t)
    × IsFirst t.kids k
    × (no_text k.version ≡ false)
    × (d.status ≡ some s)
    × (s.integer ≡ true)
    × (3 ≤ length s.items)
    × (get_or s.items 0 0 ≡ d.xa_lock)
    × (666000000 < get_or s.items 1 0)
    × (out ≡ show_ℕ (get_or s.items 1 0) ++ b'\n' ∷ [])

print_time_lem :
    (xa_lock : ℕ) (items out : List ℕ)
    → print_time xa_lock items ≡ exit 0 out
    → (get_or items 0 0 ≡ xa_lock)
      × (666000000 < get_or items 1 0)
      × (out ≡ show_ℕ (get_or items 1 0) ++ b'\n' ∷ [])
unfolding print_time
print_time_lem xa_lock items out e = ground arith

check_status_lem :
    (xa_lock : ℕ) (o : Option Status) (out : List ℕ)
    → check_status xa_lock o ≡ exit 0 out
    → (s : Status) × (o ≡ some s)
      × (s.integer ≡ true)
      × (3 ≤ length s.items)
      × (print_time xa_lock s.items ≡ exit 0 out)
unfolding check_status
check_status_lem xa_lock none out e = absurd cc
check_status_lem xa_lock (some s) out e = (s, refl, ground arith, ground arith, ground arith)

check_window_lem :
    (d : Display) (f : Found) (out : List ℕ)
    → check_window d f ≡ exit 0 out
    → (k : Kid) × (f ≡ found k)
      × (no_text k.version ≡ false)
      × (check_status d.xa_lock d.status ≡ exit 0 out)
unfolding check_window
check_window_lem d aborted out e = cc
check_window_lem d missing out e = absurd cc
check_window_lem d (found k) out e = (k, refl, ground arith, ground arith)

-- Exit code 0 means that the first window with a version has one that is not empty, and that the
-- status of the root window is a list of at least three integers which says that the screen is
-- locked, since the time that is printed.
pub main_lem : (d : Display) (out : List ℕ) → main d ≡ exit 0 out → IsLocked d out
unfolding main IsLocked
main_lem d out e =
    let w = check_window_lem d (find_screensaver_window d.tree) out (ground arith) in
    let f = find_screensaver_window_lem d.tree w.0 w.1 in
    let s = check_status_lem d.xa_lock d.status out w.3 in
    let p = print_time_lem d.xa_lock s.0.items out s.4 in
    (f.0, w.0, s.0, f.1, f.2, w.2, s.1, s.2, s.3, p.0, p.1, p.2)
