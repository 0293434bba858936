-- ===== src/IdleAction/LockTime.antt =====
-- core/modules/idleaction/xprintlocktime.c.
pub mod Locked
use mltk.Common.{
  ℕ, ◌+◌, Bool, true, false, not, ◌&&◌, ◌||◌, List, [], ◌∷◌, ◌++◌, Option, none, some,
  if◌then◌else◌, ltb, leb, ◌==◌, show_ℕ, get_or, length,
}

-- A child of the root window, with what `XGetWindowProperty` gives for the version of a screen
-- saver: whether the window is gone, whether the call succeeds, whether the property has a type,
-- and its text, `none` for NULL.
pub record Kid : Type 0 where
  pub window : ℕ
  pub got_badwindow : Bool
  pub success : Bool
  pub typed : Bool
  pub version : Option (List ℕ)

pub record Tree : Type 0 where
  pub root : ℕ
  pub root2 : ℕ
  pub parent : ℕ
  pub kids : List Kid

abbrev pub has_version : Kid → Bool
has_version k = not k.got_badwindow && k.success && k.typed

-- The loop: the first window with the property.
unfoldable pub first_with_version : List Kid → Option Kid
first_with_version [] = none
first_with_version (k ∷ ks) =
    let more = first_with_version ks in if has_version k then some k else more

pub data Found : Type 0 where
  aborted missing : Found
  found : Kid → Found

abbrev pub to_found : Option Kid → Found
to_found none = missing
to_found (some k) = found k

-- `none` if the tree cannot be queried.
unfoldable pub find_screensaver_window : Option Tree → Found
unfolding first_with_version
find_screensaver_window none = aborted
find_screensaver_window (some t) =
    if not (t.root == t.root2)
    then aborted
    else if not (t.parent == 0)
    then aborted
    else to_found (first_with_version t.kids)

-- The status property of the root window, if there is one with a type: whether it is XA_INTEGER, and
-- its items.
pub record Status : Type 0 where
  pub integer : Bool
  pub items : List ℕ

pub record Display : Type 0 where
  pub opens : Bool
  pub tree : Option Tree
  pub has_class : Bool
  pub status : Option Status
  pub xa_lock : ℕ

-- The exit code and the text on stdout, or the end by `abort`.
pub data Run : Type 0 where
  exit : ℕ → List ℕ → Run
  abort : Run

-- The tests on the items: the state, and the time since when it lasts.
unfoldable pub print_time : ℕ → List ℕ → Run
print_time xa_lock items =
    let blanked = get_or items 0 0 in
    let time = get_or items 1 0 in
    if leb time 666000000
    then exit 1 []
    else if blanked == xa_lock
    then exit 0 (show_ℕ time ++ b'\n' ∷ [])
    else exit 1 []

unfoldable pub check_status : ℕ → Option Status → Run
unfolding print_time
check_status xa_lock none = exit 1 []
check_status xa_lock (some s) =
    if not s.integer || ltb (length s.items) 3
    then exit 1 (b'\n' ∷ [])
    else print_time xa_lock s.items

abbrev pub no_text : Option (List ℕ) → Bool
no_text none = true
no_text (some []) = true
no_text (some (c ∷ cs)) = false

unfoldable pub check_window : Display → Found → Run
unfolding check_status
check_window d aborted = abort
check_window d missing = exit 1 []
check_window d (found k) =
    if no_text k.version
    then exit 1 []
    else if not d.has_class
    then exit 1 []
    else check_status d.xa_lock d.status

unfoldable pub main : Display → Run
unfolding find_screensaver_window check_window
main d = if d.opens then check_window d (find_screensaver_window d.tree) else exit 1 []
