-- ===== src/Winres/Resolution/Layout.antt =====
-- `isResolutionFine` of core/modules/run-virt/winres/src/winres.c.
use mltk.Common.{
  ℕ, ◌+◌, Bool, true, not, ◌&&◌, List, [], ◌∷◌, Option, none, some, if◌then◌else◌, ◌==◌, ℤ, pos,
  negsuc, eqb_ℤ,
}
use mltk.Winres.Resolution.{Code, done, not_supported, again, Resolution}

-- A display of Windows: whether its mode can be queried, its left edge, and its size.
pub record Display : Type 0 where
  pub queried : Bool
  pub left : ℤ
  pub width : ℕ
  pub height : ℕ

-- A screen that is expected. The offset -1 marks one that has been found.
pub record Slot : Type 0 where
  pub offset : ℤ
  pub width : ℕ
  pub height : ℕ

-- Each screen stands to the right of the one before.
unfoldable pub slots : ℕ → List Resolution → List Slot
slots sx [] = []
slots sx (r ∷ rs) = record { offset = pos sx; width = r.w; height = r.h } ∷ slots (sx + r.w) rs

abbrev pub is_active : Display → Bool
is_active d = d.queried && not (d.width == 0)

abbrev pub is_slot_of : Display → Slot → Bool
is_slot_of d s = eqb_ℤ s.offset d.left && (s.width == d.width && s.height == d.height)

abbrev pub mark_found : Slot → Slot
mark_found s = record s { offset = negsuc 0 }

abbrev pub push_slot : Slot → Option (List Slot) → Option (List Slot)
push_slot s none = none
push_slot s (some ss) = some (s ∷ ss)

-- The first slot that fits is marked.
unfoldable pub mark_slot : Display → List Slot → Option (List Slot)
mark_slot d [] = none
mark_slot d (s ∷ ss) =
    let rest = push_slot s (mark_slot d ss) in
    if is_slot_of d s then some (mark_found s ∷ ss) else rest

unfoldable pub all_found : List Slot → Bool
all_found [] = true
all_found (s ∷ ss) = eqb_ℤ s.offset (negsuc 0) && all_found ss

abbrev pub with_marked : (List Slot → Code) → Option (List Slot) → Code
with_marked check none = again
with_marked check (some ss) = check ss

-- The loop over the displays, and the check at the end.
unfoldable pub check_displays : List Display → List Slot → Code
unfolding mark_slot all_found
check_displays [] ss = if all_found ss then done else again
check_displays (d ∷ ds) ss =
    let unchanged = check_displays ds ss in
    let marked = with_marked (check_displays ds) (mark_slot d ss) in
    if is_active d then marked else unchanged

-- An old Windows has one screen only, whose size may be unknown.
abbrev pub check_single : Option Resolution → List Resolution → Code
check_single none rs = not_supported
check_single (some mode) [] = again
check_single (some mode) (r ∷ rs) = if r.w == mode.w && r.h == mode.h then done else again

-- With the displays, or on an old Windows the size of the one screen.
pub data Screens : Type 0 where
  displays : List Display → Screens
  single : Option Resolution → Screens

unfoldable pub is_resolution_fine : Screens → List Resolution → Code
unfolding check_displays slots
is_resolution_fine (displays ds) rs = check_displays ds (slots 0 rs)
is_resolution_fine (single mode) rs = check_single mode rs
