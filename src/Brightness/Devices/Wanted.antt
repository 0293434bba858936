-- ===== src/Brightness/Devices/Wanted.antt =====
-- The devices that `open_events` of core/modules/slx-brightness/src/main.c wants.
use mltk.Common.{
  ℕ, ◌≡◌, ◌≢◌, ◌⊎◌, inl, inr, refl, sym, ◌∙◌, ap, Bool, true, false, ◌&&◌, List, none, some, arith,
  codes, eqb_list→eq, eqb_list_refl,
}
use mltk.Brightness.Devices.{Slot, absent, denied, device, wanted}

-- A device that can be opened, has a name and is taken, and all are asked for or the name is that
-- of the video bus.
abbrev pub IsWanted : Bool → Slot → Type 0
IsWanted all s =
    (name : List ℕ) × (s ≡ device (some name) true) × ((all ≡ true) ⊎ (name ≡ codes "Video Bus"))

pub wanted-IsWanted : (all : Bool) (s : Slot) → wanted all s ≡ true → IsWanted all s
unfolding wanted
wanted-IsWanted all absent h = cc
wanted-IsWanted all denied h = cc
wanted-IsWanted all (device none adds) h = cc
wanted-IsWanted all (device (some name) false) h = absurd (refused _ h)
  where
    refused : (b : Bool) → (b && false) ≡ true → ⊥
    refused b h = ground arith
wanted-IsWanted true (device (some name) true) h = (name, refl, inl refl)
wanted-IsWanted false (device (some name) true) h =
    (name, refl, inr (sym (eqb_list→eq (codes "Video Bus") name (named _ h))))
  where
    named : (b : Bool) → (b && true) ≡ true → b ≡ true
    named b h = ground arith

pub IsWanted-wanted : (all : Bool) (s : Slot) → IsWanted all s → wanted all s ≡ true
unfolding wanted
IsWanted-wanted true s w = ap (wanted true) w.1
IsWanted-wanted false s w = elim w.2 [
  | inl no_flag ↦ cc
  | inr named ↦
      ap (wanted false) (w.1 ∙ ap (λ n. device (some n) true) named)
      ∙ ap (λ b. b && true) (eqb_list_refl (codes "Video Bus"))
]

pub not-absent : (all : Bool) (s : Slot) → IsWanted all s → s ≢ absent
not-absent all s w e = differs (sym w.1 ∙ e)
  where
    differs : device (some w.0) true ≢ absent
    differs e = cc

pub not-denied : (all : Bool) (s : Slot) → IsWanted all s → s ≢ denied
not-denied all s w e = differs (sym w.1 ∙ e)
  where
    differs : device (some w.0) true ≢ denied
    differs e = cc
