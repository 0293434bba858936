-- ===== src/Winres/Resolution/Fine.antt =====
-- `isResolutionFine` accepts exactly the layouts that consist of the expected screens.
use mltk.Common.{
  ℕ, ◌+◌, ◌<◌, ◌≡◌, ◌↔◌, inl, inr, refl, sym, ap, ◌∙◌, subst, Bool, true, false, ◌&&◌, List, [],
  ◌∷◌, Option, none, some, if◌then◌else◌, arith, ◌==◌, All, ℤ, pos, negsuc, eqb_ℤ, Bool-cases,
  if_false,
}
use mltk.Winres.Resolution.{done, again, Resolution}
use mltk.Winres.Resolution.Layout.{
  Display, Slot, slots, is_active, is_slot_of, push_slot, mark_slot, all_found, with_marked,
  check_displays, displays, is_resolution_fine,
}

abbrev pub eqb_slot : Slot → Slot → Bool
eqb_slot s t = eqb_ℤ s.offset t.offset && (s.width == t.width && s.height == t.height)

abbrev pub one_if : Bool → ℕ
one_if true = 1
one_if false = 0

-- How often a screen stands in a list.
abbrev pub count : Slot → List Slot → ℕ
count a [] = 0
count a (s ∷ ss) = one_if (eqb_slot s a) + count a ss

-- The same screens, in any order.
abbrev pub SameScreens : List Slot → List Slot → Type 0
SameScreens xs ys = (a : Slot) → count a xs ≡ count a ys

abbrev pub screen_of : Display → Slot
screen_of d = record { offset = d.left; width = d.width; height = d.height }

-- The screens that are active.
abbrev pub shown : List Display → List Slot
shown [] = []
shown (d ∷ ds) = if is_active d then screen_of d ∷ shown ds else shown ds

-- The slots that are not marked.
abbrev unfound : List Slot → List Slot
unfound [] = []
unfound (s ∷ ss) = if eqb_ℤ s.offset (negsuc 0) then unfound ss else s ∷ unfound ss

eqb_ℤ→eq : (a b : ℤ) → eqb_ℤ a b ≡ true → a ≡ b
eqb_ℤ→eq a b h = ground arith

==→eq : (a b : ℕ) → (a == b) ≡ true → a ≡ b
==→eq a b h = ground arith

and_parts : (a b : Bool) → (a && b) ≡ true → (a ≡ true) × (b ≡ true)
and_parts a b h = ground arith

eqb_slot→eq : (s t : Slot) → eqb_slot s t ≡ true → s ≡ t
eqb_slot→eq s t h =
    let left = and_parts (eqb_ℤ s.offset t.offset) (s.width == t.width && s.height == t.height) h in
    let size = and_parts (s.width == t.width) (s.height == t.height) left.1 in
    λ i. record {
      offset = eqb_ℤ→eq s.offset t.offset left.0 i;
      width = ==→eq s.width t.width size.0 i;
      height = ==→eq s.height t.height size.1 i;
    }

eqb_slot_refl : (s : Slot) → eqb_slot s s ≡ true
eqb_slot_refl s = ground arith

-- What marking a slot takes away.
abbrev Takes : Slot → List Slot → Option (List Slot) → Type 0
Takes k ss none = count k (unfound ss) ≡ 0
Takes k ss (some ss') =
    (a : Slot) → count a (unfound ss) ≡ one_if (eqb_slot k a) + count a (unfound ss')

push_slot-Takes :
    (d : Display) (s : Slot) (ss : List Slot) (m : Option (List Slot))
    → is_slot_of d s ≡ false
    → Takes (screen_of d) ss m
    → Takes (screen_of d) (s ∷ ss) (push_slot s m)
push_slot-Takes d s ss none other h = elim (Bool-cases (eqb_ℤ s.offset (negsuc 0))) [
  | inl marked ↦ rw marked h
  | inr waits ↦ rw waits (rw other (omega (arith, h)))
]
push_slot-Takes d s ss (some ss') other h = elim (Bool-cases (eqb_ℤ s.offset (negsuc 0))) [
  | inl marked ↦ rw marked h
  | inr waits ↦ rw waits (λ a. omega (arith, h a))
]

mark_slot-Takes :
    (d : Display) (ss : List Slot)
    → eqb_ℤ d.left (negsuc 0) ≡ false
    → Takes (screen_of d) ss (mark_slot d ss)
unfolding mark_slot
mark_slot-Takes d [] apart = refl
mark_slot-Takes d (s ∷ ss) apart = elim (Bool-cases (is_slot_of d s)) [
  | inl fits ↦
      let same : s ≡ screen_of d = eqb_slot→eq s (screen_of d) fits in
      let open_slot : eqb_ℤ s.offset (negsuc 0) ≡ false =
        ap (λ (t : Slot). eqb_ℤ t.offset (negsuc 0)) same ∙ apart in
      rw fits
        (rw open_slot (λ a. ap (λ (t : Slot). one_if (eqb_slot t a) + count a (unfound ss)) same))
  | inr other ↦
      rw other (push_slot-Takes d s ss (mark_slot d ss) other (mark_slot-Takes d ss apart))
]

-- With every slot marked, none is left.
all_found-unfound : (ss : List Slot) → all_found ss ≡ true → (a : Slot) → count a (unfound ss) ≡ 0
unfolding all_found
all_found-unfound [] h a = refl
all_found-unfound (s ∷ ss) h a =
    let parts = and_parts (eqb_ℤ s.offset (negsuc 0)) (all_found ss) h in
    rw parts.0 (all_found-unfound ss parts.1 a)

not_all_found : (ss : List Slot) → all_found ss ≡ false → (a : Slot) × (0 < count a (unfound ss))
unfolding all_found
not_all_found [] h = cc
not_all_found (s ∷ ss) h = elim (Bool-cases (eqb_ℤ s.offset (negsuc 0))) [
  | inl marked ↦ rw marked (not_all_found ss (rw marked at h))
  | inr waits ↦ rw waits (s, rw (eqb_slot_refl s) (omega arith))
]

-- A display that is not active, or whose left edge is not the one that marks a slot.
abbrev pub IsApart : Display → Type 0
IsApart d = (is_active d && eqb_ℤ d.left (negsuc 0)) ≡ false

check_end :
    (ss : List Slot) → ((if all_found ss then done else again) ≡ done) ↔ SameScreens [] (unfound ss)
check_end ss = elim (Bool-cases (all_found ss)) [
  | inl all ↦ (λ h a. sym (all_found-unfound ss all a), λ h. rw all refl)
  | inr some_left ↦
      let left = not_all_found ss some_left in
      (
        λ h. absurd (again_not_done (sym (if_false done again (all_found ss) some_left) ∙ h)),
        λ same. absurd (omega (arith, same left.0, left.1)),
      )
]
  where
    again_not_done : again ≡ done → ⊥
    again_not_done h = cc

with_marked_iff :
    (d : Display) (ds : List Display) (ss : List Slot) (m : Option (List Slot))
    → Takes (screen_of d) ss m
    → ((ss' : List Slot) → (check_displays ds ss' ≡ done) ↔ SameScreens (shown ds) (unfound ss'))
    → (with_marked (check_displays ds) m ≡ done) ↔ SameScreens (screen_of d ∷ shown ds) (unfound ss)
with_marked_iff d ds ss none taken rest = (
  λ h. absurd (again_not_done h),
  λ same. absurd (omega (arith, same (screen_of d), taken, self)),
)
  where
    again_not_done : again ≡ done → ⊥
    again_not_done h = cc

    self : one_if (eqb_slot (screen_of d) (screen_of d)) ≡ 1
    self = rw (eqb_slot_refl (screen_of d)) refl
with_marked_iff d ds ss (some ss') taken rest = (
  λ h a. omega (arith, (rest ss').0 h a, taken a),
  λ same. (rest ss').1 (λ a. omega (arith, same a, taken a)),
)

check_displays_iff :
    (ds : List Display) (ss : List Slot)
    → All IsApart ds
    → (check_displays ds ss ≡ done) ↔ SameScreens (shown ds) (unfound ss)
unfolding check_displays
check_displays_iff [] ss apart = check_end ss
check_displays_iff (d ∷ ds) ss apart = elim (Bool-cases (is_active d)) [
  | inr asleep ↦ rw asleep (check_displays_iff ds ss apart.1)
  | inl active ↦ rw active (
      with_marked_iff d ds ss (mark_slot d ss)
        (mark_slot-Takes d ss (sym (ap (λ b. b && eqb_ℤ d.left (negsuc 0)) active) ∙ apart.0))
        (λ ss'. check_displays_iff ds ss' apart.1))
]

slots-unfound : (sx : ℕ) (rs : List Resolution) → unfound (slots sx rs) ≡ slots sx rs
unfolding slots
slots-unfound sx [] = refl
slots-unfound sx (r ∷ rs) =
    let s : Slot = record { offset = pos sx; width = r.w; height = r.h } in
    let real : eqb_ℤ (pos sx) (negsuc 0) ≡ false = ground arith in
    if_false (unfound (slots (sx + r.w) rs)) (s ∷ unfound (slots (sx + r.w) rs))
      (eqb_ℤ (pos sx) (negsuc 0)) real
    ∙ ap (◌∷◌ s) (slots-unfound (sx + r.w) rs)

-- On a Windows that knows of several screens, if no active one has its left edge at -1, the layout is fine
-- exactly if the active screens are the expected ones, side by side from 0 on, in any order.
pub is_resolution_fine_iff :
    (ds : List Display) (rs : List Resolution)
    → All IsApart ds
    → (is_resolution_fine (displays ds) rs ≡ done) ↔ SameScreens (shown ds) (slots 0 rs)
unfolding is_resolution_fine
is_resolution_fine_iff ds rs apart =
    subst (λ ss. (check_displays ds (slots 0 rs) ≡ done) ↔ SameScreens (shown ds) ss)
      (slots-unfound 0 rs) (check_displays_iff ds (slots 0 rs) apart)
