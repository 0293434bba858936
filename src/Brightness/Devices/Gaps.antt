-- ===== src/Brightness/Devices/Gaps.antt =====
-- Which devices are listened to, and that the search ends.
use mltk.Common.{
  ℕ, zero, suc, ◌+◌, ◌≤◌, ◌<◌, ◌≡◌, refl, sym, subst, Bool, true, false, List, [], ◌∷◌, Option,
  none, some, ltb, arith, Bool-cases, ltb→lt, if_true, if_false, ◌≢◌, ◌↔◌, ◌∙◌, ap, inl, inr,
}
use mathlib.Core.List.{Memᴰ}
use mathlib.Core.List.Memᴰ
use native.Mathlib.Decide.{dec_lt}
use mltk.Brightness.Devices.Reached.{IsReached, At, gap-At, device-At, end-unreached, first-At}
use mltk.Brightness.Devices.Wanted.{
  IsWanted, wanted-IsWanted, IsWanted-wanted, not-absent, not-denied,
}
use mltk.Brightness.Devices.{
  Slot, absent, denied, device, wanted, cons_if, at_slot, open_loop, open_events,
}

-- The search has ended, and the devices found are those that are reached and wanted.
pub HasWanted : Bool → (ℕ → Slot) → Option (List ℕ) → Type 0
HasWanted all slots o =
    (ids : List ℕ) × (o ≡ some ids)
    × ((n : ℕ) → Memᴰ n ids ↔ (IsReached slots n × IsWanted all (slots n)))

module _ (all : Bool) (slots : ℕ → Slot) where
  -- The same of the rest of the search, from a number on.
  Finds : ℕ → Option (List ℕ) → Type 0
  Finds id o =
      (ids : List ℕ) × (o ≡ some ids)
      × ((n : ℕ) → Memᴰ n ids ↔ ((id ≤ n) × IsReached slots n × IsWanted all (slots n)))

  -- A number that is passed over.
  skip-Finds :
      (id : ℕ) (o : Option (List ℕ)) → ¬ IsWanted all (slots id) → Finds (id + 1) o → Finds id o
  unfolding Finds
  skip-Finds id o refused f = (
    f.0,
    f.1,
    λ n. (
      λ m. let h = (f.2 n).0 m in (omega (arith, h.0), h.1, h.2),
      λ h. elim (dec_lt id n) [
        | yes lt ↦ (f.2 n).1 (omega arith, h.1, h.2)
        | no ge ↦
            let same : n ≡ id = omega (arith, h.0) in
            absurd (refused (subst (λ m. IsWanted all (slots m)) same h.2))
      ],
    ),
  )

  -- A number that is added.
  add-Finds :
      (id : ℕ) (next : Option (List ℕ))
      → IsReached slots id
      → IsWanted all (slots id)
      → Finds (id + 1) next
      → Finds id (cons_if true id next)
  unfolding Finds
  add-Finds id next reached w f = (
    id ∷ f.0,
    ap (cons_if true id) f.1,
    λ n. (
      λ m. elim (Memᴰ.cases_cons m) [
        | inl e ↦ (
          omega arith,
          subst (IsReached slots) (sym e) reached,
          subst (λ k. IsWanted all (slots k)) (sym e) w,
        )
        | inr later ↦ let h = (f.2 n).0 later in (omega (arith, h.0), h.1, h.2)
      ],
      λ h. elim (dec_lt id n) [
        | yes lt ↦ Memᴰ.tail ((f.2 n).1 (omega arith, h.1, h.2))
        | no ge ↦ Memᴰ.head (omega (arith, h.0))
      ],
    ),
  )

  -- The search ends here, because what comes is not wanted, or not reached.
  end-Finds :
      (id : ℕ)
      → ¬ IsWanted all (slots id)
      → ((n : ℕ) → id < n → IsReached slots n → ⊥)
      → Finds id (some [])
  unfolding Finds
  end-Finds id refused over = (
    [],
    refl,
    λ n. (
      λ m. absurd (Memᴰ.not-nil m),
      λ h. elim (dec_lt id n) [
        | yes lt ↦ absurd (over n lt h.1)
        | no ge ↦
            let same : n ≡ id = omega (arith, h.0) in
            absurd (refused (subst (λ m. IsWanted all (slots m)) same h.2))
      ],
    ),
  )

  device-Finds :
      (id : ℕ) (next : Option (List ℕ))
      → IsReached slots id
      → Finds (id + 1) next
      → Finds id (cons_if (wanted all (slots id)) id next)
  device-Finds id next reached f = elim (Bool-cases (wanted all (slots id))) [
    | inl yes_wanted ↦
        subst (λ b. Finds id (cons_if b id next)) (sym yes_wanted)
          (add-Finds id next reached (wanted-IsWanted all (slots id) yes_wanted) f)
    | inr not_wanted ↦
        subst (λ b. Finds id (cons_if b id next)) (sym not_wanted)
          (skip-Finds id (cons_if false id next)
            (λ w. differs (sym (IsWanted-wanted all (slots id) w) ∙ not_wanted)) (same next f))
  ]
    where
      differs : true ≢ false
      differs e = cc

      same : (next : Option (List ℕ)) → Finds (id + 1) next → Finds (id + 1) (cons_if false id next)
      same none f = f
      same (some ids) f = f

  at_slot-Finds :
      (id fails : ℕ) (s : Slot) (gap next : Option (List ℕ))
      → slots id ≡ s
      → fails < 10
      → At slots id fails
      → (fails + 1 < 10 → At slots (id + 1) (fails + 1) → Finds (id + 1) gap)
      → (s ≢ absent → At slots (id + 1) 0 → Finds (id + 1) next)
      → Finds id (at_slot all id fails s gap next)
  unfolding at_slot
  at_slot-Finds id fails absent gap next is few a g n = elim (Bool-cases (ltb (fails + 1) 10)) [
    | inl more ↦
        let lt : fails + 1 < 10 = ltb→lt (fails + 1) 10 more in
        subst (λ o. Finds id o) (sym (if_true gap (some []) (ltb (fails + 1) 10) more))
          (skip-Finds id gap refused (g lt (gap-At slots id fails is lt a)))
    | inr enough ↦
        let nine : fails ≡ 9 = ground arith in
        subst (λ o. Finds id o) (sym (if_false gap (some []) (ltb (fails + 1) 10) enough))
          (end-Finds id refused (λ m after r. end-unreached slots id fails m is nine a after r))
  ]
    where
      refused : ¬ IsWanted all (slots id)
      refused w = not-absent all (slots id) w is
  at_slot-Finds id fails denied gap next is few a g n =
      end-Finds id (λ w. not-denied all (slots id) w is) (λ m after r. r.0 id after is)
  at_slot-Finds id fails (device name adds) gap next is few a g n =
      subst (λ s. Finds id (cons_if (wanted all s) id next)) is
        (device-Finds id next a.0 (
          n there (device-At slots id fails (λ e. there (sym is ∙ e)) (λ e. opens (sym is ∙ e)) a)))
    where
      there : device name adds ≢ absent
      there e = cc

      opens : device name adds ≢ denied
      opens e = cc

  module _ (bound : ℕ) (end : (id : ℕ) → bound ≤ id → slots id ≡ absent) where
    open_loop-Finds :
        (fuel id fails : ℕ)
        → fails < 10
        → id ≤ bound + fails
        → bound + 10 ≤ fuel + id
        → At slots id fails
        → Finds id (open_loop fuel all slots id fails)
    unfolding open_loop
    open_loop-Finds zero id fails few near enough a = absurd (omega arith)
    open_loop-Finds (suc fuel) id fails few near enough a =
        at_slot-Finds id fails (slots id) _ _ refl few a
          (λ more a'. open_loop-Finds fuel (id + 1) (fails + 1) more (omega arith) (omega arith) a')
          (λ there a'. open_loop-Finds fuel (id + 1) 0 (omega arith) (below there) (omega arith) a')
      where
        below : slots id ≢ absent → id + 1 ≤ bound + 0
        below there = elim (dec_lt id bound) [
          | yes lt ↦ omega arith
          | no ge ↦ absurd (there (end id (omega arith)))
        ]

-- If there are no devices from some number on, the search ends, with fuel for the numbers below it
-- and ten more. It adds exactly the devices that can be opened and taken into the set, whose name is
-- Video Bus, or any if all are asked for, and before which no device refuses to be opened and no ten
-- numbers in a row have none.
pub open_events-HasWanted :
    (fuel bound : ℕ) (all : Bool) (slots : ℕ → Slot)
    → ((id : ℕ) → bound ≤ id → slots id ≡ absent)
    → bound + 10 ≤ fuel
    → HasWanted all slots (open_events fuel all slots)
unfolding open_events Finds HasWanted
open_events-HasWanted fuel bound all slots end enough =
    let f =
      open_loop-Finds all slots bound end fuel 0 0 (omega arith) (omega arith) (omega arith)
        (first-At slots) in
    (
      f.0,
      f.1,
      λ n. (λ m. let h = (f.2 n).0 m in (h.1, h.2), λ h. (f.2 n).1 (omega arith, h.0, h.1)),
    )
