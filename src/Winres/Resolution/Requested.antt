-- ===== src/Winres/Resolution/Requested.antt =====
-- `setResWinMulti` asks for a layout that `isResolutionFine` accepts.
use mltk.Common.{
  ℕ, ◌+◌, ◌≡◌, refl, ap, ◌∙◌, arith, Bool, true, false, not, ◌&&◌, ◌||◌, List, [], ◌∷◌,
  if◌then◌else◌, All, pos, negsuc, eqb_ℤ, if_true, ◌==◌,
}
use mltk.Winres.Resolution.{Code, done, not_supported, again, Resolution}
use mltk.Winres.Resolution.Parse.{IsLarge}
use mltk.Winres.Resolution.Layout.{Display, slots, is_active, displays, is_resolution_fine}
use mltk.Winres.Resolution.Fine.{count, IsApart, shown, screen_of, is_resolution_fine_iff}
use mltk.Winres.Resolution.Methods.{
  Device, Plan, push_display, plan_devices, no_more, set_res_win_multi,
}

no_more_empty : (rs : List Resolution) → no_more rs ≡ done → rs ≡ []
no_more_empty [] h = refl
no_more_empty (r ∷ rs) h = cc

-- What a plan shows, if it leaves nothing over.
abbrev Shows : ℕ → List Resolution → Plan → Type 0
Shows sx rs p = (shown p.wanted ≡ slots sx rs) × All IsApart p.wanted

wide : (r : Resolution) → IsLarge r → (true && not (r.w == 0)) ≡ true
wide r ok = ground arith

apart : (sx : ℕ) (b : Bool) → (b && eqb_ℤ (pos sx) (negsuc 0)) ≡ false
apart sx b = ground arith

used-Shows :
    (sx : ℕ) (r : Resolution) (rs : List Resolution) (accepts : Bool) (p : Plan)
    → IsLarge r
    → Shows (sx + r.w) rs p
    → Shows sx (r ∷ rs) (
        push_display
          (record { queried = true; left = pos sx; width = r.w; height = r.h })
          accepts
          p)
unfolding slots
used-Shows sx r rs accepts p ok h =
    let d : Display = record { queried = true; left = pos sx; width = r.w; height = r.h } in
    (
      if_true (screen_of d ∷ shown p.wanted) (shown p.wanted) (is_active d) (wide r ok)
          ∙ ap (◌∷◌ (screen_of d)) h.0,
      (apart sx (is_active d), h.1),
    )

-- Either way, what is left over decides.
Covers : ℕ → List Resolution → Plan → Type 0
Covers sx rs p = p.left_over ≡ [] → Shows sx rs p

if-Covers :
    (sx : ℕ) (rs : List Resolution) (b : Bool) (x y : Plan)
    → Covers sx rs x
    → Covers sx rs y
    → Covers sx rs (if b then x else y)
if-Covers sx rs true x y h k = h
if-Covers sx rs false x y h k = k

plan_devices-Covers :
    (sx : ℕ) (rs : List Resolution) (ds : List Device)
    → All IsLarge rs
    → Covers sx rs (plan_devices sx rs ds)
unfolding plan_devices slots Covers
plan_devices-Covers sx [] [] ok = λ h. (refl, tt)
plan_devices-Covers sx (r ∷ rs) [] ok = λ h. cc
plan_devices-Covers sx [] (d ∷ ds) ok =
    let rest : Plan = plan_devices sx [] ds in
    if-Covers sx [] (d.has_current || d.has_first)
      (push_display (record { queried = true; left = d.left; width = 0; height = 0 }) d.accepts
        rest)
      (push_display (record { queried = false; left = d.left; width = 0; height = 0 }) true rest)
      (λ h. let ih = plan_devices-Covers sx [] ds ok h in (ih.0, (refl, ih.1)))
      (λ h. let ih = plan_devices-Covers sx [] ds ok h in (ih.0, (refl, ih.1)))
plan_devices-Covers sx (r ∷ rs) (d ∷ ds) ok =
    let used : Plan = plan_devices (sx + r.w) rs ds in
    let skipped : Plan = plan_devices sx (r ∷ rs) ds in
    if-Covers sx (r ∷ rs) (d.has_current || d.has_first)
      (push_display (record { queried = true; left = pos sx; width = r.w; height = r.h }) d.accepts
        used)
      (push_display (record { queried = false; left = d.left; width = 0; height = 0 }) true skipped)
      (λ h. used-Shows sx r rs d.accepts used ok.0 (plan_devices-Covers (sx + r.w) rs ds ok.1 h))
      (λ h. let ih = plan_devices-Covers sx (r ∷ rs) ds ok h in (ih.0, (refl, ih.1)))

plan-is_resolution_fine :
    (ds : List Device) (rs : List Resolution)
    → All IsLarge rs
    → (plan_devices 0 rs ds).left_over ≡ []
    → is_resolution_fine (displays (plan_devices 0 rs ds).wanted) rs ≡ done
unfolding Covers
plan-is_resolution_fine ds rs ok h =
    let p : Plan = plan_devices 0 rs ds in
    let shows = plan_devices-Covers 0 rs ds ok h in
    (is_resolution_fine_iff p.wanted rs shows.1).1 (λ a. ap (count a) shows.0)

-- If setResWinMulti succeeds with resolutions of at least 320 to 240, and the displays are afterwards
-- as it has asked for, then the layout is fine.
pub set_res_win_multi-is_resolution_fine :
    (has_functions applied : Bool) (ds : List Device) (rs : List Resolution)
    → All IsLarge rs
    → (set_res_win_multi has_functions ds applied rs).0 ≡ done
    → is_resolution_fine (displays (set_res_win_multi has_functions ds applied rs).1) rs ≡ done
unfolding set_res_win_multi
set_res_win_multi-is_resolution_fine f a ds rs ok = go f (a && (plan_devices 0 rs ds).accepted)
  where
    p : Plan
    p = plan_devices 0 rs ds

    go :
        (f b : Bool)
        → let r : Code × List Display =
            if not f
            then (not_supported, [])
            else if not b
            then (again, p.wanted)
            else (no_more p.left_over, p.wanted) in
          r.0 ≡ done → is_resolution_fine (displays r.1) rs ≡ done
    go false b h = cc
    go true false h = cc
    go true true h = plan-is_resolution_fine ds rs ok (no_more_empty p.left_over h)
