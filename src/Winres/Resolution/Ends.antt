-- ===== src/Winres/Resolution/Ends.antt =====
-- The timer for the resolution stops.
use mltk.Common.{
  ℕ, suc, ◌+◌, ◌≤◌, ◌≡◌, ◌⊎◌, inl, inr, refl, sym, ap, subst, arith, Bool, true, false, not, ◌||◌,
  List, [], ◌∷◌, if◌then◌else◌, ltb, length, Bool-cases, if_true, if_false,
}
use mltk.Winres.Resolution.{Code, done, not_supported, again, Resolution, parse_resolutions}
use mltk.Winres.Resolution.Layout.{is_resolution_fine}
use mltk.Winres.Resolution.Methods.{set_res_modern}
use mltk.Winres.Resolution.Timer.{
  Config, unread, invalid, known, Resizer, Windows, after_check, with_known, with_config,
  after_modern, is_invalid, set_resolution, Timer, is_done, tmr_resolution, ticks,
}

-- Done, or the call is counted.
abbrev Counts : ℕ → Code × Resizer → Type 0
Counts count r = (is_done r.0 ≡ true) ⊎ (r.1.call_count ≡ count)

after_check-Counts :
    (w : Windows) (count : ℕ) (rs : List Resolution) (s : Resizer) (check : Code)
    → Counts s.call_count (after_check w count rs s check)
after_check-Counts w count rs s done = inl refl
after_check-Counts w count rs s not_supported = inr refl
after_check-Counts w count rs s again = inr refl

with_known-Counts :
    (w : Windows) (count : ℕ) (s : Resizer) (rs : List Resolution)
    → Counts s.call_count (with_known w count s rs)
with_known-Counts w count s [] = inl refl
with_known-Counts w count s (r ∷ rs) =
    after_check-Counts w count (r ∷ rs) (record s { config = known (r ∷ rs) })
      (is_resolution_fine w.screens (r ∷ rs))

with_config-Counts :
    (w : Windows) (count : ℕ) (s : Resizer) (c : Config)
    → Counts s.call_count (with_config w count s c)
with_config-Counts w count s invalid = inl refl
with_config-Counts w count s unread =
    with_known-Counts w count s (parse_resolutions w.resolution2 w.resolution)
with_config-Counts w count s (known rs) =
    after_check-Counts w count rs s (is_resolution_fine w.screens rs)

after_modern-Counts :
    (w : Windows) (count : ℕ) (s : Resizer) (c : Code)
    → Counts s.call_count (after_modern w count s c)
after_modern-Counts w count s done = inl refl
after_modern-Counts w count s again = inr refl
after_modern-Counts w count s not_supported = with_config-Counts w count s s.config

-- A call is the last one, or one of the first eleven.
set_resolution-Counts :
    (prefer : Bool) (w : Windows) (s : Resizer)
    → (is_done (set_resolution prefer w s).0 ≡ true)
      ⊎ (((set_resolution prefer w s).1.call_count ≡ suc s.call_count) × (s.call_count ≤ 10))
unfolding set_resolution
set_resolution-Counts prefer w s = go (is_invalid s.config) (ltb 10 s.call_count) refl
  where
    modern : Code
    modern = if prefer then (set_res_modern w.paths).0 else not_supported

    go :
        (a b : Bool)
        → ltb 10 s.call_count ≡ b
        → let s' : Resizer = record s { call_count = suc s.call_count } in
          let r : Code × Resizer =
            if a || b then (done, s') else after_modern w s.call_count s' modern in
          (is_done r.0 ≡ true) ⊎ ((r.1.call_count ≡ suc s.call_count) × (s.call_count ≤ 10))
    go true b h = inl refl
    go false true h = inl refl
    go false false h =
        elim (after_modern-Counts w s.call_count (record s { call_count = suc s.call_count })
          modern) [ inl finished ↦ inl finished | inr counted ↦ inr (counted, ground arith) ]

-- The timer has stopped, or so many calls are counted.
abbrev Goes : ℕ → Timer → Type 0
Goes n t = (t.running ≡ false) ⊎ ((n ≤ t.resizer.call_count) × (t.resizer.call_count ≤ 11))

tick-Goes :
    (n : ℕ) (prefer : Bool) (w : Windows) (t : Timer)
    → (t.running ≡ false) ⊎ (n ≤ t.resizer.call_count)
    → Goes (suc n) (tmr_resolution prefer w t)
unfolding tmr_resolution
tick-Goes n prefer w t (inl stopped) =
    let r : Code × Resizer = set_resolution prefer w t.resizer in
    let next : Timer = record { running = not (is_done r.0); resizer = r.1 } in
    subst (Goes (suc n)) (sym (if_false next t t.running stopped)) (inl stopped)
tick-Goes n prefer w t (inr counted) =
    let r : Code × Resizer = set_resolution prefer w t.resizer in
    let next : Timer = record { running = not (is_done r.0); resizer = r.1 } in
    elim (Bool-cases t.running) [
      | inr stopped ↦ subst (Goes (suc n)) (sym (if_false next t t.running stopped)) (inl stopped)
      | inl runs ↦
          subst (Goes (suc n)) (sym (if_true next t t.running runs))
            (elim (set_resolution-Counts prefer w t.resizer) [
              | inl finished ↦ inl (ap not finished)
              | inr more ↦ inr (omega (arith, more), omega (arith, more))
            ])
    ]

Goes-counted : (n : ℕ) (t : Timer) → Goes n t → (t.running ≡ false) ⊎ (n ≤ t.resizer.call_count)
Goes-counted n t (inl stopped) = inl stopped
Goes-counted n t (inr (counted, below)) = inr counted

ticks_stop :
    (n : ℕ) (prefer : Bool) (ws : List Windows) (t : Timer)
    → Goes n t
    → 12 ≤ length ws + n
    → (ticks prefer ws t).running ≡ false
unfolding ticks
ticks_stop n prefer [] t (inl stopped) enough = stopped
ticks_stop n prefer [] t (inr (counted, below)) enough = absurd (omega arith)
ticks_stop n prefer (w ∷ ws) t g enough =
    ticks_stop (suc n) prefer ws (tmr_resolution prefer w t)
      (tick-Goes n prefer w t (Goes-counted n t g)) (omega arith)

-- Whatever the variables are and whatever Windows answers, with or without a preference for the
-- physical screens, the timer has stopped after twelve ticks at most.
pub ticks_end :
    (prefer : Bool) (ws : List Windows) (t : Timer)
    → 12 ≤ length ws
    → (ticks prefer ws t).running ≡ false
unfolding ticks
ticks_end prefer [] t enough = absurd (omega arith)
ticks_end prefer (w ∷ ws) t enough =
    ticks_stop 1 prefer ws (tmr_resolution prefer w t) (tick-Goes 0 prefer w t (inr (omega arith)))
      (omega arith)
