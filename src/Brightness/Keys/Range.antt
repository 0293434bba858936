-- ===== src/Brightness/Keys/Range.antt =====
-- The brightness stays within its bounds, and every press of a key moves it towards one of them.
use mltk.Common.{
  ℕ, ◌≤◌, ◌≡◌, refl, sym, ◌∙◌, ap, Bool, true, false, List, [], ◌∷◌, Option, none, some, ℤ, pos,
  ◌+ℤ◌, ◌-ℤ◌, ◌≤ℤ◌, ltb_ℤ, eqb_ℤ, ◌++◌, append-nil, if_some, pos_part, ltb, ◌/◌, subst, else_some,
  some_injective, not, ◌||◌, ◌==◌, ◌⊎◌, arith, if◌then◌else◌, atoi, show_ℤ, c_str,
}
use native.Mathlib.Nat.{div-le_self}
use mltk.Brightness.Files.Whole.{file_put_contents_prefix}
use mltk.Brightness.Files.{Read, Write, Got, file_get_contents, file_put_contents}
use mltk.Brightness.Keys.{
  InputEvent, Settings, new_value, new_text, is_ours, changed_text, write_text, handle_message,
  step_size, key_brightnessup,
}

new_value_range :
    (s : Settings) (up : Bool) (val : ℤ)
    → s.min_ ≤ℤ s.max_
    → (s.min_ ≤ℤ new_value s up val) × (new_value s up val ≤ℤ s.max_)
unfolding new_value
new_value_range s up val h = ground arith

-- A press moves a value within the bounds by the step towards the bound of its key, or to the
-- bound itself.
pub new_value_moves :
    (s : Settings) (val : ℤ) (k : ℕ)
    → s.step_ ≡ pos k
    → s.min_ ≤ℤ val
    → val ≤ℤ s.max_
    → ((new_value s true val ≡ val +ℤ pos k) ⊎ (new_value s true val ≡ s.max_))
      × ((new_value s false val ≡ val -ℤ pos k) ⊎ (new_value s false val ≡ s.min_))
unfolding new_value
new_value_moves s val k step lo hi = (ground arith, ground arith)

-- Whatever the file gives, if anything is to be written it is a number within the bounds.
new_text_range :
    (s : Settings) (up : Bool) (ret : ℤ) (text : Option (List ℕ)) (t : List ℕ)
    → s.min_ ≤ℤ s.max_
    → new_text s up ret text ≡ some t
    → (v : ℤ) × (show_ℤ v ≡ t) × (s.min_ ≤ℤ v) × (v ≤ℤ s.max_)
unfolding new_text changed_text
new_text_range s up ret none t h e = cc
new_text_range s up ret (some text) t h e =
    let val : ℤ = atoi (c_str text) in
    let newval : ℤ = new_value s up val in
    let changed = if_some (ltb_ℤ (pos 0) ret) (changed_text s up val) t e in
    let shown = else_some (eqb_ℤ val newval) (some (show_ℤ newval)) t changed.1 in
    let range = new_value_range s up val h in (newval, some_injective _ _ shown.1, range.0, range.1)

write_text_lem :
    (writes : Option (List Write)) (o : Option (List ℕ)) (content : List ℕ)
    → write_text writes o ≡ some content
    → (t : List ℕ) × (rest : List ℕ) × (o ≡ some t) × (t ≡ content ++ rest)
unfolding file_put_contents
write_text_lem writes none content e = cc
write_text_lem none (some t) content e = cc
write_text_lem (some writes) (some []) content e =
    ([], [], refl, some_injective _ _ e ∙ sym (append-nil content))
write_text_lem (some writes) (some (c ∷ cs)) content e =
    let r = file_put_contents_prefix writes c cs in
    (c ∷ cs, r.1, refl, r.4 ∙ ap (λ x. x ++ r.1) (some_injective _ _ (ap (λ q. q.1) (sym r.3) ∙ e)))

-- If the lower bound is not above the upper, what is written to the brightness file is a part,
-- from its start, of the text of a number within the bounds, and it is only written for a press
-- or a repetition of one of the two keys.
pub handle_message_range :
    (s : Settings) (ev : InputEvent) (reads : Option (List Read)) (writes : Option (List Write))
    (content : List ℕ)
    → s.min_ ≤ℤ s.max_
    → handle_message s ev reads writes ≡ some content
    → (is_ours ev ≡ true)
      × ((v : ℤ) × (rest : List ℕ) × (show_ℤ v ≡ content ++ rest) × (s.min_ ≤ℤ v) × (v ≤ℤ s.max_))
unfolding handle_message
handle_message_range s ev reads writes content h e =
    let got : Got = file_get_contents reads 100 in
    let up : Bool = ev.code_ == key_brightnessup in
    let ours =
      if_some (is_ours ev) (write_text writes (new_text s up got.ret got.text)) content e in
    let w = write_text_lem writes (new_text s up got.ret got.text) content ours.1 in
    let n = new_text_range s up got.ret got.text w.0 h w.2 in
    (ours.0, (n.0, w.1, n.1 ∙ w.3, n.2, n.3))

accepted :
    (lo hi steps : ℤ)
    → (not (ltb_ℤ lo hi) || ltb_ℤ steps (pos 1)) ≡ false
    → (¬ (hi ≤ℤ lo)) × (pos 1 ≤ℤ steps)
accepted lo hi steps h = ground arith

step_fits :
    (lo hi : ℤ) (step : ℕ)
    → ¬ (hi ≤ℤ lo)
    → step ≤ pos_part (hi -ℤ lo)
    → lo +ℤ pos (if ltb step 1 then 1 else step) ≤ℤ hi
step_fits lo hi step proper le = ground arith

-- If bounds and a number of steps are accepted, the upper bound is above the lower, and the step is
-- at least one and does not lead from the lower bound over the upper.
pub step_size_lem :
    (lo hi steps : ℤ) (s : Settings)
    → step_size lo hi steps ≡ some s
    → (s.min_ ≡ lo) × (s.max_ ≡ hi) × (¬ (hi ≤ℤ lo)) × (pos 1 ≤ℤ s.step_) × (lo +ℤ s.step_ ≤ℤ hi)
unfolding step_size
step_size_lem lo hi steps s h =
    let step : ℕ = pos_part (hi -ℤ lo) / pos_part steps in
    let made : Settings = record {
      min_ = lo;
      max_ = hi;
      step_ = pos (if ltb step 1 then 1 else step);
    } in
    let r = else_some (not (ltb_ℤ lo hi) || ltb_ℤ steps (pos 1)) (some made) s h in
    let ok = accepted lo hi steps r.0 in
    subst
      (λ x.
        (x.min_ ≡ lo) × (x.max_ ≡ hi) × (¬ (hi ≤ℤ lo)) × (pos 1 ≤ℤ x.step_) × (lo +ℤ x.step_ ≤ℤ hi))
      (some_injective made s r.1)
      (
        refl,
        refl,
        ok.0,
        at_least_one step,
        step_fits lo hi step ok.0 (div-le_self (pos_part (hi -ℤ lo)) (pos_part steps)),
      )
  where
    at_least_one : (step : ℕ) → pos 1 ≤ℤ pos (if ltb step 1 then 1 else step)
    at_least_one step = ground arith
