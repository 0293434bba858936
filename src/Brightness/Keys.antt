-- ===== src/Brightness/Keys.antt =====
-- `handle_message` of core/modules/slx-brightness/src/main.c, and the start of its `main`.
pub mod Range
pub mod Presses
use mltk.Common.{
  ℕ, Bool, ◌&&◌, ◌||◌, not, List, Option, none, some, ℤ, pos, negsuc, ◌+ℤ◌, ◌-ℤ◌, ltb_ℤ, eqb_ℤ,
  if◌then◌else◌, ◌==◌, ◌+◌, ◌-◌, ◌/◌, ltb, atoi, show_ℤ, c_str, ◌∷◌, [], drop, pos_part, length,
  eqb_list, codes,
}
use mltk.Brightness.Files.{Read, Write, Got, file_get_contents, file_put_contents}

-- `struct input_event`, its time left out.
pub record InputEvent : Type 0 where
  pub type_ : ℕ
  pub code_ : ℕ
  pub value : ℤ

abbrev pub ev_key : ℕ
ev_key = 1

abbrev pub key_brightnessdown : ℕ
key_brightnessdown = 224

abbrev pub key_brightnessup : ℕ
key_brightnessup = 225

-- `_min`, `_max` and `_step`.
pub record Settings : Type 0 where
  pub min_ : ℤ
  pub max_ : ℤ
  pub step_ : ℤ

-- The event is a key event, down or repeated, of one of the two keys.
unfoldable pub is_ours : InputEvent → Bool
is_ours ev =
    ev.type_ == ev_key
    && (eqb_ℤ ev.value (pos 1) || eqb_ℤ ev.value (pos 2))
    && (ev.code_ == key_brightnessdown || ev.code_ == key_brightnessup)

-- The new brightness for the one that was read. The overflow of an `int`, undefined in C, is left
-- out.
unfoldable pub new_value : Settings → Bool → ℤ → ℤ
new_value s up val =
    let newval = if up then val +ℤ s.step_ else val -ℤ s.step_ in
    if ltb_ℤ newval s.min_ then s.min_ else if ltb_ℤ s.max_ newval then s.max_ else newval

-- What is written for the brightness that was read, unless it stays the same.
unfoldable pub changed_text : Settings → Bool → ℤ → Option (List ℕ)
unfolding new_value
changed_text s up val =
    let newval = new_value s up val in if eqb_ℤ val newval then none else some (show_ℤ newval)

-- The same for the text that was read and the result of `file_get_contents`.
unfoldable pub new_text : Settings → Bool → ℤ → Option (List ℕ) → Option (List ℕ)
unfolding changed_text
new_text s up ret none = none
new_text s up ret (some text) =
    if ltb_ℤ (pos 0) ret then changed_text s up (atoi (c_str text)) else none

abbrev pub write_text : Option (List Write) → Option (List ℕ) → Option (List ℕ)
write_text writes none = none
write_text writes (some text) = (file_put_contents writes text).1

-- The file after the event, unless it is as it was.
unfoldable pub handle_message :
    Settings → InputEvent → Option (List Read) → Option (List Write) → Option (List ℕ)
unfolding is_ours new_text
handle_message s ev reads writes =
    let got = file_get_contents reads 100 in
    if is_ours ev
    then write_text writes (new_text s (ev.code_ == key_brightnessup) got.ret got.text)
    else none

-- The range and the step for two bounds and a number of steps; `none` if they are refused.
unfoldable pub step_size : ℤ → ℤ → ℤ → Option Settings
step_size lo hi steps =
    let step = pos_part (hi -ℤ lo) / pos_part steps in
    if not (ltb_ℤ lo hi) || ltb_ℤ steps (pos 1)
    then none
    else some (record { min_ = lo; max_ = hi; step_ = pos (if ltb step 1 then 1 else step) })

-- The arguments after an optional `-a`: the path, the bounds and the number of steps.
unfoldable pub read_settings : List (List ℕ) → Option Settings
unfolding step_size
read_settings (path ∷ lo ∷ hi ∷ num ∷ rest) = step_size (atoi lo) (atoi hi) (atoi num)
read_settings args = none
