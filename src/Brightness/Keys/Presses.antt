-- ===== src/Brightness/Keys/Presses.antt =====
-- Pressing the key for more brightness leads to the upper bound, through the text of the file.
use mltk.Common.{
  ℕ, zero, suc, ◌+◌, ◌≤◌, ◌<◌, ◌≡◌, drop, show_ℕ-IsDigit, show_ℕ_nonempty, IsDigit, refl, ap, ◌∙◌,
  true, List, [], ◌∷◌, ◌++◌, Option, none, some, if◌then◌else◌, arith, min, length, take, take_all,
  map, All, pos, eqb_ℤ, ltb_ℤ, Bool-cases, inl, inr, if_true, atoi, atoi-show, show_ℕ, show_ℤ,
  c_str, c_str_text, IsTextByte, length-show_ℕ, append-nil,
}
use mltk.Brightness.Files.{chunk, wrote, Got, put_loop, file_get_contents, file_put_contents}
use mltk.Brightness.Files.Whole.{file_get_contents_whole, concat}
use mltk.Brightness.Keys.{
  InputEvent, Settings, new_value, new_text, changed_text, write_text, handle_message, ev_key,
  key_brightnessup,
}

-- The key for more brightness goes down.
abbrev pub up : InputEvent
up = record { type_ = ev_key; code_ = key_brightnessup; value = pos 1 }

abbrev pub or_same : List ℕ → Option (List ℕ) → List ℕ
or_same content none = content
or_same content (some new) = new

-- The file after a message, if it is read in one go and written in one go.
abbrev pub file_after : Settings → InputEvent → List ℕ → List ℕ
file_after s ev content =
    or_same content (handle_message s ev (some (map chunk (content ∷ []))) (some (wrote 100 ∷ [])))

abbrev pub presses : Settings → ℕ → List ℕ → List ℕ
presses s zero content = content
presses s (suc n) content = presses s n (file_after s up content)

abbrev pub range : ℕ → ℕ → ℕ → Settings
range lo hi step = record { min_ = pos lo; max_ = pos hi; step_ = pos (suc step) }

new_value_up :
    (lo hi step v : ℕ)
    → lo ≤ v
    → v ≤ hi
    → new_value (range lo hi step) true (pos v) ≡ pos (min (v + suc step) hi)
unfolding new_value
new_value_up lo hi step v above below = ground arith

nothing_left : (left done : List ℕ) → (put_loop [] left done).content ≡ done
unfolding put_loop
nothing_left [] done = refl
nothing_left (c ∷ cs) done = refl

written_whole :
    (text : List ℕ)
    → 0 < length text
    → length text ≤ 100
    → (file_put_contents (some (wrote 100 ∷ [])) text).1 ≡ some text
unfolding file_put_contents put_loop
written_whole [] some_text fits = absurd (omega arith)
written_whole (c ∷ cs) some_text fits =
    ap some (nothing_left (drop 100 (c ∷ cs)) (take 100 (c ∷ cs)) ∙ take_all 100 (c ∷ cs) fits)

digits-text : (cs : List ℕ) → All IsDigit cs → All IsTextByte cs
digits-text [] h = tt
digits-text (c ∷ cs) h = ((omega (arith, h.0.0), omega (arith, h.0.1)), digits-text cs h.1)

shown_fits : (v : ℕ) → v < 100000 → length (show_ℕ v) ≤ 99
shown_fits v few = omega (arith, length-show_ℕ v few)

-- What is read of the text of a number.
read_shown :
    (v : ℕ)
    → v < 100000
    → file_get_contents (some (map chunk (show_ℕ v ∷ []))) 100
      ≡ record { ret = pos (length (show_ℕ v)); text = some (show_ℕ v) }
unfolding concat
read_shown v few =
    let t : List ℕ = show_ℕ v in
    let one : take 99 (t ++ []) ≡ t =
      ap (take 99) (append-nil t) ∙ take_all 99 t (shown_fits v few) in
    file_get_contents_whole 98 (t ∷ []) (show_ℕ_nonempty v, tt) ∙ ap whole one
  where
    whole : List ℕ → Got
    whole x = record { ret = pos (length x); text = some x }

text_of_shown :
    (s : Settings) (v : ℕ)
    → v < 100000
    → new_text s true (pos (length (show_ℕ v))) (some (show_ℕ v)) ≡ changed_text s true (pos v)
unfolding new_text
text_of_shown s v few =
    let t : List ℕ = show_ℕ v in
    if_true (changed_text s true (atoi (c_str t))) none (ltb_ℤ (pos 0) (pos (length t)))
      (positive (length t) (show_ℕ_nonempty v))
    ∙ ap (changed_text s true)
        (ap atoi (c_str_text t (digits-text t (show_ℕ-IsDigit v))) ∙ atoi-show v (omega arith))
  where
    positive : (n : ℕ) → 0 < n → ltb_ℤ (pos 0) (pos n) ≡ true
    positive n h = ground arith

-- What is written for a number: the new one, or the old one stays because it is the same.
write_shown :
    (v m : ℕ)
    → m < 100000
    → or_same (show_ℕ v) (
        write_text
          (some (wrote 100 ∷ []))
          (if eqb_ℤ (pos v) (pos m) then none else some (show_ℕ m)))
      ≡ show_ℕ m
write_shown v m few = elim (Bool-cases (eqb_ℤ (pos v) (pos m))) [
  | inl same ↦ rw same (ap show_ℕ (equal same))
  | inr other ↦ rw other (
      ap (or_same (show_ℕ v))
        (written_whole (show_ℕ m) (show_ℕ_nonempty m) (omega (arith, shown_fits m few))))
]
  where
    equal : eqb_ℤ (pos v) (pos m) ≡ true → v ≡ m
    equal h = ground arith

changed_shown :
    (s : Settings) (v m : ℕ)
    → new_value s true (pos v) ≡ pos m
    → changed_text s true (pos v) ≡ (if eqb_ℤ (pos v) (pos m) then none else some (show_ℕ m))
unfolding changed_text show_ℤ
changed_shown s v m h = ap (λ z. if eqb_ℤ (pos v) z then none else some (show_ℤ z)) h

-- A press on the text of a number in the range.
press_up :
    (lo hi step v : ℕ)
    → lo ≤ v
    → v ≤ hi
    → hi < 100000
    → file_after (range lo hi step) up (show_ℕ v) ≡ show_ℕ (min (v + suc step) hi)
unfolding handle_message
press_up lo hi step v above below few =
    let s : Settings = range lo hi step in
    let m : ℕ = min (v + suc step) hi in
    let written : Got → List ℕ = λ got.
      or_same (show_ℕ v) (write_text (some (wrote 100 ∷ [])) (new_text s true got.ret got.text)) in
    ap written (read_shown v (omega arith))
    ∙ ap (λ o. or_same (show_ℕ v) (write_text (some (wrote 100 ∷ [])) o))
        (text_of_shown s v (omega arith)
          ∙ changed_shown s v m (new_value_up lo hi step v above below))
    ∙ write_shown v m (omega arith)

-- For bounds below 100000 and a step of at least 1, on a file that holds a brightness of the range,
-- and that is read and written in one go: at least as many presses of the key for more brightness
-- as it is below the upper bound leave the upper bound in the file.
pub presses_up :
    (lo hi step v n : ℕ)
    → lo ≤ v
    → v ≤ hi
    → hi < 100000
    → hi ≤ v + n
    → presses (range lo hi step) n (show_ℕ v) ≡ show_ℕ hi
presses_up lo hi step v zero above below few enough = ap show_ℕ (omega arith)
presses_up lo hi step v (suc n) above below few enough =
    ap (presses (range lo hi step) n) (press_up lo hi step v above below few)
    ∙ presses_up lo hi step (min (v + suc step) hi) n (omega arith) (omega arith) few (omega arith)
