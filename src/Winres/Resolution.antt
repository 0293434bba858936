-- ===== src/Winres/Resolution.antt =====
-- The screen resolution in core/modules/run-virt/winres/src/winres.c: what `setResolution` reads
-- from OPENSLX.INI, and the results of the functions that it calls.
pub mod Parse
pub mod Layout
pub mod Fine
pub mod Methods
pub mod Selected
pub mod Requested
pub mod Timer
pub mod Ends
use mltk.Common.{
  ℕ, zero, suc, Bool, true, false, not, ◌&&◌, ◌||◌, List, [], ◌∷◌, ◌++◌, Option, none, some,
  if◌then◌else◌, ◌==◌, ltb, ℤ, pos, ltb_ℤ, pos_part, length, negsuc, min, take,
}
use mltk.Winres.Scripts.{scan_int}

-- 0, `ENOTSUP` and `EAGAIN`.
pub data Code : Type 0 where
  done : Code
  not_supported : Code
  again : Code

-- `struct resolution`, which is kept only if both are positive.
pub record Resolution : Type 0 where
  pub w : ℕ
  pub h : ℕ

-- A `long` of Windows has 32 bits, and `strtol` gives LONG_MAX or LONG_MIN for what it cannot hold.
abbrev pub clamp_long : ℤ → ℤ
clamp_long (pos n) = pos (min n 2147483647)
clamp_long (negsuc n) = negsuc (min n 2147483647)

-- `strtol(text, &end, 10)`: where there is no number, it is 0, and `end` the text.
abbrev pub or_start : List ℕ → Option (ℤ × List ℕ) → ℤ × List ℕ
or_start text none = (pos 0, text)
or_start text (some r) = r

abbrev pub strtol : List ℕ → ℤ × List ℕ
strtol text = let r = or_start text (scan_int text) in (clamp_long r.0, r.1)

abbrev pub is_valid : ℤ → ℤ → Bool
is_valid w h = not (ltb_ℤ w (pos 320) || ltb_ℤ h (pos 240))

-- After the height: the end, a blank, or something else, which ends the loop.
abbrev pub may_go_on : List ℕ → Bool
may_go_on [] = true
may_go_on (c ∷ cs) = c == b' '

abbrev pub keep : ℤ → ℤ → List Resolution → List Resolution
keep w h found =
    if is_valid w h then found ++ record { w = pos_part w; h = pos_part h } ∷ [] else found

-- A round, after the width: the resolutions that are found, and where the loop goes on.
abbrev pub after_width : List Resolution → ℤ → List ℕ → List Resolution × Option (List ℕ)
after_width found w [] = (found, none)
after_width found w (c ∷ cs) =
    let height = strtol cs in
    if c == b'x'
    then (if may_go_on height.1 then (keep w height.0 found, some height.1) else (found, none))
    else (found, none)

abbrev pub resume :
    (List Resolution → List ℕ → List Resolution)
    → List Resolution
    → Option (List ℕ)
    → List Resolution
resume loop found none = found
resume loop found (some text) = loop found text

-- A round takes a character at least, so that the text's length is fuel enough.
unfoldable pub parse_loop : ℕ → List Resolution → List ℕ → List Resolution
parse_loop zero found text = found
parse_loop (suc fuel) found [] = found
parse_loop (suc fuel) found (c ∷ cs) =
    let width = strtol (c ∷ cs) in
    let r = after_width found width.0 width.1 in
    if ltb (length found) 16 then resume (parse_loop fuel) r.0 r.1 else found

-- The text of a setting, of which the buffer `data[300]` takes 299 characters.
unfoldable pub parse_text : List ℕ → List Resolution
unfolding parse_loop
parse_text text = let data_ = take 299 text in parse_loop (length data_) [] data_

-- `resolution2`, or else `resolution`.
unfoldable pub parse_resolutions : List ℕ → List ℕ → List Resolution
unfolding parse_text
parse_resolutions [] fallback = parse_text fallback
parse_resolutions (c ∷ text) fallback = parse_text (c ∷ text)
