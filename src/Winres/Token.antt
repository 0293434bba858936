-- ===== src/Winres/Token.antt =====
-- `getToken` of core/modules/run-virt/winres/src/winres.c: it cuts a buffer in place, one field
-- at a time. Here the pointer is the text from it to the final NUL.
pub mod Trim
use mltk.Common.{
  ℕ, ◌-◌, Bool, true, false, ◌&&◌, ◌||◌, List, [], ◌∷◌, Option, none, some, if◌then◌else◌, ◌==◌,
  ltb, length, get_or, take,
}

abbrev pub is_delimiter : ℕ → Bool
is_delimiter c = c == b'\n' || c == b'\r' || c == b'\t'

-- `while (doTrim && **ptr == ' ')`.
unfoldable pub skip_blanks : List ℕ → List ℕ
skip_blanks [] = []
skip_blanks (c ∷ cs) = if c == b' ' then skip_blanks cs else c ∷ cs

-- A token, whether a delimiter was found after it, and what follows.
pub record Scan : Type 0 where
  pub token : List ℕ
  pub delimited : Bool
  pub rest : List ℕ

unfoldable pub scan : List ℕ → Scan
scan [] = record { token = []; delimited = false; rest = [] }
scan (c ∷ cs) =
    let s = scan cs in
    if is_delimiter c
    then record { token = []; delimited = true; rest = cs }
    else record { token = c ∷ s.token; delimited = s.delimited; rest = s.rest }

abbrev pub is_empty : List ℕ → Bool
is_empty [] = true
is_empty (c ∷ cs) = false

-- Without the spaces at its end.
unfoldable pub strip_end : List ℕ → List ℕ
strip_end [] = []
strip_end (c ∷ cs) = let kept = strip_end cs in if c == b' ' && is_empty kept then [] else c ∷ kept

-- `trim` starts one before the pointer. That is the place of the delimiter, or the last character
-- if the text ended; from there NULs are written down to the last character that is no space.
unfoldable pub trim_token : Scan → List ℕ
unfolding strip_end
trim_token s =
    let last = length s.token - 1 in
    if s.delimited
    then strip_end s.token
    else if ltb 0 last && get_or s.token (last - 1) 0 == b' '
    then strip_end (take last s.token)
    else s.token

-- NULL at the end of the text. `doDup` makes no difference to the text.
unfoldable pub get_token : List ℕ → Bool → Option (List ℕ) × List ℕ
unfolding skip_blanks scan trim_token
get_token [] do_trim = (none, [])
get_token (c ∷ cs) do_trim =
    let s = scan (if do_trim then skip_blanks (c ∷ cs) else c ∷ cs) in
    (some (if do_trim then trim_token s else s.token), s.rest)
