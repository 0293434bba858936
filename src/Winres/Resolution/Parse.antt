-- ===== src/Winres/Resolution/Parse.antt =====
-- `setResolution` reads back the resolutions that are written as "800x600 1024x768".
use mltk.Common.{
  ℕ, zero, suc, ◌+◌, ◌≤◌, ◌<◌, ◌≡◌, refl, sym, ap, ap₂, ◌∙◌, true, false, List, [], ◌∷◌, ◌++◌,
  Option, none, some, append-nil, append_assoc, if◌then◌else◌, arith, ltb, lt→ltb, length,
  length-append, All, min, take_all, ℤ, pos, subst, if_true, is_digit, IsDigit, read_digits,
  read_digits-append, skip_space, show_ℕ, show_ℕ-IsDigit, show_ℕ_nonempty, read_digits-show,
}
use mltk.Winres.Scripts.{scan_int, skip_digits}
use mltk.Winres.Resolution.{
  clamp_long, parse_text, or_start, resume, Resolution, strtol, is_valid, may_go_on, keep,
  after_width, parse_loop, parse_resolutions,
}

-- The text of a resolution, before other text.
abbrev pub text_of : Resolution → List ℕ → List ℕ
text_of r rest = show_ℕ r.w ++ b'x' ∷ (show_ℕ r.h ++ rest)

unfoldable pub more_text : List Resolution → List ℕ
more_text [] = []
more_text (r ∷ rs) = b' ' ∷ text_of r (more_text rs)

unfoldable pub print_resolutions : List Resolution → List ℕ
unfolding more_text
print_resolutions [] = []
print_resolutions (r ∷ rs) = text_of r (more_text rs)

-- A text that does not go on with a digit.
Stops : List ℕ → Type 0
Stops [] = Unit
Stops (c ∷ cs) = is_digit c ≡ false

skip_digits-append :
    (ds rest : List ℕ) → All IsDigit ds → Stops rest → skip_digits (ds ++ rest) ≡ rest
unfolding Stops
skip_digits-append [] [] h s = refl
skip_digits-append [] (c ∷ cs) h s = rw s refl
skip_digits-append (d ∷ ds) rest h s =
    let digit : is_digit d ≡ true = ground arith in rw digit (skip_digits-append ds rest h.1 s)

read_digits-Stops : (acc : ℕ) (rest : List ℕ) → Stops rest → read_digits acc rest ≡ acc
unfolding Stops read_digits
read_digits-Stops acc [] s = refl
read_digits-Stops acc (c ∷ cs) s = rw s refl

scan_int_digits :
    (ds rest : List ℕ)
    → All IsDigit ds
    → 0 < length ds
    → Stops rest
    → scan_int (ds ++ rest) ≡ some (pos (read_digits 0 ds), rest)
unfolding skip_space
scan_int_digits [] rest h nonempty s = absurd (omega arith)
scan_int_digits (d ∷ ds) rest h nonempty s =
    let read : read_digits 0 (d ∷ (ds ++ rest)) ≡ read_digits 0 (d ∷ ds) =
      read_digits-append 0 (d ∷ ds) rest h ∙ read_digits-Stops (read_digits 0 (d ∷ ds)) rest s in
    let left : skip_digits (d ∷ (ds ++ rest)) ≡ rest = skip_digits-append (d ∷ ds) rest h s in
    first d (ds ++ rest) h.0 ∙ ap₂ (λ (n : ℕ) (t : List ℕ). some (pos n, t)) read left
  where
    first :
        (c : ℕ) (cs : List ℕ)
        → IsDigit c
        → scan_int (c ∷ cs) ≡ some (pos (read_digits 0 (c ∷ cs)), skip_digits (c ∷ cs))
    first c cs digit = ground arith

scan_int-show :
    (n : ℕ) (rest : List ℕ) → Stops rest → scan_int (show_ℕ n ++ rest) ≡ some (pos n, rest)
scan_int-show n rest s =
    scan_int_digits (show_ℕ n) rest (show_ℕ-IsDigit n) (show_ℕ_nonempty n) s
    ∙ ap (λ (k : ℕ). some (pos k, rest)) (read_digits-show n)

abbrev pub IsLarge : Resolution → Type 0
IsLarge r = (320 ≤ r.w) × (240 ≤ r.h)

-- Both numbers fit in a `long`.
abbrev pub IsLong : Resolution → Type 0
IsLong r = (r.w ≤ 2147483647) × (r.h ≤ 2147483647)

large : (w h : ℕ) → 320 ≤ w → 240 ≤ h → is_valid (pos w) (pos h) ≡ true
large w h hw hh = ground arith

more_text-Stops : (rs : List Resolution) → Stops (more_text rs)
unfolding Stops more_text
more_text-Stops [] = tt
more_text-Stops (r ∷ rs) = refl

more_text-may_go_on : (rs : List Resolution) → may_go_on (more_text rs) ≡ true
unfolding more_text
more_text-may_go_on [] = refl
more_text-may_go_on (r ∷ rs) = refl

-- The loop makes a round that keeps a resolution and goes on.
Rounds : List Resolution → List ℕ → List Resolution → List ℕ → Type 0
Rounds found text found' rest =
    after_width found (strtol text).0 (strtol text).1 ≡ (found', some rest)

-- `strtol` on a text from which this number is scanned.
strtol-scan_int :
    (n : ℕ) (text rest : List ℕ)
    → n ≤ 2147483647
    → scan_int text ≡ some (pos n, rest)
    → strtol text ≡ (pos n, rest)
strtol-scan_int n text rest fits h =
    ap (λ (o : Option (ℤ × List ℕ)). (clamp_long (or_start text o).0, (or_start text o).1)) h
    ∙ ap (λ (k : ℕ). (pos k, rest)) (held n fits)
  where
    held : (n : ℕ) → n ≤ 2147483647 → min n 2147483647 ≡ n
    held n fits = omega arith

strtol-show :
    (n : ℕ) (rest : List ℕ)
    → n ≤ 2147483647
    → Stops rest
    → strtol (show_ℕ n ++ rest) ≡ (pos n, rest)
strtol-show n rest fits s = strtol-scan_int n (show_ℕ n ++ rest) rest fits (scan_int-show n rest s)

strtol-blank :
    (n : ℕ) (rest : List ℕ)
    → n ≤ 2147483647
    → Stops rest
    → strtol (b' ' ∷ (show_ℕ n ++ rest)) ≡ (pos n, rest)
unfolding skip_space
strtol-blank n rest fits s =
    strtol-scan_int n (b' ' ∷ (show_ℕ n ++ rest)) rest fits (scan_int-show n rest s)

-- What follows the width.
abbrev rest_of : Resolution → List Resolution → List ℕ
rest_of r rs = b'x' ∷ (show_ℕ r.h ++ more_text rs)

rest_of-Rounds :
    (found : List Resolution) (text : List ℕ) (r : Resolution) (rs : List Resolution)
    → IsLarge r
    → IsLong r
    → strtol text ≡ (pos r.w, rest_of r rs)
    → Rounds found text (found ++ r ∷ []) (more_text rs)
unfolding Rounds
rest_of-Rounds found text r rs ok fits h =
    ap (λ (p : ℤ × List ℕ). after_width found p.0 p.1) h
    ∙ ap
        (λ (p : ℤ × List ℕ).
          let kept : List Resolution × Option (List ℕ) = (keep (pos r.w) p.0 found, some p.1) in
          if may_go_on p.1 then kept else (found, none))
        (strtol-show r.h (more_text rs) fits.1 (more_text-Stops rs))
    ∙ rw (more_text-may_go_on rs, large r.w r.h ok.0 ok.1) refl

parse_loop_round :
    (fuel : ℕ) (found found' : List Resolution) (text rest : List ℕ)
    → 0 < length text
    → length found < 16
    → Rounds found text found' rest
    → parse_loop (suc fuel) found text ≡ parse_loop fuel found' rest
unfolding Rounds parse_loop
parse_loop_round fuel found found' [] rest nonempty room h = absurd (omega arith)
parse_loop_round fuel found found' (c ∷ cs) rest nonempty room h =
    let r = after_width found (strtol (c ∷ cs)).0 (strtol (c ∷ cs)).1 in
    if_true (resume (parse_loop fuel) r.0 r.1) found (ltb (length found) 16)
      (lt→ltb (length found) 16 room)
    ∙ ap (λ (p : List Resolution × Option (List ℕ)). resume (parse_loop fuel) p.0 p.1) h

text_long : (r : Resolution) (rest : List ℕ) → length rest + 1 ≤ length (text_of r rest)
text_long r rest = omega (
  arith,
  length-append (show_ℕ r.w) (b'x' ∷ (show_ℕ r.h ++ rest)),
  length-append (show_ℕ r.h) rest,
)

parse_loop-more_text :
    (fuel : ℕ) (found rs : List Resolution)
    → length (more_text rs) ≤ fuel
    → length found + length rs ≤ 16
    → All IsLarge rs
    → All IsLong rs
    → parse_loop fuel found (more_text rs) ≡ found ++ rs
unfolding parse_loop more_text Stops
parse_loop-more_text zero found [] long fits ok longs = sym (append-nil found)
parse_loop-more_text (suc fuel) found [] long fits ok longs = sym (append-nil found)
parse_loop-more_text zero found (r ∷ rs) long fits ok longs = absurd (omega arith)
parse_loop-more_text (suc fuel) found (r ∷ rs) long fits ok longs =
    parse_loop_round fuel found (found ++ r ∷ []) (b' ' ∷ text_of r (more_text rs)) (more_text rs)
      (omega arith) (omega arith)
      (rest_of-Rounds found (b' ' ∷ text_of r (more_text rs)) r rs ok.0 longs.0
        (strtol-blank r.w (rest_of r rs) longs.0.0 refl))
    ∙ parse_loop-more_text fuel (found ++ r ∷ []) rs (omega (arith, text_long r (more_text rs)))
        (omega (arith, length-append found (r ∷ []))) ok.1 longs.1
    ∙ append_assoc found (r ∷ []) rs

parse_printed :
    (text : List ℕ) (r : Resolution) (rs : List Resolution) (fallback : List ℕ)
    → 0 < length text
    → text ≡ text_of r (more_text rs)
    → IsLarge r
    → All IsLarge rs
    → IsLong r
    → All IsLong rs
    → length rs < 16
    → length text ≤ 299
    → parse_resolutions text fallback ≡ r ∷ rs
unfolding parse_text parse_resolutions Stops
parse_printed [] r rs fallback nonempty e ok oks fit fits few short = absurd (omega arith)
parse_printed (c ∷ cs) r rs fallback nonempty e ok oks fit fits few short =
    ap (λ (t : List ℕ). parse_loop (length t) [] t) (take_all 299 (c ∷ cs) short)
    ∙ parse_loop_round (length cs) [] (r ∷ []) (c ∷ cs) (more_text rs) (omega arith) (omega arith) (
        subst (λ t. Rounds [] t (r ∷ []) (more_text rs)) (sym e)
          (rest_of-Rounds [] (text_of r (more_text rs)) r rs ok fit
            (strtol-show r.w (rest_of r rs) fit.0 refl)))
    ∙ parse_loop-more_text (length cs) (r ∷ []) rs
        (omega (arith, ap length e, text_long r (more_text rs))) (omega arith) oks fits

-- One to 16 resolutions of at least 320 to 240, whose numbers fit in a long of 32 bits, written one
-- after the other as the width, an x and the height, with a blank between two, in at most 299
-- characters, are read from the setting `resolution2` as they are, and the other setting does not
-- count.
pub parse_resolutions-print :
    (r : Resolution) (rs : List Resolution) (fallback : List ℕ)
    → IsLarge r
    → All IsLarge rs
    → IsLong r
    → All IsLong rs
    → length rs < 16
    → length (print_resolutions (r ∷ rs)) ≤ 299
    → parse_resolutions (print_resolutions (r ∷ rs)) fallback ≡ r ∷ rs
unfolding print_resolutions
parse_resolutions-print r rs fallback ok oks fit fits few short =
    parse_printed (text_of r (more_text rs)) r rs fallback
      (omega (arith, text_long r (more_text rs))) refl ok oks fit fits few short
