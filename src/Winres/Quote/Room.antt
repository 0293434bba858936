-- ===== src/Winres/Quote/Room.antt =====
-- `escapeShellArg` stays within its buffer, and what happens when the buffer is full.
use mltk.Common.{
  ℕ, zero, suc, ◌+◌, ◌-◌, ◌≤◌, ◌<◌, ◌≡◌, refl, ap, ◌∙◌, sym, List, [], ◌∷◌, ◌++◌, Option, none,
  some, arith, length, length-append, length-replicate, replicate, min, ◌==◌, if◌then◌else◌,
  Option-cases, inl, inr, ◌⊎◌,
}
use native.Mathlib.Decide.{dec_lt}
use mltk.Winres.Quote.{
  backslash, quote, copy_slashes, append_to, close, copy_char, end_round, escape_loop,
  escape_shell_arg, run_params,
}

pub copy_slashes_lem :
    (input : List ℕ) (room : ℕ)
    → let r = copy_slashes input room in (r.0 + length r.1 ≡ length input) × (r.0 ≤ room)
unfolding copy_slashes
copy_slashes_lem [] room = (refl, omega arith)
copy_slashes_lem (c ∷ cs) zero = (omega arith, omega arith)
copy_slashes_lem (c ∷ cs) (suc room) = ground (arith, copy_slashes_lem cs room)

copy_char_lem :
    (c : ℕ) (cs : List ℕ) (room : ℕ)
    → let r = copy_char c cs room in
      (length r.0 + r.1 ≡ room)
      × (length (c ∷ cs) ≤ length r.0 + length r.2)
      × (length r.2 ≤ length (c ∷ cs))
unfolding copy_char
copy_char_lem c cs zero = (refl, omega arith, omega arith)
copy_char_lem c cs (suc zero) = ground arith
copy_char_lem c cs (suc (suc room)) = ground arith

length-close : (room : ℕ) → length (close room) ≤ room
length-close zero = omega arith
length-close (suc room) = omega arith

append_to-some :
    (written : List ℕ) (o : Option (List ℕ)) (w : List ℕ)
    → append_to written o ≡ some w
    → (more : List ℕ) × (o ≡ some more) × (w ≡ written ++ more)
append_to-some written none w h = cc
append_to-some written (some more) w h = (more, refl, ground arith)

end_round_room :
    (again : List ℕ → ℕ → Option (List ℕ)) (bs : ℕ) (rest : List ℕ) (room : ℕ) (w : List ℕ)
    → bs ≤ room
    → ((input : List ℕ) (room : ℕ) (w : List ℕ)
        → again input room ≡ some w
        → (length input ≤ length w) × (length w ≤ room))
    → end_round again bs rest room ≡ some w
    → (bs + length rest ≤ length w) × (length w ≤ room)
unfolding end_round
end_round_room again bs [] room w fits ih h = ground (
  arith,
  length-append (replicate (bs + min bs (room - bs)) backslash)
      (close (room - bs - min bs (room - bs))),
  length-replicate (bs + min bs (room - bs)) backslash,
  length-close (room - bs - min bs (room - bs)),
)
end_round_room again bs (c ∷ cs) room w fits ih h = omega (arith, size)
  where
    twice : ℕ
    twice = if c == quote then min bs (room - bs) else 0

    r : List ℕ × ℕ × List ℕ
    r = copy_char c cs (room - bs - twice)

    inverted :
        (more : List ℕ) × (again r.2 r.1 ≡ some more)
        × (w ≡ (replicate (bs + twice) backslash ++ r.0) ++ more)
    inverted = append_to-some _ (again r.2 r.1) w h

    twice-le : twice ≤ room - bs
    twice-le = ground arith

    size : (bs + length (c ∷ cs) ≤ length w) × (length w ≤ room)
    size = omega (
      arith,
      twice-le,
      copy_char_lem c cs (room - bs - twice),
      ih r.2 r.1 inverted.0 inverted.1,
      ap length inverted.2,
      length-append (replicate (bs + twice) backslash ++ r.0) inverted.0,
      length-append (replicate (bs + twice) backslash) r.0,
      length-replicate (bs + twice) backslash,
    )

-- If the loop ends, every character of the input has been written, and all that is written fits.
pub escape_loop_room :
    (fuel : ℕ) (input : List ℕ) (room : ℕ) (w : List ℕ)
    → escape_loop fuel input room ≡ some w
    → (length input ≤ length w) × (length w ≤ room)
unfolding escape_loop
escape_loop_room zero input room w h = cc
escape_loop_room (suc fuel) [] room w h = ground (arith, length-close room)
escape_loop_room (suc fuel) (i ∷ input) room w h =
    let slashes = copy_slashes_lem (i ∷ input) room in
    let r =
      end_round_room (escape_loop fuel) (copy_slashes (i ∷ input) room).0
        (copy_slashes (i ∷ input) room).1 room w slashes.1 (escape_loop_room fuel) h in
    (omega (arith, slashes, r), r.1)

enters :
    (fuel : ℕ) (input : List ℕ) (room : ℕ)
    → 2 < room
    → escape_shell_arg fuel input room ≡ append_to (quote ∷ []) (escape_loop fuel input (room - 3))
unfolding escape_shell_arg
enters fuel input room h = ground arith

-- If `escapeShellArg` ends, what it writes ends two places before `end`, with the final NUL still
-- in the buffer, and holds more characters than the argument; only if there are not more than two
-- places at the start is nothing written.
pub escape_shell_arg_room :
    (fuel : ℕ) (input : List ℕ) (room : ℕ) (w : List ℕ)
    → escape_shell_arg fuel input room ≡ some w
    → ((room ≤ 2) × (w ≡ [])) ⊎ ((2 < room) × (length input + 1 ≤ length w) × (length w + 2 ≤ room))
escape_shell_arg_room fuel input room w h = elim (dec_lt 2 room) [
  | yes large ↦
      let r =
        append_to-some (quote ∷ []) (escape_loop fuel input (room - 3)) w
          (sym (enters fuel input room large) ∙ h) in
      inr (
        large,
        omega (arith, escape_loop_room fuel input (room - 3) r.0 r.1, ap length r.2),
        omega (arith, escape_loop_room fuel input (room - 3) r.0 r.1, ap length r.2),
      )
  | no small ↦ inl (omega arith, unfold escape_shell_arg in ground arith)
]

-- Once the buffer is full the loop makes no progress: if the argument is longer than the room for
-- it, and there is room to start, no number of rounds ends the loop.
pub escape_shell_arg_hangs :
    (fuel : ℕ) (input : List ℕ) (room : ℕ)
    → 2 < room
    → room < length input + 3
    → escape_shell_arg fuel input room ≡ none
escape_shell_arg_hangs fuel input room large long =
    elim (Option-cases (escape_shell_arg fuel input room)) [
      | inl never ↦ never
      | inr (w, ends) ↦ absurd (omega (arith, escape_shell_arg_room fuel input room w ends))
    ]

-- If the user is written and leaves some room, but the user as written and the password take more
-- than 194 characters together, no number of rounds ends the writing of the parameters in
-- `launchRunscript`.
pub run_params_hangs :
    (fuel : ℕ) (user pass u : List ℕ)
    → escape_shell_arg fuel user 198 ≡ some u
    → length u < 195
    → 194 < length u + length pass
    → run_params fuel user pass ≡ none
unfolding run_params
run_params_hangs fuel user pass u e room long = rw (
  e,
  run_params,
  escape_shell_arg_hangs fuel pass (198 - (length u + 1)) (omega arith) (omega arith),
)
