-- ===== src/Winres/Quote.antt =====
-- `escapeShellArg` of core/modules/run-virt/winres/src/winres.c, and the parameters that
-- `launchRunscript` builds with it. A text is kept without its final NUL. Of the pointers `out` and
-- `end` only their distance matters, the room that is left.
pub mod Room
pub mod Plain
pub mod Argv
pub mod RoundTrip
use mltk.Common.{
  ℕ, zero, suc, ◌+◌, ◌-◌, Bool, List, [], ◌∷◌, ◌++◌, Option, none, some, if◌then◌else◌, ◌==◌, leb,
  ltb, length, replicate, min,
}

abbrev pub backslash : ℕ
backslash = b'\\'

abbrev pub quote : ℕ
quote = b'"'

-- `while (*in == '\\' && out < end)`: how many backslashes are copied, and the input after them.
unfoldable pub copy_slashes : List ℕ → ℕ → ℕ × List ℕ
copy_slashes [] room = (0, [])
copy_slashes (c ∷ cs) zero = (0, c ∷ cs)
copy_slashes (c ∷ cs) (suc room) =
    let more = copy_slashes cs room in if c == backslash then (suc more.0, more.1) else (0, c ∷ cs)

abbrev pub append_to : List ℕ → Option (List ℕ) → Option (List ℕ)
append_to written none = none
append_to written (some more) = some (written ++ more)

-- `if (out < end) *out++ = '"'`.
abbrev pub close : ℕ → List ℕ
close zero = []
close (suc room) = quote ∷ []

-- The rest of a round for a character after the backslashes: an escape before a quote, and the
-- character itself if there is room. It gives what is written, the room after it and the input.
unfoldable pub copy_char : ℕ → List ℕ → ℕ → List ℕ × ℕ × List ℕ
copy_char c cs zero = ([], 0, c ∷ cs)
copy_char c cs (suc zero) = if c == quote then (backslash ∷ [], 0, c ∷ cs) else (c ∷ [], 0, cs)
copy_char c cs (suc (suc room)) =
    if c == quote then (backslash ∷ c ∷ [], room, cs) else (c ∷ [], suc room, cs)

-- A round after the backslashes at the head, `bs` of them, have been copied. `again` is the loop.
unfoldable pub end_round : (List ℕ → ℕ → Option (List ℕ)) → ℕ → List ℕ → ℕ → Option (List ℕ)
end_round again bs [] room =
    let twice = min bs (room - bs) in
    some (replicate (bs + twice) backslash ++ close (room - bs - twice))
end_round again bs (c ∷ cs) room =
    let twice = if c == quote then min bs (room - bs) else 0 in
    let r = copy_char c cs (room - bs - twice) in
    append_to (replicate (bs + twice) backslash ++ r.0) (again r.2 r.1)

-- The loop: what it and the closing quote write. `none` means that the fuel ran out.
unfoldable pub escape_loop : ℕ → List ℕ → ℕ → Option (List ℕ)
escape_loop zero input room = none
escape_loop (suc fuel) [] room = some (close room)
escape_loop (suc fuel) (i ∷ input) room =
    let slashes = copy_slashes (i ∷ input) room in
    end_round (escape_loop fuel) slashes.0 slashes.1 room

-- The whole function, with `room` places between `out` and the `end` that it is called with. If
-- not more than two are there, nothing is written.
unfoldable pub escape_shell_arg : ℕ → List ℕ → ℕ → Option (List ℕ)
escape_shell_arg fuel input room =
    if leb room 2 then some [] else append_to (quote ∷ []) (escape_loop fuel input (room - 3))

-- `launchRunscript`: the user, a space and the password, in a buffer with 198 places before `end`.
unfoldable pub run_params : ℕ → List ℕ → List ℕ → Option (List ℕ)
run_params fuel user pass = elim (escape_shell_arg fuel user 198) [
  | none ↦ none
  | some u ↦ append_to (u ++ b' ' ∷ []) (escape_shell_arg fuel pass (198 - (length u + 1)))
]
