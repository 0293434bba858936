-- ===== src/Examples/Quoting.antt =====
-- Examples for the quoted parameters.
use mltk.Common.{
  ℕ, ◌≡◌, ◌≤◌, ◌<◌, ◌+◌, ◌⊎◌, refl, true, false, ◌++◌, Option, All, pos, skip_space, read_digits,
  List, [], ◌∷◌, some, none, codes, arith, length, replicate,
}
use mltk.Examples.Data.{alice, secret}
use mltk.Winres.Quote.{quote, escape_shell_arg, run_params}
use mltk.Winres.Scripts.{Scripts, Runner, Run, scan_name, launch_runscript}
use mltk.Winres.Scripts.Passwords.{IsAllowed, launch_runscript-IsAllowed}
use mltk.Winres.Quote.Room.{escape_shell_arg_room, run_params_hangs}
use mltk.Winres.Quote.Plain.{escaped, escape_shell_arg_plain}
use mltk.Winres.Quote.Argv.{parse_command_line}
use mltk.Winres.Quote.RoundTrip.{run_params-parse}

run_params-parse_example :
    (w : List ℕ) × (run_params 20 alice secret ≡ some w)
    × (parse_command_line w ≡ alice ∷ secret ∷ [])
unfolding escaped
run_params-parse_example =
    run_params-parse 20 alice secret (omega arith) (omega arith) (omega arith)

written : escape_shell_arg 20 alice 198 ≡ some (codes "\"alice\"")
unfolding escaped
written = escape_shell_arg_plain 20 alice 198 (omega arith) (omega arith)

escape_shell_arg_room_example :
    ((198 ≤ 2) × (codes "\"alice\"" ≡ []))
    ⊎ ((2 < 198)
        × (length alice + 1 ≤ length (codes "\"alice\""))
        × (length (codes "\"alice\"") + 2 ≤ 198))
escape_shell_arg_room_example = escape_shell_arg_room 20 alice 198 (codes "\"alice\"") written

run_params_hangs_example : run_params 20 alice (replicate 188 b'x') ≡ none
run_params_hangs_example =
    run_params_hangs 20 alice (replicate 188 b'x') (codes "\"alice\"") written (omega arith)
      (omega arith)

abbrev to_wide : List ℕ → Option (List ℕ)
to_wide text = some text

abbrev scripts : Scripts
scripts = record {
  utf8_to_wide = to_wide;
  acp_to_wide = to_wide;
  found =
      record { name = codes "10-2-1-login.cmd"; is_directory = false }
      ∷ record { name = codes "20-0-0.cmd"; is_directory = false }
      ∷ [];
  script_file = codes "B:\\runscript.cmd";
  script_visibility = pos 1;
  has_pass_creds = false;
}

name_read : scan_name (codes "10-2-1-login.cmd") ≡ some (pos 2, pos 1)
unfolding scan_name skip_space read_digits
name_read = refl

abbrev waiting : Runner
waiting = record { fails = 3; script_done = false }

launch_runscript-IsAllowed_example :
    (run : Run) × (launch_runscript 20 scripts alice (some secret) waiting ≡ some run)
    × (run.after.script_done ≡ true)
    × All (IsAllowed scripts (quote ∷ escaped 0 alice ++ (quote ∷ []))) run.launched
unfolding escaped
launch_runscript-IsAllowed_example =
    launch_runscript-IsAllowed 20 scripts alice secret alice secret waiting refl refl refl
      (omega arith) (omega arith) (omega arith)
