-- ===== src/Winres/Resolution/Methods.antt =====
-- `setResWinMulti`, `setResWinLegacy`, `setResVMware` and `setResModern` of
-- core/modules/run-virt/winres/src/winres.c: the ways to change the resolution. Whether Windows has
-- a function, and what it answers, are parameters.
use mltk.Common.{
  ℕ, zero, suc, ◌+◌, Bool, true, false, not, ◌&&◌, ◌||◌, List, [], ◌∷◌, ◌++◌, Option, none, some,
  if◌then◌else◌, ◌==◌, ℤ, pos, eqb_ℤ, length, take, drop, starts_with, codes, show_ℕ,
}
use mltk.Winres.Mount.{is_empty}
use mltk.Winres.Folders.Shortcut.{contains}
use mltk.Winres.Resolution.{Code, done, not_supported, again, Resolution}
use mltk.Winres.Resolution.Layout.{Display}

-- A display device: whether its current mode, or else its first one, can be queried, the left edge
-- of that mode, and whether a change is accepted.
pub record Device : Type 0 where
  pub has_current : Bool
  pub has_first : Bool
  pub left : ℤ
  pub accepts : Bool

-- What is asked for: the display that each device is to be, `ok`, and the resolutions left over.
pub record Plan : Type 0 where
  pub wanted : List Display
  pub accepted : Bool
  pub left_over : List Resolution

abbrev pub push_display : Display → Bool → Plan → Plan
push_display d accepts p = record p { wanted = d ∷ p.wanted; accepted = accepts && p.accepted }

-- A device that cannot be queried is passed over. The others get the resolutions in turn, and those
-- after the last resolution are disabled.
unfoldable pub plan_devices : ℕ → List Resolution → List Device → Plan
plan_devices sx rs [] = record { wanted = []; accepted = true; left_over = rs }
plan_devices sx [] (d ∷ ds) =
    let rest = plan_devices sx [] ds in
    if d.has_current || d.has_first
    then push_display (record { queried = true; left = d.left; width = 0; height = 0 }) d.accepts
        rest
    else push_display (record { queried = false; left = d.left; width = 0; height = 0 }) true rest
plan_devices sx (r ∷ rs) (d ∷ ds) =
    let used = plan_devices (sx + r.w) rs ds in
    let skipped = plan_devices sx (r ∷ rs) ds in
    if d.has_current || d.has_first
    then push_display (record { queried = true; left = pos sx; width = r.w; height = r.h })
        d.accepts used
    else push_display (record { queried = false; left = d.left; width = 0; height = 0 }) true
        skipped

abbrev pub no_more : List Resolution → Code
no_more [] = done
no_more (r ∷ rs) = again

-- `applied` is the answer to the last call, which makes the changes.
unfoldable pub set_res_win_multi : Bool → List Device → Bool → List Resolution → Code × List Display
unfolding plan_devices
set_res_win_multi has_functions devices applied rs =
    let p = plan_devices 0 rs devices in
    if not has_functions
    then (not_supported, [])
    else if not (applied && p.accepted)
    then (again, p.wanted)
    else (no_more p.left_over, p.wanted)

-- The answers to the tries, of which there are so many at most.
abbrev pub accepted_one : ℕ → List Bool → Code
accepted_one zero answers = again
accepted_one (suc n) [] = again
accepted_one (suc n) (true ∷ answers) = done
accepted_one (suc n) (false ∷ answers) = accepted_one n answers

-- The size of the first resolution, with four sets of flags, until one is accepted.
unfoldable pub set_res_win_legacy : (Resolution → List Bool) → List Resolution → Code
set_res_win_legacy answers [] = again
set_res_win_legacy answers (r ∷ rs) = accepted_one 4 (answers r)

-- The text without the first " (x86)".
unfoldable pub strip_x86 : List ℕ → List ℕ
strip_x86 [] = []
strip_x86 (c ∷ cs) =
    let rest = c ∷ strip_x86 cs in
    if starts_with (c ∷ cs) (codes " (x86)") then drop 6 (c ∷ cs) else rest

abbrev pub tool_path : List ℕ → List ℕ
tool_path programs = take 259 (programs ++ codes "\\VMware\\VMware Tools\\VMwareResolutionSet.exe")

-- The arguments for the screens, side by side from the left.
unfoldable pub screen_args : ℕ → List Resolution → List ℕ
screen_args sx [] = []
screen_args sx (r ∷ rs) =
    codes " , "
    ++ (show_ℕ sx
        ++ (codes " 0 " ++ (show_ℕ r.w ++ b' ' ∷ (show_ℕ r.h ++ screen_args (sx + r.w) rs))))

abbrev pub tool_command : List Resolution → List ℕ
tool_command rs =
    take 259 (codes "VMwareResolutionSet.exe 0 " ++ (show_ℕ (length rs) ++ screen_args 0 rs))

-- A call: the code, the static `path` after it, and the command that is run.
pub record ToolRun : Type 0 where
  pub code : Code
  pub path : List ℕ
  pub command : Option (List ℕ)

abbrev pub run_tool : (List ℕ → ℤ) → List ℕ → List Resolution → ToolRun
run_tool execute path rs = record {
  code = if eqb_ℤ (execute (tool_command rs)) (pos 0) then done else again;
  path = path;
  command = some (tool_command rs);
}

abbrev pub with_tool : (List ℕ → Bool) → (List ℕ → ℤ) → List ℕ → List Resolution → ToolRun
with_tool exists execute path rs =
    if exists path
    then run_tool execute path rs
    else record { code = not_supported; path = path; command = none }

-- `execute` gives the exit code, or a negative number where the tool cannot be run.
unfoldable pub set_res_vmware :
    (List ℕ → Bool) → (List ℕ → ℤ) → List ℕ → List ℕ → List Resolution → ToolRun
unfolding strip_x86 screen_args
set_res_vmware exists execute programs path rs =
    let full = tool_path programs in
    if is_empty path
    then with_tool exists execute (if exists full then full else strip_x86 full) rs
    else with_tool exists execute path rs

-- A path from an adapter to a screen: the screen's number and adapter, whether it is available, and
-- the name of the adapter, if it can be read.
pub record ScreenPath : Type 0 where
  pub target_id : ℕ
  pub adapter_id : ℕ
  pub available : Bool
  pub adapter_name : Option (List ℕ)

unfoldable pub is_real : Option (List ℕ) → Bool
unfolding contains
is_real none = false
is_real (some name) =
    contains name (codes "#VEN_10DE")
    || (contains name (codes "#VEN_1022")
        || (contains name (codes "#VEN_1002") || contains name (codes "#VEN_8086")))

unfoldable pub has_target : ScreenPath → List ScreenPath → Bool
has_target p [] = false
has_target p (q ∷ qs) =
    (p.target_id == q.target_id && p.adapter_id == q.adapter_id) || has_target p qs

-- The paths that are switched on: one for each available screen of a real adapter.
unfoldable pub new_paths : List ScreenPath → List ScreenPath → List ScreenPath
unfolding is_real has_target
new_paths chosen [] = chosen
new_paths chosen (p ∷ ps) =
    new_paths
      (if not (has_target p chosen) && (is_real p.adapter_name && p.available)
        then chosen ++ p ∷ []
        else chosen)
      ps

-- The result, and the paths that `SetDisplayConfig` is called with.
abbrev pub any_paths : List ScreenPath → Code × List ScreenPath
any_paths [] = (not_supported, [])
any_paths (p ∷ ps) = (done, p ∷ ps)

-- `none` where Windows does not have the functions, or does not answer the query. What
-- `SetDisplayConfig` answers makes no difference.
unfoldable pub set_res_modern : Option (List ScreenPath) → Code × List ScreenPath
unfolding new_paths
set_res_modern none = (not_supported, [])
set_res_modern (some paths) = any_paths (new_paths [] paths)
