-- ===== src/Winres/Resolution/Timer.antt =====
-- `setResolution` and its timer `tmrResolution` in core/modules/run-virt/winres/src/winres.c.
use mltk.Common.{
  ℕ, suc, ◌%◌, Bool, true, false, not, ◌&&◌, ◌||◌, List, [], ◌∷◌, Option, if◌then◌else◌, ◌==◌, leb,
  ltb, ℤ,
}
use mltk.Winres.Resolution.{Code, done, not_supported, again, Resolution, parse_resolutions}
use mltk.Winres.Resolution.Layout.{Screens, is_resolution_fine}
use mltk.Winres.Resolution.Methods.{
  Device, set_res_win_multi, set_res_win_legacy, set_res_vmware, ScreenPath, set_res_modern,
}

-- `nres` and `res`: 0 before the settings are read, -1 if there is nothing in them.
pub data Config : Type 0 where
  unread : Config
  invalid : Config
  known : List Resolution → Config

-- The static variables. `call_count` is what `callCount` is in the next call.
pub record Resizer : Type 0 where
  pub config : Config
  pub call_count : ℕ
  pub tool : List ℕ

-- The settings, and what Windows answers during a call.
pub record Windows : Type 0 where
  pub resolution2 : List ℕ
  pub resolution : List ℕ
  pub programs : List ℕ
  pub screens : Screens
  pub paths : Option (List ScreenPath)
  pub has_multi : Bool
  pub devices : List Device
  pub applied : Bool
  pub exists : List ℕ → Bool
  pub execute : List ℕ → ℤ
  pub legacy : Resolution → List Bool

abbrev pub has_more : List Resolution → Bool
has_more [] = false
has_more (r ∷ []) = false
has_more (r ∷ s ∷ rs) = true

abbrev pub faked : Bool → Code → Code
faked fake done = if fake then again else done
faked fake not_supported = not_supported
faked fake again = again

-- The old way counts as failed in the first three calls if there are several screens.
abbrev pub try_legacy : Windows → ℕ → List Resolution → Code
try_legacy w count rs = faked (has_more rs && leb count 2) (set_res_win_legacy w.legacy rs)

abbrev pub or_legacy : Windows → ℕ → List Resolution → Code → Code
or_legacy w count rs done = done
or_legacy w count rs again = again
or_legacy w count rs not_supported = try_legacy w count rs

-- The result, and the static `path` of `setResVMware`.
abbrev pub try_vmware : Windows → ℕ → List ℕ → List Resolution → Code × List ℕ
try_vmware w count tool rs =
    let run = set_res_vmware w.exists w.execute w.programs tool rs in
    (or_legacy w count rs run.code, run.path)

abbrev pub or_vmware : Windows → ℕ → List ℕ → List Resolution → Code → Code × List ℕ
or_vmware w count tool rs done = (done, tool)
or_vmware w count tool rs again = (again, tool)
or_vmware w count tool rs not_supported = try_vmware w count tool rs

-- The ways take turns.
abbrev pub try_methods : Windows → ℕ → List ℕ → List Resolution → Code × List ℕ
try_methods w count tool rs =
    if count % 3 == 0
    then or_vmware w count tool rs (set_res_win_multi w.has_multi w.devices w.applied rs).0
    else if count % 3 == 1
    then try_vmware w count tool rs
    else (try_legacy w count rs, tool)

-- Without an error, and where the screens cannot be queried, it counts as done.
abbrev pub result_of : Code → Code → Code
result_of not_supported done = done
result_of not_supported not_supported = again
result_of not_supported again = again
result_of done ret = again
result_of again ret = again

-- After `isResolutionFine`; `count` is `callCount`.
abbrev pub after_check : Windows → ℕ → List Resolution → Resizer → Code → Code × Resizer
after_check w count rs s done = (done, s)
after_check w count rs s not_supported =
    let r = try_methods w count s.tool rs in (result_of not_supported r.0, record s { tool = r.1 })
after_check w count rs s again =
    let r = try_methods w count s.tool rs in (result_of again r.0, record s { tool = r.1 })

abbrev pub with_known : Windows → ℕ → Resizer → List Resolution → Code × Resizer
with_known w count s [] = (done, record s { config = invalid })
with_known w count s (r ∷ rs) =
    after_check w count (r ∷ rs) (record s { config = known (r ∷ rs) })
      (is_resolution_fine w.screens (r ∷ rs))

abbrev pub with_config : Windows → ℕ → Resizer → Config → Code × Resizer
with_config w count s invalid = (done, s)
with_config w count s unread = with_known w count s (parse_resolutions w.resolution2 w.resolution)
with_config w count s (known rs) = after_check w count rs s (is_resolution_fine w.screens rs)

-- The physical screens first. `s` has counted the call.
abbrev pub after_modern : Windows → ℕ → Resizer → Code → Code × Resizer
after_modern w count s done = (done, record s { call_count = 0 })
after_modern w count s again = (again, s)
after_modern w count s not_supported = with_config w count s s.config

abbrev pub is_invalid : Config → Bool
is_invalid unread = false
is_invalid invalid = true
is_invalid (known rs) = false

unfoldable pub set_resolution : Bool → Windows → Resizer → Code × Resizer
set_resolution prefer_physical w s =
    let s' = record s { call_count = suc s.call_count } in
    if is_invalid s.config || ltb 10 s.call_count
    then (done, s')
    else after_modern w s.call_count s'
        (if prefer_physical then (set_res_modern w.paths).0 else not_supported)

-- The timer, whether it runs, and the variables.
pub record Timer : Type 0 where
  pub running : Bool
  pub resizer : Resizer

abbrev pub is_done : Code → Bool
is_done done = true
is_done not_supported = false
is_done again = false

-- A tick: it stops the timer once there is nothing left to do. One that comes while another is
-- handled is dropped by `bInProc`, and is none here.
unfoldable pub tmr_resolution : Bool → Windows → Timer → Timer
unfolding set_resolution
tmr_resolution prefer_physical w t =
    let r = set_resolution prefer_physical w t.resizer in
    if t.running then record { running = not (is_done r.0); resizer = r.1 } else t

unfoldable pub ticks : Bool → List Windows → Timer → Timer
unfolding tmr_resolution
ticks prefer_physical [] t = t
ticks prefer_physical (w ∷ ws) t = ticks prefer_physical ws (tmr_resolution prefer_physical w t)
