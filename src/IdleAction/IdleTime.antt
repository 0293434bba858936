-- ===== src/IdleAction/IdleTime.antt =====
-- core/modules/idleaction/xprintidle.c. `workaroundCreepyXServer` is kept there though its call is
-- commented out.
pub mod Workaround
use mltk.Common.{
  ℕ, ◌+◌, ◌*◌, ◌%◌, ◌^◌, Bool, not, ◌==◌, List, [], ◌∷◌, ◌++◌, Option, none, some, if◌then◌else◌,
  ltb, show_ℕ,
}

-- What the calls of the main function give: the extension, the memory, and the idle time.
pub record Display : Type 0 where
  pub opens : Bool
  pub has_extension : Bool
  pub has_memory : Bool
  pub idle : Option ℕ

-- The exit code and the text on stdout.
pub record Exit : Type 0 where
  pub code : ℕ
  pub printed : List ℕ

abbrev fail : Exit
fail = record { code = 1; printed = [] }

unfoldable pub main : ℕ → Display → Exit
main argc d =
    if not (argc == 1)
    then fail
    else if not d.opens
    then fail
    else if not d.has_extension
    then fail
    else if not d.has_memory
    then fail
    else elim d.idle [
      | none ↦ fail
      | some ms ↦ record { code = 0; printed = show_ℕ ms ++ b'\n' ∷ [] }
    ]

pub data DpmsMode : Type 0 where
  on standby_mode suspend_mode off_mode : DpmsMode

-- The timeouts, in seconds, are `CARD16`.
pub record Dpms : Type 0 where
  pub supported : Bool
  pub capable : Bool
  pub onoff : Bool
  pub state : DpmsMode
  pub standby : ℕ
  pub suspend : ℕ
  pub off : ℕ

-- The time after which the server is in the state, in milliseconds.
unfoldable pub state_timeout : Dpms → ℕ
state_timeout d = elim d.state [
  | on ↦ 0
  | standby_mode ↦ d.standby * 1000
  | suspend_mode ↦ (d.suspend + d.standby) * 1000
  | off_mode ↦ (d.off + d.suspend + d.standby) * 1000
]

-- `unsigned long` has 64 bits.
unfoldable pub workaround_creepy_x_server : Dpms → ℕ → ℕ
unfolding state_timeout
workaround_creepy_x_server d idle =
    let timeout = state_timeout d in
    if d.supported
    then if d.capable
      then if d.onoff then if ltb idle timeout then (idle + timeout) % 2 ^ 64 else idle else idle
      else idle
    else idle
