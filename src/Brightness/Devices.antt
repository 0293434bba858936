-- ===== src/Brightness/Devices.antt =====
-- `open_events` of core/modules/slx-brightness/src/main.c: the search for input devices.
pub mod Reached
pub mod Wanted
pub mod Gaps
use mltk.Common.{
  ℕ, zero, suc, ◌+◌, Bool, true, false, not, ◌&&◌, List, [], ◌∷◌, Option, none, some, if◌then◌else◌,
  ltb, eqb_list, codes,
}

-- What there is at a number: no device, one that cannot be opened, or one with its name, if it has
-- one that can be read, which `epoll_ctl` takes or not.
pub data Slot : Type 0 where
  absent denied : Slot
  device : Option (List ℕ) → Bool → Slot

abbrev wanted_name : Bool → Option (List ℕ) → Bool
wanted_name all none = false
wanted_name all (some name) = if all then true else eqb_list (codes "Video Bus") name

-- Whether the device is added to the set.
unfoldable pub wanted : Bool → Slot → Bool
wanted all absent = false
wanted all denied = false
wanted all (device name adds) = wanted_name all name && adds

abbrev pub cons_if : Bool → ℕ → Option (List ℕ) → Option (List ℕ)
cons_if b id none = none
cons_if b id (some ids) = some (if b then id ∷ ids else ids)

-- What a number adds to the rest of the search, which after a gap and after a device is not the
-- same: ten numbers in a row without a device end it.
unfoldable pub at_slot : Bool → ℕ → ℕ → Slot → Option (List ℕ) → Option (List ℕ) → Option (List ℕ)
unfolding wanted
at_slot all id fails absent gap next = if ltb (fails + 1) 10 then gap else some []
at_slot all id fails denied gap next = some []
at_slot all id fails (device name adds) gap next = cons_if (wanted all (device name adds)) id next

-- The loop from a number on, after `fails` numbers in a row without a device: the numbers of the
-- devices that are added. `none` means that the fuel ran out.
unfoldable pub open_loop : ℕ → Bool → (ℕ → Slot) → ℕ → ℕ → Option (List ℕ)
unfolding at_slot
open_loop zero all slots id fails = none
open_loop (suc fuel) all slots id fails =
    at_slot all id fails (slots id) (open_loop fuel all slots (id + 1) (fails + 1))
      (open_loop fuel all slots (id + 1) 0)

unfoldable pub open_events : ℕ → Bool → (ℕ → Slot) → Option (List ℕ)
unfolding open_loop
open_events fuel all slots = open_loop fuel all slots 0 0
