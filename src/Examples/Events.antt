-- ===== src/Examples/Events.antt =====
-- Examples for the messages and devices of slx-brightness, and the idle times.
use mltk.Common.{
  ℕ, zero, suc, ◌≡◌, ◌≤◌, ◌++◌, refl, true, false, List, [], ◌∷◌, some, codes, arith, replicate,
  show_ℕ, pos, eqb_list, atoi, show_ℤ,
}
use mltk.Brightness.Events.{Input, ready, would_block, broken, overrun, interrupted, handle_fd}
use mltk.Brightness.Events.Messages.{IsCut, handle_fd-IsCut}
use mltk.Brightness.Files.{chunk, wrote, file_get_contents, file_put_contents}
use mltk.Brightness.Keys.{read_settings, handle_message}
use mltk.Brightness.Main.{
  Turn, Wait, ready_devices, wait_interrupted, wait_failed, exited, without_all,
}
use mltk.Brightness.Main
use mltk.Brightness.Keys.Presses.{presses, range, presses_up}
use mltk.Brightness.Main.Kept.{IsKept, main-IsKept}
use mltk.Brightness.Devices.{Slot, absent, device, open_events}
use mltk.Brightness.Devices.Gaps.{HasWanted, open_events-HasWanted}
use mltk.IdleAction.IdleTime.{Dpms, suspend_mode}
use mltk.IdleAction.LockTime
use mltk.IdleAction.LockTime.{Kid, Tree, Status, exit}
use mltk.IdleAction.LockTime.Locked.{IsLocked, main_lem}

-- Messages in parts of at most 20 bytes.
abbrev reads : List Input
reads = replicate 50 (ready 20)

handle_fd-IsCut_example :
    IsCut (replicate 50 7) (handle_fd (reads ++ would_block ∷ []) (replicate 50 7))
handle_fd-IsCut_example = handle_fd-IsCut reads [] (replicate 50 7) (ground arith) (omega arith)

-- An interrupted read at the start of a message.
interrupted_read : handle_fd (interrupted ∷ ready 24 ∷ []) (replicate 24 7) ≡ overrun []
unfolding handle_fd
interrupted_read = refl

abbrev slots : ℕ → Slot
slots zero = device (some (codes "Power Button")) true
slots (suc zero) = absent
slots (suc (suc zero)) = device (some (codes "Video Bus")) true
slots (suc (suc (suc id))) = absent

slots_end : (id : ℕ) → 3 ≤ id → slots id ≡ absent
slots_end zero h = absurd (omega arith)
slots_end (suc zero) h = refl
slots_end (suc (suc zero)) h = absurd (omega arith)
slots_end (suc (suc (suc id))) h = refl

open_events-HasWanted_example : HasWanted false slots (open_events 14 false slots)
open_events-HasWanted_example = open_events-HasWanted 14 3 false slots slots_end (omega arith)

-- The time, and a press of the key for more brightness, in two reads.
abbrev press : List ℕ
press = replicate 16 7 ++ 1 ∷ 0 ∷ 225 ∷ 0 ∷ 1 ∷ 0 ∷ 0 ∷ 0 ∷ []

abbrev turn : Turn
turn = record {
  fd = 5;
  inputs = ready 20 ∷ ready 4 ∷ broken ∷ [];
  bytes = press;
  access = record { reads = some (chunk (codes "50\n") ∷ []); writes = some (wrote 2 ∷ []) } ∷ [];
  removes = true;
}

abbrev args : List (List ℕ)
args = codes "/sys/class/backlight/b/brightness" ∷ codes "10" ∷ codes "100" ∷ codes "10" ∷ []

abbrev waits : List Wait
waits = wait_interrupted ∷ ready_devices (turn ∷ []) ∷ wait_failed ∷ []

pressed :
    Main.main 14 args true slots waits
    ≡ some (exited 1 (record { valid = pos 0; closed = 5 ∷ []; written = codes "59" ∷ [] }))
unfolding Main.main read_settings eqb_list atoi open_events handle_fd handle_message
    file_get_contents file_put_contents show_ℤ
pressed = refl

main-IsKept_example : IsKept (read_settings (without_all args)) (Main.main 14 args true slots waits)
main-IsKept_example = main-IsKept 14 args true slots waits

presses_up_example : presses (range 10 100 8) 60 (show_ℕ 50) ≡ show_ℕ 100
presses_up_example =
    presses_up 10 100 8 50 60 (omega arith) (omega arith) (omega arith) (omega arith)

abbrev dpms : Dpms
dpms = record {
  supported = true;
  capable = true;
  onoff = true;
  state = suspend_mode;
  standby = 60;
  suspend = 120;
  off = 600;
}

abbrev saver : Kid
saver = record {
  window = 7;
  got_badwindow = false;
  success = true;
  typed = true;
  version = some (codes "5.36");
}

abbrev display : LockTime.Display
display = record {
  opens = true;
  tree = some (record { root = 1; root2 = 1; parent = 0; kids = saver ∷ [] });
  has_class = true;
  status = some (record { integer = true; items = 300 ∷ 1700000000 ∷ 0 ∷ [] });
  xa_lock = 300;
}

locked : LockTime.main display ≡ exit 0 (show_ℕ 1700000000 ++ b'\n' ∷ [])
unfolding LockTime.main
locked = refl

main_lem_example : IsLocked display (show_ℕ 1700000000 ++ b'\n' ∷ [])
main_lem_example = main_lem display (show_ℕ 1700000000 ++ b'\n' ∷ []) locked
