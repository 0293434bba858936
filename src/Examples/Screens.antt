-- ===== src/Examples/Screens.antt =====
-- Examples for the screen resolution of the guest.
use mltk.Common.{
  ◌≡◌, ◌↔◌, ◌≤◌, length, show_ℕ, decimal, refl, true, false, [], ◌∷◌, none, codes, arith, pos,
  negsuc, replicate, skip_space, read_digits, starts_with, some,
}
use mltk.Winres.Resolution.{Resolution, done, parse_resolutions}
use mltk.Winres.Resolution.Parse.{print_resolutions, more_text, parse_resolutions-print}
use mltk.Winres.Resolution.Layout.{Display, displays, slots, is_resolution_fine}
use mltk.Winres.Resolution.Fine.{SameScreens, shown, is_resolution_fine_iff}
use mltk.Winres.Resolution.Methods.{
  Device, set_res_win_multi, ScreenPath, new_paths, set_res_modern,
}
use mltk.Winres.Resolution.Selected.{IsSelection, set_res_modern-IsSelection}
use mltk.Winres.Resolution.Requested.{set_res_win_multi-is_resolution_fine}
use mltk.Winres.Resolution.Timer.{Windows, Timer, unread, ticks}
use mltk.Winres.Resolution.Ends.{ticks_end}

abbrev small : Resolution
small = record { w = 800; h = 600 }

abbrev big : Resolution
big = record { w = 1920; h = 1080 }

short : length (print_resolutions (small ∷ big ∷ [])) ≤ 299
unfolding print_resolutions more_text show_ℕ decimal
short = omega arith

parse_resolutions-print_example :
    parse_resolutions (print_resolutions (small ∷ big ∷ [])) [] ≡ small ∷ big ∷ []
parse_resolutions-print_example =
    parse_resolutions-print small (big ∷ []) [] (omega arith, omega arith)
      ((omega arith, omega arith), tt) (omega arith, omega arith) ((omega arith, omega arith), tt)
      (omega arith) short

-- A resolution that is too small is passed over, and the text is read up to what is malformed.
too_small : parse_resolutions (codes "100x100 800x600;1x1") [] ≡ []
unfolding parse_resolutions skip_space read_digits
too_small = refl

abbrev on_the_right : Display
on_the_right = record { queried = true; left = pos 800; width = 1920; height = 1080 }

abbrev on_the_left : Display
on_the_left = record { queried = true; left = pos 0; width = 800; height = 600 }

abbrev off : Display
off = record { queried = false; left = pos 0; width = 0; height = 0 }

is_resolution_fine_iff_example :
    (is_resolution_fine (displays (on_the_right ∷ off ∷ on_the_left ∷ [])) (small ∷ big ∷ [])
      ≡ done)
    ↔ SameScreens (shown (on_the_right ∷ off ∷ on_the_left ∷ [])) (slots 0 (small ∷ big ∷ []))
is_resolution_fine_iff_example =
    is_resolution_fine_iff (on_the_right ∷ off ∷ on_the_left ∷ []) (small ∷ big ∷ [])
      (refl, (refl, (refl, tt)))

-- What a long does not hold is read as its largest number.
clamped : parse_resolutions (codes "3000000000x480") [] ≡ record { w = 2147483647; h = 480 } ∷ []
unfolding parse_resolutions skip_space read_digits
clamped = refl

-- A screen at -1 is taken for one that has been found.
hidden_at_minus_one :
    is_resolution_fine
      (displays
        (on_the_left ∷ record { queried = true; left = negsuc 0; width = 800; height = 600 } ∷ []))
      (small ∷ [])
    ≡ done
unfolding is_resolution_fine
hidden_at_minus_one = refl

abbrev ready : Device
ready = record { has_current = true; has_first = true; left = pos 0; accepts = true }

abbrev broken : Device
broken = record { has_current = false; has_first = false; left = pos 0; accepts = true }

set_res_win_multi-is_resolution_fine_example :
    is_resolution_fine
      (displays
        (set_res_win_multi true (ready ∷ broken ∷ ready ∷ ready ∷ []) true (small ∷ big ∷ [])).1)
      (small ∷ big ∷ [])
    ≡ done
unfolding set_res_win_multi
set_res_win_multi-is_resolution_fine_example =
    set_res_win_multi-is_resolution_fine true true (ready ∷ broken ∷ ready ∷ ready ∷ [])
      (small ∷ big ∷ []) ((omega arith, omega arith), ((omega arith, omega arith), tt)) refl

abbrev windows : Windows
windows = record {
  resolution2 = [];
  resolution = codes "800x600";
  programs = codes "C:\\Program Files (x86)";
  screens = displays [];
  paths = none;
  has_multi = true;
  devices = ready ∷ [];
  applied = false;
  exists = λ p. false;
  execute = λ c. negsuc 0;
  legacy = λ r. [];
}

abbrev timer : Timer
timer = record { running = true; resizer = record { config = unread; call_count = 0; tool = [] } }

ticks_end_example : (ticks false (replicate 12 windows) timer).running ≡ false
ticks_end_example = ticks_end false (replicate 12 windows) timer (omega arith)

abbrev nvidia : ScreenPath
nvidia = record {
  target_id = 3;
  adapter_id = 1;
  available = true;
  adapter_name = some (codes "PCI#VEN_10DE&DEV_1");
}

abbrev virtual : ScreenPath
virtual = record { target_id = 3; adapter_id = 2; available = true; adapter_name = none }

one_path : new_paths [] (virtual ∷ nvidia ∷ nvidia ∷ []) ≡ nvidia ∷ []
unfolding new_paths starts_with
one_path = refl

set_res_modern-IsSelection_example :
    IsSelection
      (virtual ∷ nvidia ∷ nvidia ∷ [])
      (set_res_modern (some (virtual ∷ nvidia ∷ nvidia ∷ [])))
set_res_modern-IsSelection_example = set_res_modern-IsSelection (virtual ∷ nvidia ∷ nvidia ∷ [])
