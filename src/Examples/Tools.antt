-- ===== src/Examples/Tools.antt =====
-- Examples for the small programs.
use mltk.Common.{
  ℕ, ◌≡◌, ◌-◌, ◌%◌, ◌++◌, set, starts_with, inr, atoi, refl, true, List, [], ◌∷◌, some, codes,
  length, replicate, take, pos, map, show_ℤ, show_ℕ, decimal,
}
use mltk.UsbPatcher.{File, vmware17, usb_patcher, exit, main_vmware17}
use mltk.UsbPatcher.Outcome.{Explains, usb_patcher_lem}
use mltk.UsbPatcher.Twice.{usb_patcher_twice}
use mltk.Brightness.Files.{chunk, wrote, file_get_contents, file_put_contents}
use mltk.Brightness.Keys.{InputEvent, Settings, handle_message, step_size}
use mltk.FwTool.{Arg, exec_argv}
use mltk.FwTool.Argv.{up_to_null, exec_argv_lem}

-- One byte, the sequence, and another page with an end that is not mapped.
abbrev binary : File
binary = record {
  opens = true;
  seeks = true;
  page_size = 8;
  maps = true;
  bytes = 0 ∷ vmware17.sequence ++ replicate 12 1;
}

usb_patcher_lem_example :
    Explains vmware17
      (take (length binary.bytes - length binary.bytes % 8) binary.bytes)
      binary.bytes
      (usb_patcher vmware17 binary)
usb_patcher_lem_example =
    usb_patcher_lem vmware17 0x45
      (0x89 ∷ 0x3c ∷ 0x24 ∷ 0x49 ∷ 0x8d ∷ 0x7c ∷ 0x24 ∷ 0x04 ∷ 0x48 ∷ 0x8d ∷ 0x55 ∷ 0x01 ∷ 0x4c
        ∷ 0x89 ∷ 0xf6 ∷ [])
      binary refl refl refl refl

-- The program changes the third byte of the sequence.
patched : main_vmware17 binary ≡ exit 0 (set binary.bytes 3 0x34)
unfolding main_vmware17 usb_patcher starts_with
patched = refl

usb_patcher_twice_example :
    usb_patcher vmware17 (record binary { bytes = set binary.bytes 3 0x34 })
    ≡ exit 4 (set binary.bytes 3 0x34)
unfolding main_vmware17
usb_patcher_twice_example =
    usb_patcher_twice vmware17 binary (set binary.bytes 3 0x34) (inr refl) refl refl refl patched

exec_argv_lem_example :
    (vnargv : List Arg) × (exec_argv (codes "fwtool" ∷ codes "-f" ∷ codes "x" ∷ []) ≡ some vnargv)
    × (length vnargv ≡ 10)
    × (up_to_null vnargv
        ≡ some (
            codes "bash"
            ∷ codes "/opt/openslx/vmchooser/scripts/set-firewall"
            ∷ take 7 (codes "-f" ∷ codes "x" ∷ [])))
exec_argv_lem_example = exec_argv_lem (codes "fwtool") (codes "-f") (codes "x" ∷ [])

abbrev settings : Settings
settings = record { min_ = pos 10; max_ = pos 100; step_ = pos 9 }

accepted : step_size (pos 10) (pos 100) (pos 10) ≡ some settings
unfolding step_size
accepted = refl

abbrev parts : List (List ℕ)
parts = codes "9" ∷ codes "5\n" ∷ []

abbrev up : InputEvent
up = record { type_ = 1; code_ = 225; value = pos 1 }

pressed :
    handle_message settings up (some (map chunk parts)) (some (wrote 3 ∷ [])) ≡ some (codes "100")
unfolding handle_message file_get_contents file_put_contents show_ℕ decimal show_ℤ atoi
pressed = refl
