-- ===== src/Brightness/Main.antt =====
-- `main` of core/modules/slx-brightness/src/main.c, and its loop over the devices that have
-- something to read.
pub mod Kept
use mltk.Common.{
  ℕ, suc, ◌+◌, Bool, true, false, not, ◌&&◌, List, [], ◌∷◌, ◌++◌, Option, none, some, if◌then◌else◌,
  ltb, eqb_list, codes, ℤ, pos, ◌-ℤ◌, length, get_or, ◌*◌,
}
use mltk.Brightness.Files.{Read, Write}
use mltk.Brightness.Keys.{InputEvent, Settings, handle_message, read_settings}
use mltk.Brightness.Events.{Input, Handled, handled, overrun, handle_fd}
use mltk.Brightness.Devices.{Slot, open_events}

-- Two bytes and four bytes of a message, the lowest first; the value has a sign.
abbrev pub word : List ℕ → ℕ → ℕ
word m i = get_or m i 0 + 256 * get_or m (i + 1) 0

abbrev pub signed : ℕ → ℤ
signed v = if ltb v 2147483648 then pos v else pos v -ℤ pos 4294967296

-- `struct input_event`: 16 bytes of time, the type, the code and the value.
unfoldable pub event_of : List ℕ → InputEvent
event_of m = record {
  type_ = word m 16;
  code_ = word m 18;
  value = signed (word m 20 + 65536 * word m 22);
}

-- What a message finds of the brightness file.
pub record Access : Type 0 where
  pub reads : Option (List Read)
  pub writes : Option (List Write)

abbrev pub push_written : Option (List ℕ) → List (List ℕ) → List (List ℕ)
push_written none written = written
push_written (some content) written = content ∷ written

-- What is written to the file, message by message.
unfoldable pub handle_messages : Settings → List Access → List (List ℕ) → List (List ℕ)
unfolding event_of
handle_messages s access [] = []
handle_messages s [] (m ∷ ms) =
    push_written (handle_message s (event_of m) none none) (handle_messages s [] ms)
handle_messages s (a ∷ access) (m ∷ ms) =
    push_written (handle_message s (event_of m) a.reads a.writes) (handle_messages s access ms)

-- A device that has something to read: what the reads find, the bytes, what its messages find of
-- the brightness file (past the end it cannot be opened), and whether `epoll_ctl` removes it.
pub record Turn : Type 0 where
  pub fd : ℕ
  pub inputs : List Input
  pub bytes : List ℕ
  pub access : List Access
  pub removes : Bool

-- `valid`, the devices that are closed, and what has been written to the file.
pub record Loop : Type 0 where
  pub valid : ℤ
  pub closed : List ℕ
  pub written : List (List ℕ)

abbrev pub note : List (List ℕ) → Loop → Loop
note contents l = record l { written = l.written ++ contents }

abbrev pub remove : ℕ → Loop → Loop
remove fd l = record l { valid = l.valid -ℤ pos 1; closed = fd ∷ l.closed }

-- The end: it waits for devices, it has exited, or a read has started in front of the buffer.
pub data End : Type 0 where
  waiting : Loop → End
  exited : ℕ → Loop → End
  lost : Loop → End

abbrev pub after_fd : Settings → Turn → Handled → (Loop → End) → Loop → End
after_fd s t (overrun ms) next l = lost (note (handle_messages s t.access ms) l)
after_fd s t (handled ms ok) next l =
    let l' = note (handle_messages s t.access ms) l in
    if not ok && t.removes then next (remove t.fd l') else next l'

-- The devices of one `epoll_wait`, and what comes after them.
unfoldable pub handle_turns : Settings → List Turn → (Loop → End) → Loop → End
unfolding handle_messages
handle_turns s [] next l = next l
handle_turns s (t ∷ ts) next l =
    after_fd s t (handle_fd t.inputs t.bytes) (handle_turns s ts next) l

-- What `epoll_wait` gives: devices, EINTR, or another error.
pub data Wait : Type 0 where
  ready_devices : List Turn → Wait
  wait_interrupted wait_failed : Wait

-- The loop. With no devices, and after an error, it ends.
unfoldable pub wait_loop : Settings → List Wait → Loop → End
unfolding handle_turns
wait_loop s [] l = waiting l
wait_loop s (wait_failed ∷ ws) l = exited 1 l
wait_loop s (wait_interrupted ∷ ws) l = wait_loop s ws l
wait_loop s (ready_devices [] ∷ ws) l = exited 0 l
wait_loop s (ready_devices (t ∷ ts) ∷ ws) l = handle_turns s (t ∷ ts) (wait_loop s ws) l

abbrev pub at_first : ℕ → Loop
at_first opened = record { valid = pos opened; closed = []; written = [] }

-- With the devices that have been opened.
abbrev pub with_devices : Settings → List Wait → Option (List ℕ) → Option End
with_devices s ws none = none
with_devices s ws (some []) = some (exited 0 (at_first 0))
with_devices s ws (some (id ∷ ids)) = some (wait_loop s ws (at_first (length (id ∷ ids))))

abbrev pub with_settings : ℕ → Bool → Bool → (ℕ → Slot) → List Wait → Option Settings → Option End
with_settings fuel all created slots ws none = some (exited 1 (at_first 0))
with_settings fuel all created slots ws (some s) =
    let run = with_devices s ws (open_events fuel all slots) in
    if created then run else some (exited 1 (at_first 0))

abbrev pub is_flag : List ℕ → List (List ℕ) → Bool
is_flag flag [] = false
is_flag flag (arg ∷ args) = eqb_list flag arg

abbrev pub without_all : List (List ℕ) → List (List ℕ)
without_all [] = []
without_all (arg ∷ args) = if eqb_list (codes "-a") arg then args else arg ∷ args

-- On the arguments after the program's name; with `-l` the devices are only listed. `none` means
-- that the fuel of the search for devices ran out.
unfoldable pub main : ℕ → List (List ℕ) → Bool → (ℕ → Slot) → List Wait → Option End
unfolding wait_loop
main fuel args created slots ws =
    if is_flag (codes "-l") args
    then some (exited 0 (at_first 0))
    else with_settings fuel (is_flag (codes "-a") args) created slots ws
        (read_settings (without_all args))
