-- ===== src/Brightness/Events.antt =====
-- `handle_fd` of core/modules/slx-brightness/src/main.c: it puts messages together from reads of an
-- input device.
pub mod Messages
use mltk.Common.{
  ℕ, suc, ◌+◌, ◌-◌, Bool, true, false, List, [], ◌∷◌, ◌++◌, if◌then◌else◌, ◌==◌, length, take, drop,
  min,
}

-- `sizeof(struct input_event)` on a machine with 64 bits.
abbrev pub event_size : ℕ
event_size = 24

-- What a read finds: at most some number of bytes that are ready, EINTR, EAGAIN, another error.
pub data Input : Type 0 where
  ready : ℕ → Input
  interrupted would_block broken : Input

-- The messages and the result; or the messages before a read that would start in front of the
-- buffer.
pub data Handled : Type 0 where
  handled : List (List ℕ) → Bool → Handled
  overrun : List (List ℕ) → Handled

-- The loop, on what the reads find and the bytes that the device still has, with the part of a
-- message that is in the buffer and the messages before it. EINTR is taken for a read of -1 bytes.
-- Past the end of the inputs a read would block.
unfoldable pub fd_loop : List Input → List ℕ → List ℕ → List (List ℕ) → Handled
fd_loop [] bytes part messages = handled messages true
fd_loop (would_block ∷ inputs) bytes part messages = handled messages true
fd_loop (broken ∷ inputs) bytes part messages = handled messages false
fd_loop (interrupted ∷ inputs) bytes [] messages = overrun messages
fd_loop (interrupted ∷ inputs) bytes (c ∷ part) messages =
    fd_loop inputs bytes (take (length part) (c ∷ part)) messages
fd_loop (ready n ∷ inputs) bytes part messages =
    let num = min n (event_size - length part) in
    let fresh = take num bytes in
    let left = drop num bytes in
    let whole = fd_loop inputs left [] (messages ++ (part ++ fresh) ∷ []) in
    let more = fd_loop inputs left (part ++ fresh) messages in
    if length fresh == 0
    then handled messages true
    else if length fresh + length part == event_size
    then whole
    else more

unfoldable pub handle_fd : List Input → List ℕ → Handled
unfolding fd_loop
handle_fd inputs bytes = fd_loop inputs bytes [] []
