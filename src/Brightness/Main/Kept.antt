-- ===== src/Brightness/Main/Kept.antt =====
-- The program writes only brightnesses within the range of its arguments.
use mltk.Common.{
  ℕ, ◌≡◌, refl, sym, subst, Bool, true, false, not, ◌&&◌, List, [], ◌∷◌, ◌++◌, Option, none, some,
  if◌then◌else◌, arith, All, All-append, ℤ, ◌≤ℤ◌, show_ℤ, codes, length, atoi,
}
use mltk.Brightness.Keys.{Settings, handle_message, read_settings}
use mltk.Brightness.Keys.Range.{handle_message_range, step_size_lem}
use mltk.Brightness.Events.{Handled, handled, overrun, handle_fd}
use mltk.Brightness.Devices.{Slot, open_events}
use mltk.Brightness.Main.{
  event_of, Access, push_written, handle_messages, Turn, Loop, note, remove, End, waiting, exited,
  lost, after_fd, handle_turns, Wait, ready_devices, wait_interrupted, wait_failed, wait_loop,
  at_first, with_devices, with_settings, is_flag, without_all, main,
}

-- A part, from its start, of the text of a number in the range.
abbrev pub Fits : Settings → List ℕ → Type 0
Fits s content =
    (v : ℤ) × (rest : List ℕ) × (show_ℤ v ≡ content ++ rest) × (s.min_ ≤ℤ v) × (v ≤ℤ s.max_)

abbrev pub written_of : End → List (List ℕ)
written_of (waiting l) = l.written
written_of (exited code l) = l.written
written_of (lost l) = l.written

push_written-Fits :
    (s : Settings) (o : Option (List ℕ)) (written : List (List ℕ))
    → ((content : List ℕ) → o ≡ some content → Fits s content)
    → All (Fits s) written
    → All (Fits s) (push_written o written)
push_written-Fits s none written h w = w
push_written-Fits s (some content) written h w = (h content refl, w)

handle_messages-Fits :
    (s : Settings) (access : List Access) (ms : List (List ℕ))
    → s.min_ ≤ℤ s.max_
    → All (Fits s) (handle_messages s access ms)
unfolding handle_messages
handle_messages-Fits s access [] h = tt
handle_messages-Fits s [] (m ∷ ms) h =
    push_written-Fits s (handle_message s (event_of m) none none) (handle_messages s [] ms)
      (λ c e. (handle_message_range s (event_of m) none none c h e).1)
      (handle_messages-Fits s [] ms h)
handle_messages-Fits s (a ∷ access) (m ∷ ms) h =
    push_written-Fits s (handle_message s (event_of m) a.reads a.writes)
      (handle_messages s access ms)
      (λ c e. (handle_message_range s (event_of m) a.reads a.writes c h e).1)
      (handle_messages-Fits s access ms h)

-- What comes after a device keeps to the range.
abbrev Keeps : Settings → (Loop → End) → Type 0
Keeps s next = (l : Loop) → All (Fits s) l.written → All (Fits s) (written_of (next l))

if-Keeps :
    (s : Settings) (b : Bool) (x y : End)
    → All (Fits s) (written_of x)
    → All (Fits s) (written_of y)
    → All (Fits s) (written_of (if b then x else y))
if-Keeps s true x y h k = h
if-Keeps s false x y h k = k

after_fd-Keeps :
    (s : Settings) (t : Turn) (h : Handled) (next : Loop → End)
    → s.min_ ≤ℤ s.max_
    → Keeps s next
    → Keeps s (after_fd s t h next)
after_fd-Keeps s t (overrun ms) next range k l w =
    All-append (Fits s) l.written (handle_messages s t.access ms) w
      (handle_messages-Fits s t.access ms range)
after_fd-Keeps s t (handled ms ok) next range k l w =
    let l' : Loop = note (handle_messages s t.access ms) l in
    let w' : All (Fits s) l'.written =
      All-append (Fits s) l.written (handle_messages s t.access ms) w
        (handle_messages-Fits s t.access ms range) in
    if-Keeps s (not ok && t.removes) (next (remove t.fd l')) (next l') (k (remove t.fd l') w')
      (k l' w')

handle_turns-Keeps :
    (s : Settings) (ts : List Turn) (next : Loop → End)
    → s.min_ ≤ℤ s.max_
    → Keeps s next
    → Keeps s (handle_turns s ts next)
unfolding handle_turns
handle_turns-Keeps s [] next range k = k
handle_turns-Keeps s (t ∷ ts) next range k =
    after_fd-Keeps s t (handle_fd t.inputs t.bytes) (handle_turns s ts next) range
      (handle_turns-Keeps s ts next range k)

wait_loop-Keeps : (s : Settings) (ws : List Wait) → s.min_ ≤ℤ s.max_ → Keeps s (wait_loop s ws)
unfolding wait_loop
wait_loop-Keeps s [] range l w = w
wait_loop-Keeps s (wait_failed ∷ ws) range l w = w
wait_loop-Keeps s (wait_interrupted ∷ ws) range l w = wait_loop-Keeps s ws range l w
wait_loop-Keeps s (ready_devices [] ∷ ws) range l w = w
wait_loop-Keeps s (ready_devices (t ∷ ts) ∷ ws) range l w =
    handle_turns-Keeps s (t ∷ ts) (wait_loop s ws) range (wait_loop-Keeps s ws range) l w

below : (lo hi : ℤ) → ¬ (hi ≤ℤ lo) → lo ≤ℤ hi
below lo hi h = ground arith

-- Settings that are accepted have a range.
read_settings_range :
    (args : List (List ℕ)) (s : Settings) → read_settings args ≡ some s → s.min_ ≤ℤ s.max_
unfolding read_settings
read_settings_range [] s h = cc
read_settings_range (a ∷ []) s h = cc
read_settings_range (a ∷ b ∷ []) s h = cc
read_settings_range (a ∷ b ∷ c ∷ []) s h = cc
read_settings_range (a ∷ b ∷ c ∷ d ∷ args) s h =
    let r = step_size_lem (atoi b) (atoi c) (atoi d) s h in
    subst (λ x. x ≤ℤ s.max_) (sym r.0)
      (subst (λ x. atoi b ≤ℤ x) (sym r.1) (below (atoi b) (atoi c) r.2))

-- Nothing is written, or the settings of the arguments are accepted, and all that is written fits.
abbrev pub IsKept : Option Settings → Option End → Type 0
IsKept o none = Unit
IsKept none (some e) = written_of e ≡ []
IsKept (some s) (some e) = All (Fits s) (written_of e)

with_devices-IsKept :
    (s : Settings) (ws : List Wait) (ids : Option (List ℕ))
    → s.min_ ≤ℤ s.max_
    → IsKept (some s) (with_devices s ws ids)
with_devices-IsKept s ws none range = tt
with_devices-IsKept s ws (some []) range = tt
with_devices-IsKept s ws (some (id ∷ ids)) range =
    wait_loop-Keeps s ws range (at_first (length (id ∷ ids))) tt

if-IsKept :
    (o : Option Settings) (b : Bool) (x y : Option End)
    → IsKept o x
    → IsKept o y
    → IsKept o (if b then x else y)
if-IsKept o true x y h k = h
if-IsKept o false x y h k = k

nothing-IsKept : (o : Option Settings) (code : ℕ) → IsKept o (some (exited code (at_first 0)))
nothing-IsKept none code = refl
nothing-IsKept (some s) code = tt

with_settings-IsKept :
    (fuel : ℕ) (all created : Bool) (slots : ℕ → Slot) (ws : List Wait) (o : Option Settings)
    → ((s : Settings) → o ≡ some s → s.min_ ≤ℤ s.max_)
    → IsKept o (with_settings fuel all created slots ws o)
with_settings-IsKept fuel all created slots ws none range = refl
with_settings-IsKept fuel all created slots ws (some s) range =
    if-IsKept (some s) created (with_devices s ws (open_events fuel all slots))
      (some (exited 1 (at_first 0)))
      (with_devices-IsKept s ws (open_events fuel all slots) (range s refl)) tt

-- However long the program runs, up to a read that starts in front of the buffer, and as long as no
-- sum or difference of numbers overflows an int: if it refuses the range or the number of steps it
-- writes nothing, and otherwise everything that it writes to the brightness file is a part, from its
-- start, of the text of a number from the lower to the upper bound.
pub main-IsKept :
    (fuel : ℕ) (args : List (List ℕ)) (created : Bool) (slots : ℕ → Slot) (ws : List Wait)
    → IsKept (read_settings (without_all args)) (main fuel args created slots ws)
unfolding main
main-IsKept fuel args created slots ws =
    let o : Option Settings = read_settings (without_all args) in
    let run : Option End = with_settings fuel (is_flag (codes "-a") args) created slots ws o in
    if-IsKept o (is_flag (codes "-l") args) (some (exited 0 (at_first 0))) run (nothing-IsKept o 0)
      (with_settings-IsKept fuel (is_flag (codes "-a") args) created slots ws o
        (read_settings_range (without_all args)))
