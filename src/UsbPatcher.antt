-- ===== src/UsbPatcher.antt =====
-- The patchers of VMware's binary, core/modules/vmware16/usb-patcher.c,
-- core/modules/vmware17/usb-patcher.c and core/modules/vmware25H2/usb-patcher.c: each looks for one
-- byte sequence in a mapped file and changes one byte of it. The last two are the same text.
pub mod Search
pub mod Outcome
pub mod Bytes
pub mod Settled
pub mod Twice
use mltk.Common.{
  ℕ, zero, suc, ◌+◌, ◌-◌, ◌%◌, Bool, true, false, List, [], ◌∷◌, Option, none, some, if◌then◌else◌,
  length, take, drop, set, starts_with, not,
}

-- `memmem` for a sequence that is not empty: the first place where it stands.
unfoldable pub memmem : List ℕ → List ℕ → Option ℕ
memmem [] needle = none
memmem (c ∷ cs) needle =
    let more = memmem cs needle in
    if starts_with (c ∷ cs) needle
    then some 0
    else (elim more [ none ↦ none | some i ↦ some (suc i) ])

-- What the three programs differ in: the sequence, the distance at which the second search starts,
-- and the byte that is written, with its place in the sequence.
pub record Patch : Type 0 where
  pub sequence : List ℕ
  pub width : ℕ
  pub place : ℕ
  pub byte : ℕ

-- `findSequence`: a place from `offset` on, as an index into the buffer.
unfoldable pub find_sequence : Patch → List ℕ → ℕ → Option ℕ
unfolding memmem
find_sequence p buffer offset = elim (memmem (drop offset buffer) p.sequence) [
  | none ↦ none
  | some i ↦ some (offset + i)
]

-- The file, its calls, and the page size, a power of two. If `mmap` fails its result is not NULL.
pub record File : Type 0 where
  pub opens : Bool
  pub seeks : Bool
  pub page_size : ℕ
  pub maps : Bool
  pub bytes : List ℕ

-- The exit code and the file then, or the end of the process at its first access to the mapping.
pub data Run : Type 0 where
  exit : ℕ → List ℕ → Run
  crash : Run

-- After the second search: the write, in the file itself.
unfoldable pub found_at : Patch → List ℕ → ℕ → Option ℕ → Run
found_at p bytes offset none = exit 0 (set bytes (offset + p.place) p.byte)
found_at p bytes offset (some other) = exit 5 bytes

-- After the first search in `exe`, the whole pages of the file.
unfoldable pub found : Patch → List ℕ → List ℕ → Option ℕ → Run
unfolding find_sequence found_at
found p exe bytes none = exit 4 bytes
found p exe bytes (some offset) = found_at p bytes offset (find_sequence p exe (offset + p.width))

unfoldable pub usb_patcher : Patch → File → Run
unfolding found find_sequence
usb_patcher p f =
    let flen = length f.bytes - length f.bytes % f.page_size in
    if not f.opens
    then exit 1 f.bytes
    else if not f.seeks
    then exit 2 f.bytes
    else if f.maps
    then (let exe = take flen f.bytes in found p exe f.bytes (find_sequence p exe 0))
    else crash

abbrev pub vmware16 : Patch
vmware16 = record {
  sequence =
      0x41 ∷ 0x56 ∷ 0x41 ∷ 0x55 ∷ 0x41 ∷ 0x54 ∷ 0x41 ∷ 0x89 ∷ 0xf5 ∷ 0x55 ∷ 0x53 ∷ 0x48 ∷ 0x89
      ∷ 0xfd ∷ 0xbf ∷ 0x0d ∷ 0x00 ∷ 0x00 ∷ 0x00 ∷ [];
  width = 19;
  place = 8;
  byte = 0xfd;
}

abbrev pub vmware17 : Patch
vmware17 = record {
  sequence =
      0x45 ∷ 0x89 ∷ 0x3c ∷ 0x24 ∷ 0x49 ∷ 0x8d ∷ 0x7c ∷ 0x24 ∷ 0x04 ∷ 0x48 ∷ 0x8d ∷ 0x55 ∷ 0x01
      ∷ 0x4c ∷ 0x89 ∷ 0xf6 ∷ [];
  width = 16;
  place = 2;
  byte = 0x34;
}

-- `main` of each program.
unfoldable pub main_vmware16 : File → Run
unfolding usb_patcher
main_vmware16 = usb_patcher vmware16

unfoldable pub main_vmware17 : File → Run
unfolding usb_patcher
main_vmware17 = usb_patcher vmware17

unfoldable pub main_vmware25_h2 : File → Run
unfolding usb_patcher
main_vmware25_h2 = usb_patcher vmware17
