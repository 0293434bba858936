-- ===== src/Winres/ShareFile/Lines.antt =====
-- Reading shares.dat to its end: the lines that `fgets` gives, and the loop over the drives.
use mltk.Common.{
  ℕ, zero, suc, ◌+◌, ◌-◌, ◌≤◌, ◌<◌, ◌≡◌, ◌≢◌, refl, Bool, true, false, List, [], ◌∷◌, ◌++◌, Option,
  none, some, arith, length, length-append, All, ltb→lt, c_str, Bool-cases, inl, inr, ltb,
  if◌then◌else◌, Option-cases,
}
use mltk.Winres.ShareFile.{
  Drive, Shares, Creds, take_line, fgets, read_drive, add_drive, drivemax, drive_loop, finish,
  read_lines, read_creds, read_share_file, open_file,
}

length-take_line : (n : ℕ) (cs : List ℕ) → length (take_line n cs).1 ≤ length cs
unfolding take_line
length-take_line zero cs = omega arith
length-take_line (suc n) [] = omega arith
length-take_line (suc n) (c ∷ cs) = ground (arith, length-take_line n cs)

take_line_shorter : (n c : ℕ) (cs : List ℕ) → length (take_line (suc n) (c ∷ cs)).1 ≤ length cs
unfolding take_line
take_line_shorter n c cs = ground (arith, length-take_line n cs)

-- A line that fits the buffer is read with its newline.
pub take_line_lem :
    (n : ℕ) (s rest : List ℕ)
    → All (λ c. c ≢ b'\n') s
    → length s < n
    → take_line n (s ++ b'\n' ∷ rest) ≡ (s ++ b'\n' ∷ [], rest)
unfolding take_line
take_line_lem zero s rest h k = absurd (omega arith)
take_line_lem (suc n) [] rest h k = refl
take_line_lem (suc n) (c ∷ s) rest h k = ground (arith, take_line_lem n s rest h.1)

c_str_nonzero : (s : List ℕ) → All (λ c. c ≢ 0) s → c_str s ≡ s
c_str_nonzero [] h = refl
c_str_nonzero (c ∷ s) h = ground (arith, c_str_nonzero s h.1)

nonzero_line :
    (s : List ℕ) → All (λ c. (c ≢ 0) × (c ≢ b'\n')) s → All (λ c. c ≢ 0) (s ++ b'\n' ∷ [])
nonzero_line [] h = (ground arith, tt)
nonzero_line (c ∷ s) h = (h.0.0, nonzero_line s h.1)

one_line : (s : List ℕ) → All (λ c. (c ≢ 0) × (c ≢ b'\n')) s → All (λ c. c ≢ b'\n') s
one_line [] h = tt
one_line (c ∷ s) h = (h.0.1, one_line s h.1)

line_of :
    (size : ℕ) (s rest : List ℕ)
    → All (λ c. (c ≢ 0) × (c ≢ b'\n')) s
    → length s + 1 < size
    → ◌≡◌ {A = Option (List ℕ × List ℕ)}
        (some (
          c_str (take_line (size - 1) (s ++ b'\n' ∷ rest)).0,
          (take_line (size - 1) (s ++ b'\n' ∷ rest)).1,
        ))
        (some (s ++ b'\n' ∷ [], rest))
line_of size s rest h k = rw (
  take_line_lem (size - 1) s rest (one_line s h) (omega arith),
  c_str_nonzero (s ++ b'\n' ∷ []) (nonzero_line s h),
)

-- What stands in the buffer after `fgets` on such a line.
pub fgets_line :
    (size : ℕ) (s rest : List ℕ)
    → All (λ c. (c ≢ 0) × (c ≢ b'\n')) s
    → length s + 1 < size
    → fgets size (s ++ b'\n' ∷ rest) ≡ some (s ++ b'\n' ∷ [], rest)
unfolding fgets
fgets_line size [] rest h k = line_of size [] rest tt k
fgets_line size (c ∷ s) rest h k = line_of size (c ∷ s) rest h k

fgets_shorter :
    (size : ℕ) (file buffer rest : List ℕ)
    → 1 < size
    → fgets size file ≡ some (buffer, rest)
    → length rest < length file
unfolding fgets
fgets_shorter size [] buffer rest h e = cc
fgets_shorter size (c ∷ cs) buffer rest h e =
    let more : size - 1 ≡ suc (size - 2) = omega arith in
    ground (arith, more, take_line_shorter (size - 2) c cs)

length-add_drive :
    (drives : List Drive) (d : Option Drive)
    → length drives < drivemax
    → length (add_drive drives d) ≤ drivemax
length-add_drive drives none h = omega arith
length-add_drive drives (some d) h = omega (arith, length-append drives (d ∷ []))

-- Every line takes at least a character off the file, so fuel above its length is enough, and the
-- array of drives does not overflow.
drive_loop_total :
    (fuel : ℕ) (resolve : List ℕ → Option (List ℕ)) (file : List ℕ) (drives : List Drive)
    → length file < fuel
    → length drives ≤ drivemax
    → (ds : List Drive) × (drive_loop fuel resolve file drives ≡ some ds) × (length ds ≤ drivemax)
unfolding drive_loop
drive_loop_total zero resolve file drives h k = absurd (omega arith)
drive_loop_total (suc fuel) resolve file drives h k = elim (Option-cases (fgets 500 file)) [
  | inl over ↦ rw (over, drive_loop) (drives, refl, k)
  | inr ((buffer, rest), line) ↦
      rw (line, drive_loop)
        (elim (Bool-cases (ltb (length drives) 100)) [
          | inl room ↦ rw room (
              drive_loop_total fuel resolve rest (add_drive drives (read_drive resolve buffer))
                (omega (arith, fgets_shorter 500 file buffer rest (omega arith) line))
                (length-add_drive drives (read_drive resolve buffer) (ltb→lt _ _ room)))
          | inr full ↦ rw full (drives, refl, k)
        ])
]

finish-drives :
    (st : Shares) (host port hex1 hex2 user : Option (List ℕ))
    → (finish st host port hex1 hex2 user).drives ≡ st.drives
unfolding finish
finish-drives st (some host) (some port) (some hex1) (some hex2) (some user) = ground arith
finish-drives st host port hex1 hex2 user = refl

read_lines_of :
    (resolve : List ℕ → Option (List ℕ)) (st : Shares) (c : Creds) (rest : List ℕ) (ds : List Drive)
    → drive_loop (suc (length rest)) resolve rest [] ≡ some ds
    → read_lines resolve st c rest
      ≡ some (
          finish
            (record st { shost = c.host; sport = c.port; suser = c.user; drives = ds })
            c.host
            c.port
            c.hex1
            c.hex2
            c.user)
unfolding read_lines
read_lines_of resolve st c rest ds e = rw (e, read_lines)

-- The result of the loop over the drives, and what is done with it.
pub read_lines_total :
    (resolve : List ℕ → Option (List ℕ)) (st : Shares) (c : Creds) (rest : List ℕ)
    → (ds : List Drive) × (length ds ≤ drivemax)
      × (read_lines resolve st c rest
          ≡ some (
              finish
                (record st { shost = c.host; sport = c.port; suser = c.user; drives = ds })
                c.host
                c.port
                c.hex1
                c.hex2
                c.user))
read_lines_total resolve st c rest =
    let r = drive_loop_total (suc (length rest)) resolve rest [] (omega arith) (omega arith) in
    (r.0, r.2, read_lines_of resolve st c rest r.0 r.1)

open_file_total :
    (resolve : List ℕ → Option (List ℕ)) (st : Shares) (file : Option (List ℕ))
    → (st' : Shares) × (open_file resolve st file ≡ some st') × (length st'.drives ≤ drivemax)
unfolding open_file
open_file_total resolve st none = (record st { drives = [] }, refl, omega arith)
open_file_total resolve st (some text) = elim (Option-cases (fgets 300 text)) [
  | inl empty ↦ rw (empty, open_file) (record st { drives = [] }, refl, omega arith)
  | inr ((creds, rest), line) ↦
      let c = read_creds creds in
      let r = read_lines_total resolve st c rest in
      rw (line, open_file) (_, r.2, rw (finish-drives _ c.host c.port c.hex1 c.hex2 c.user) r.1)
]

-- Reading shares.dat always ends, whatever the file holds and names resolve to, with at most
-- DRIVEMAX drives if there were no more before.
pub read_share_file_total :
    (resolve : List ℕ → Option (List ℕ)) (file : Option (List ℕ)) (st : Shares)
    → length st.drives ≤ drivemax
    → (st' : Shares) × (read_share_file resolve file st ≡ some st') × (length st'.drives ≤ drivemax)
unfolding read_share_file
read_share_file_total resolve file st h = either st.share_file_ok
  where
    either :
        (done : Bool)
        → (st' : Shares) × ((if done then some st else open_file resolve st file) ≡ some st')
          × (length st'.drives ≤ drivemax)
    either true = (st, refl, h)
    either false = open_file_total resolve st file
