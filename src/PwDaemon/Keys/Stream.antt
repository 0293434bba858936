-- ===== src/PwDaemon/Keys/Stream.antt =====
-- The keys that `keygen` makes: their length, their bytes, and where the bytes come from.
use mltk.Common.{
  ℕ, zero, suc, ◌+◌, ◌-◌, ◌≤◌, ◌≡◌, refl, sym, ap, ◌∙◌, true, ◌&&◌, List, [], ◌∷◌, ◌++◌, some,
  arith, length, length-append, length-take, take, take-append, take-take_append, All, All-append,
  All-take, IsByte, inl, inr, Bool-cases, lt→ltb, append-nil, take_all, append_assoc,
}
use mltk.PwDaemon.Keys.{
  Read, interrupted, failed, chunk, Device, read_loop, fill_random, has_entropy, device_bytes,
  keygen, xor_loop, xor_string,
}

-- The bytes that a sequence of reads delivers, up to the first error or end of file.
abbrev pub stream : List Read → List ℕ
stream [] = []
stream (interrupted ∷ rs) = stream rs
stream (failed ∷ rs) = []
stream (chunk [] ∷ rs) = []
stream (chunk (b ∷ bs) ∷ rs) = b ∷ bs ++ stream rs

whole : (key : List ℕ) → length key ≤ 16 → key ≡ take 16 (key ++ [])
whole key h = rw append-nil (sym (take_all 16 key h))

full : (key ys : List ℕ) → 16 ≤ length key → length key ≤ 16 → key ≡ take 16 (key ++ ys)
full key ys h k =
    let e : 16 - length key ≡ 0 = omega arith in
    sym (take-append 16 key ys k ∙ rw e (append-nil key))

-- One read's worth, and then the rest of the stream.
top_up :
    (key bs ys : List ℕ)
    → length key ≤ 16
    → take 16 ((key ++ take (16 - length key) bs) ++ ys) ≡ take 16 (key ++ (bs ++ ys))
top_up key bs ys h = rw append_assoc (
    take-append 16 key (take (16 - length key) bs ++ ys) h
    ∙ ap (◌++◌ key) (take-take_append (16 - length key) bs ys)
    ∙ sym (take-append 16 key (bs ++ ys) h))

-- Reads cut the stream anywhere, and may be interrupted: the loop gathers its first 16 bytes.
read_loop_lem :
    (rs : List Read) (key : List ℕ)
    → length key ≤ 16
    → read_loop rs key ≡ take 16 (key ++ stream rs)
unfolding read_loop
read_loop_lem [] key h = whole key h
read_loop_lem (interrupted ∷ rs) key h =
    ground (arith, read_loop_lem rs key h, full key (stream rs))
read_loop_lem (failed ∷ rs) key h = whole key h
read_loop_lem (chunk [] ∷ rs) key h = ground (arith, whole key h)
read_loop_lem (chunk (b ∷ bs) ∷ rs) key h = ground (
  arith,
  read_loop_lem rs (key ++ take (16 - length key) (b ∷ bs)),
  top_up key (b ∷ bs) (stream rs) h,
  full key (b ∷ bs ++ stream rs),
  length-take (16 - length key) (b ∷ bs),
  length-append key (take (16 - length key) (b ∷ bs)),
)

-- With a usable device a key is the first 16 bytes that the device delivers before it fails or
-- ends, however the reads cut them, and `rand()` supplies exactly the bytes that are missing.
pub keygen-stream :
    (reads : List Read) (n : ℕ) (rand : ℕ → ℕ) (k : ℕ)
    → let got = take 16 (stream reads) in
      keygen (record { opens = true; entropy = some (suc n); reads = reads }) rand k
      ≡ (got ++ fill_random (16 - length got) rand k, k + (16 - length got))
unfolding keygen
keygen-stream reads n rand k =
    let usable : has_entropy (some (suc n)) ≡ true = lt→ltb 0 (suc n) (omega arith) in
    rw (usable, read_loop_lem reads [] (omega arith))

abbrev pub IsReads : List Read → Type 0
IsReads [] = Unit
IsReads (interrupted ∷ rs) = IsReads rs
IsReads (failed ∷ rs) = IsReads rs
IsReads (chunk bs ∷ rs) = All IsByte bs × IsReads rs

stream-IsByte : (rs : List Read) → IsReads rs → All IsByte (stream rs)
stream-IsByte [] h = tt
stream-IsByte (interrupted ∷ rs) h = stream-IsByte rs h
stream-IsByte (failed ∷ rs) h = tt
stream-IsByte (chunk [] ∷ rs) h = tt
stream-IsByte (chunk (b ∷ bs) ∷ rs) h =
    (h.0.0, All-append IsByte bs (stream rs) h.0.1 (stream-IsByte rs h.1))

fill_random_lem :
    (n : ℕ) (rand : ℕ → ℕ) (k : ℕ)
    → (length (fill_random n rand k) ≡ n) × All IsByte (fill_random n rand k)
unfolding fill_random
fill_random_lem zero rand k = (refl, tt)
fill_random_lem (suc n) rand k =
    let rest = fill_random_lem n rand (k + 1) in (ap suc rest.0, (omega arith, rest.1))

device_bytes_lem :
    (d : Device) → IsReads d.reads → (length (device_bytes d) ≤ 16) × All IsByte (device_bytes d)
unfolding device_bytes
device_bytes_lem d h = elim (Bool-cases (d.opens && has_entropy d.entropy)) [
  | inl usable ↦
      rw (usable, read_loop_lem d.reads [] (omega arith))
        (
          omega (arith, length-take 16 (stream d.reads)),
          All-take IsByte 16 (stream d.reads) (stream-IsByte d.reads h),
        )
  | inr unusable ↦ rw unusable (omega arith, tt)
]

-- Whatever the device does (it cannot be opened, has no entropy, fails, ends early or interrupts
-- reads), if what it reads are bytes, `keygen` returns 16 bytes.
pub keygen-IsKey :
    (d : Device) (rand : ℕ → ℕ) (k : ℕ)
    → IsReads d.reads
    → (length (keygen d rand k).0 ≡ 16) × All IsByte (keygen d rand k).0
keygen-IsKey d rand k h = (size, unfold keygen in bytes)
  where
    left : ℕ
    left = 16 - length (device_bytes d)

    size : length (keygen d rand k).0 ≡ 16
    size =
        unfold keygen in
        omega (
          arith,
          length-append (device_bytes d) (fill_random left rand k),
          device_bytes_lem d h,
          fill_random_lem left rand k,
        )

    bytes : All IsByte (device_bytes d ++ fill_random left rand k)
    bytes =
        All-append IsByte (device_bytes d) (fill_random left rand k) (device_bytes_lem d h).1
          (fill_random_lem left rand k).1

pub length-xor_loop :
    (key : List ℕ) (i : ℕ) (text : List ℕ) → length (xor_loop key i text) ≡ length text
unfolding xor_loop
length-xor_loop key i [] = refl
length-xor_loop key i (t ∷ text) = ap suc (length-xor_loop key (i + 1) text)

pub length-xor_string : (text key : List ℕ) → length (xor_string text key) ≡ length text + 2
unfolding xor_string
length-xor_string text key = omega (arith, length-xor_loop key 0 text)
