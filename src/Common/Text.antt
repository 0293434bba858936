-- ===== src/Common/Text.antt =====
-- What the programs use of the C library on texts: decimal printing (`%d`), `atoi`, `strcmp` and
-- `strncmp`, on lists of character codes.
use Prim.Native.Nat.{ℕ, zero, suc, ◌+◌, ◌-◌, ◌*◌, ◌/◌, ◌%◌, ◌^◌, ◌≤◌, ◌<◌, min}
use Prim.Native.Char.{code}
use Prim.Native.String.{String}
use mathlib.Core.Path.{◌≡◌, refl, ap, ◌∙◌}
use mathlib.Core.Logic.{inl, inr}
use mathlib.Core.Bool.{Bool, true, false, ◌&&◌, ◌||◌}
use mathlib.Core.List.{List, [], ◌∷◌, ◌++◌}
use native.Mathlib.Nat.{pow-suc}
use native.Mathlib.Omega.{arith}
use mltk.Common.Tests.{◌==◌, ltb, leb, lt→ltb, if◌then◌else◌, if_true, Bool-cases}
use mltk.Common.Lists.{length, length-append, All, All-append}
use mltk.Common.Int.{ℤ, pos, negsuc}

-- The codes of a text literal.
abbrev pub codes : String → List ℕ
codes String.[] = []
codes (String.◌∷◌ c s) = code c ∷ codes s

-- Equality of two texts, as `strcmp` and `memcmp` decide it.
unfoldable pub eqb_list : List ℕ → List ℕ → Bool
eqb_list [] [] = true
eqb_list [] (y ∷ ys) = false
eqb_list (x ∷ xs) [] = false
eqb_list (x ∷ xs) (y ∷ ys) = x == y && eqb_list xs ys

pub eqb_list→eq : (xs ys : List ℕ) → eqb_list xs ys ≡ true → xs ≡ ys
unfolding eqb_list
eqb_list→eq [] [] h = refl
eqb_list→eq [] (y ∷ ys) h = cc
eqb_list→eq (x ∷ xs) [] h = cc
eqb_list→eq (x ∷ xs) (y ∷ ys) h = ground (arith, eqb_list→eq xs ys)

pub eqb_list_refl : (xs : List ℕ) → eqb_list xs xs ≡ true
unfolding eqb_list
eqb_list_refl [] = refl
eqb_list_refl (x ∷ xs) = ground (arith, eqb_list_refl xs)

-- `strncmp(s, prefix, strlen(prefix)) == 0`, or `memcmp` on that many bytes.
unfoldable pub starts_with : List ℕ → List ℕ → Bool
starts_with s [] = true
starts_with [] (p ∷ ps) = false
starts_with (c ∷ s) (p ∷ ps) = c == p && starts_with s ps

pub starts_with-append : (p s : List ℕ) → starts_with (p ++ s) p ≡ true
unfolding starts_with
starts_with-append [] s = refl
starts_with-append (c ∷ p) s = ground (arith, starts_with-append p s)

-- Fuel above the number suffices, since a number has fewer digits than that.
unfoldable pub decimal : ℕ → ℕ → List ℕ
decimal zero n = []
decimal (suc f) n =
    let more = decimal f (n / 10) ++ (48 + n % 10) ∷ [] in if ltb n 10 then (48 + n) ∷ [] else more

unfoldable pub show_ℕ : ℕ → List ℕ
unfolding decimal
show_ℕ n = decimal (suc n) n

-- `%d`.
unfoldable pub show_ℤ : ℤ → List ℕ
unfolding show_ℕ
show_ℤ (pos n) = show_ℕ n
show_ℤ (negsuc n) = b'-' ∷ show_ℕ (suc n)

abbrev pub is_digit : ℕ → Bool
is_digit c = leb b'0' c && leb c b'9'

-- The digits at the head, onto a number that has been read so far.
unfoldable pub read_digits : ℕ → List ℕ → ℕ
read_digits acc [] = acc
read_digits acc (c ∷ cs) =
    let more = read_digits (acc * 10 + (c - 48)) cs in if is_digit c then more else acc

abbrev pub is_space : ℕ → Bool
is_space c = c == 32 || (leb 9 c && leb c 13)

unfoldable pub skip_space : List ℕ → List ℕ
skip_space [] = []
skip_space (c ∷ cs) = if is_space c then skip_space cs else c ∷ cs

abbrev pub negate : ℕ → ℤ
negate zero = pos 0
negate (suc n) = negsuc n

unfoldable pub read_signed : List ℕ → ℤ
unfolding read_digits
read_signed [] = pos 0
read_signed (c ∷ cs) =
    if c == b'-'
    then negate (read_digits 0 cs)
    else if c == b'+'
    then pos (read_digits 0 cs)
    else pos (read_digits 0 (c ∷ cs))

-- The `int` of 32 bits in a `long` of 64 bits, which is clamped first.
abbrev pub as_int : ℤ → ℤ
as_int (pos n) =
    let r = min n 9223372036854775807 % 4294967296 in
    if ltb r 2147483648 then pos r else negsuc (4294967295 - r)
as_int (negsuc n) =
    let r = min n 9223372036854775807 % 4294967296 in
    if ltb r 2147483648 then negsuc r else pos (4294967295 - r)

-- `atoi`, which is `(int) strtol(s, NULL, 10)`.
unfoldable pub atoi : List ℕ → ℤ
unfolding skip_space read_signed
atoi s = as_int (read_signed (skip_space s))

abbrev pub IsDigit : ℕ → Type 0
IsDigit c = (48 ≤ c) × (c < 58)

pub decimal-IsDigit : (f n : ℕ) → All IsDigit (decimal f n)
unfolding decimal
decimal-IsDigit zero n = tt
decimal-IsDigit (suc f) n = elim (Bool-cases (ltb n 10)) [
  | inl small ↦ rw small ((omega arith, ground arith), tt)
  | inr large ↦ rw large (
      All-append IsDigit (decimal f (n / 10)) ((48 + n % 10) ∷ []) (decimal-IsDigit f (n / 10))
        ((omega arith, omega arith), tt))
]

pub read_digits-append :
    (acc : ℕ) (ds rest : List ℕ)
    → All IsDigit ds
    → read_digits acc (ds ++ rest) ≡ read_digits (read_digits acc ds) rest
unfolding read_digits
read_digits-append acc [] rest h = refl
read_digits-append acc (d ∷ ds) rest h =
    ground (arith, read_digits-append (acc * 10 + (d - 48)) ds rest h.1)

read_digits-decimal : (f n : ℕ) → n < f → read_digits 0 (decimal f n) ≡ n
unfolding read_digits decimal
read_digits-decimal zero n h = absurd (omega arith)
read_digits-decimal (suc f) n h = elim (Bool-cases (ltb n 10)) [
  | inl small ↦ rw small (ground arith)
  | inr large ↦
      rw
        (
          large,
          read_digits-append 0 (decimal f (n / 10)) ((48 + n % 10) ∷ [])
              (decimal-IsDigit f (n / 10)),
          read_digits-decimal f (n / 10) (ground arith),
        )
        (ground arith)
]

-- A number in digits, with no space and no sign before it, is read whole.
atoi_digits :
    (d : ℕ) (ds : List ℕ) → IsDigit d → atoi (d ∷ ds) ≡ as_int (pos (read_digits 0 (d ∷ ds)))
unfolding atoi
atoi_digits d ds h = ap as_int (signed d ds h)
  where
    signed :
        (d : ℕ) (ds : List ℕ)
        → IsDigit d
        → read_signed (skip_space (d ∷ ds)) ≡ pos (read_digits 0 (d ∷ ds))
    signed d ds h = ground arith

as_int_small : (n : ℕ) → n < 2147483648 → as_int (pos n) ≡ pos n
as_int_small n h =
    let r : ℕ = min n 9223372036854775807 % 4294967296 in
    let held : r ≡ n = omega arith in
    if_true (pos r) (negsuc (4294967295 - r)) (ltb r 2147483648) (lt→ltb r 2147483648 (omega arith))
    ∙ ap pos held

atoi-All_digits :
    (ds : List ℕ) → All IsDigit ds → 0 < length ds → atoi ds ≡ as_int (pos (read_digits 0 ds))
atoi-All_digits [] h nonempty = absurd (omega arith)
atoi-All_digits (d ∷ ds) h nonempty = atoi_digits d ds h.0

length-decimal : (k f n : ℕ) → n < 10 ^ suc k → length (decimal f n) ≤ suc k
unfolding decimal
length-decimal k zero n h = omega arith
length-decimal zero (suc f) n h =
    let small : ltb n 10 ≡ true = lt→ltb n 10 (omega arith) in rw small (omega arith)
length-decimal (suc k) (suc f) n h = elim (Bool-cases (ltb n 10)) [
  | inl small ↦ rw small (omega arith)
  | inr large ↦
      rw (large, length-append (decimal f (n / 10)) ((48 + n % 10) ∷ []))
        (omega (arith, length-decimal k f (n / 10) (omega (arith, pow-suc 10 (suc k)))))
]

decimal_nonempty : (f n : ℕ) → 0 < length (decimal (suc f) n)
unfolding decimal
decimal_nonempty f n = ground (arith, length-append (decimal f (n / 10)) ((48 + n % 10) ∷ []))

pub show_ℕ-IsDigit : (n : ℕ) → All IsDigit (show_ℕ n)
unfolding show_ℕ
show_ℕ-IsDigit n = decimal-IsDigit (suc n) n

pub show_ℕ_nonempty : (n : ℕ) → 0 < length (show_ℕ n)
unfolding show_ℕ
show_ℕ_nonempty n = decimal_nonempty n n

pub read_digits-show : (n : ℕ) → read_digits 0 (show_ℕ n) ≡ n
unfolding show_ℕ
read_digits-show n = read_digits-decimal (suc n) n (omega arith)

-- `atoi` reads back what `%d` prints.
pub atoi-show : (n : ℕ) → n < 2147483648 → atoi (show_ℕ n) ≡ pos n
unfolding show_ℕ
atoi-show n h =
    atoi-All_digits (show_ℕ n) (show_ℕ-IsDigit n) (show_ℕ_nonempty n)
    ∙ ap (λ (k : ℕ). as_int (pos k)) (read_digits-decimal (suc n) n (omega arith))
    ∙ as_int_small n h

-- A port number has at most five digits.
pub length-show_ℕ : (n : ℕ) → n < 100000 → length (show_ℕ n) ≤ 5
unfolding show_ℕ
length-show_ℕ n h = length-decimal 4 (suc n) n (omega arith)
