-- ===== src/Common/Bytes.antt =====
-- Bytes and C strings as lists of numbers, and the laws of the bit operations on them.
use Prim.Native.Nat.{
  ℕ, zero, suc, ◌+◌, ◌*◌, ◌/◌, ◌%◌, ◌≤◌, ◌<◌, ◌^◌, bit_xor, bit_and, bit_or, digits, differ,
  bit_xor-bitwise, bit_or-bitwise,
}
use mathlib.Core.Path.{◌≡◌, refl, ◌∙◌}
use mathlib.Core.Bool.{Bool, true, false}
use mathlib.Core.List.{List, [], ◌∷◌}
use native.Mathlib.Nat.{pow-suc}
use native.Mathlib.Omega.{arith}
use mltk.Common.Tests.{◌==◌, ==_iff, if◌then◌else◌}
use mltk.Common.Lists.{All}

-- A cast to `uint8_t`.
abbrev pub u8 : ℕ → ℕ
u8 n = n % 2 ^ 8

abbrev pub IsByte : ℕ → Type 0
IsByte n = n < 256

abbrev pub u16 : ℕ → ℕ
u16 n = n % 2 ^ 16

xor_digits_fuel :
    (f g x y : ℕ) → x ≤ g → x ≤ f → digits (λ d. d) differ f x y ≡ digits (λ d. d) differ g x y
xor_digits_fuel zero zero x y fits fits' = refl
xor_digits_fuel (suc f) zero zero y fits fits' = refl
xor_digits_fuel (suc f) zero (suc x) y fits fits' = absurd (omega arith)
xor_digits_fuel zero (suc g) zero y fits fits' = refl
xor_digits_fuel zero (suc g) (suc x) y fits fits' = absurd (omega arith)
xor_digits_fuel (suc f) (suc g) zero y fits fits' = refl
xor_digits_fuel (suc f) (suc g) (suc x) y fits fits' =
    rw (xor_digits_fuel f g (suc x / 2) (y / 2) (omega arith) (omega arith))

zero-bit_xor : (b : ℕ) → bit_xor 0 b ≡ b
zero-bit_xor b = bit_xor-bitwise 0 b

zero-differ : (y : ℕ) → differ 0 y ≡ y
zero-differ y = refl

bit_xor_step : (a b : ℕ) → bit_xor a b ≡ bit_xor (a / 2) (b / 2) * 2 + differ (a % 2) (b % 2)
bit_xor_step zero b = omega (arith, zero-bit_xor b, zero-bit_xor (b / 2), zero-differ (b % 2))
bit_xor_step (suc a) b =
    let half_a : ℕ = suc a / 2 in
    let enough = xor_digits_fuel a half_a half_a (b / 2) (omega arith) (omega arith) in
    omega (arith, enough, bit_xor-bitwise half_a (b / 2), bit_xor-bitwise (suc a) b)

differ_digits : (x y : ℕ) → x < 2 → y < 2 → (differ x y < 2) × (differ (differ x y) y ≡ x)
differ_digits zero zero p q = (omega arith, refl)
differ_digits zero (suc zero) p q = (omega arith, refl)
differ_digits zero (suc (suc y)) p q = absurd (omega arith)
differ_digits (suc zero) zero p q = (omega arith, refl)
differ_digits (suc zero) (suc zero) p q = (omega arith, refl)
differ_digits (suc zero) (suc (suc y)) p q = absurd (omega arith)
differ_digits (suc (suc x)) y p q = absurd (omega arith)

half : (k a : ℕ) → a < 2 ^ suc k → a / 2 < 2 ^ k
half k a p = omega (arith, pow-suc 2 k)

xor_width_suc :
    (k a b : ℕ)
    → a < 2 ^ suc k
    → (bit_xor (a / 2) (b / 2) < 2 ^ k) × (bit_xor (bit_xor (a / 2) (b / 2)) (b / 2) ≡ a / 2)
    → (bit_xor a b < 2 ^ suc k) × (bit_xor (bit_xor a b) b ≡ a)
xor_width_suc k a b p ih = (omega (arith, bit_xor_step a b, digit, pow-suc 2 k), again)
  where
    digit : (differ (a % 2) (b % 2) < 2) × (differ (differ (a % 2) (b % 2)) (b % 2) ≡ a % 2)
    digit = differ_digits (a % 2) (b % 2) (omega arith) (omega arith)

    low : bit_xor a b / 2 ≡ bit_xor (a / 2) (b / 2)
    low = omega (arith, bit_xor_step a b, digit)

    top : bit_xor a b % 2 ≡ differ (a % 2) (b % 2)
    top = omega (arith, bit_xor_step a b, digit)

    again : bit_xor (bit_xor a b) b ≡ a
    again = bit_xor_step (bit_xor a b) b ∙ rw (low, top, ih.1, digit.1) (omega arith)

-- The width bounds the digits: xor of two `k`-bit numbers is a `k`-bit number, and it is undone
-- by the same key.
xor_width :
    (k a b : ℕ) → a < 2 ^ k → b < 2 ^ k → (bit_xor a b < 2 ^ k) × (bit_xor (bit_xor a b) b ≡ a)
xor_width zero a b p q =
    let za : a ≡ 0 = omega arith in let zb : b ≡ 0 = omega arith in rw (za, zb) (omega arith, refl)
xor_width (suc k) a b p q =
    xor_width_suc k a b p (xor_width k (a / 2) (b / 2) (half k a p) (half k b q))

pub bit_xor-IsByte : (a b : ℕ) → IsByte a → IsByte b → IsByte (bit_xor a b)
bit_xor-IsByte a b p q = (xor_width 8 a b p q).0

-- xor with the same key byte gives the byte back.
pub bit_xor_cancel : (a b : ℕ) → IsByte a → IsByte b → bit_xor (bit_xor a b) b ≡ a
bit_xor_cancel a b p q = (xor_width 8 a b p q).1

-- A test passes for every number below a bound, by evaluation.
unfoldable pub passes_below : (ℕ → Bool) → ℕ → Bool
passes_below test zero = true
passes_below test (suc bound) = if test bound then passes_below test bound else false

pub passes_below_sound :
    (test : ℕ → Bool) (bound : ℕ)
    → passes_below test bound ≡ true
    → (k : ℕ) → k < bound
    → test k ≡ true
unfolding passes_below
passes_below_sound test zero passes k small = absurd (omega arith)
passes_below_sound test (suc bound) passes k small =
    let below : passes_below test bound ≡ true → k < bound → test k ≡ true =
      λ more less. passes_below_sound test bound more k less in
    ground (arith, below)

nibble_table : passes_below (λ b. bit_and b 0xf == b % 16) 256 ≡ true
unfolding passes_below
nibble_table = refl

-- The low nibble of a byte.
pub bit_and_nibble : (b : ℕ) → IsByte b → bit_and b 0xf ≡ b % 16
bit_and_nibble b h =
    (==_iff _ _).0 (passes_below_sound (λ b. bit_and b 0xf == b % 16) 256 nibble_table b h)

join_table : passes_below (λ b. bit_or (b / 16 * 16) (b % 16) == b) 256 ≡ true
unfolding passes_below
join_table = refl

-- A byte is its two nibbles put together.
pub bit_or_nibbles : (b : ℕ) → IsByte b → bit_or (b / 16 * 16) (b % 16) ≡ b
bit_or_nibbles b h =
    (==_iff _ _).0 (passes_below_sound (λ b. bit_or (b / 16 * 16) (b % 16) == b) 256 join_table b h)

low_table : passes_below (λ b. bit_and b 0xff == b) 256 ≡ true
unfolding passes_below
low_table = refl

-- A byte masked to eight bits.
pub bit_and_byte : (b : ℕ) → IsByte b → bit_and b 0xff ≡ b
bit_and_byte b h = (==_iff _ _).0 (passes_below_sound (λ b. bit_and b 0xff == b) 256 low_table b h)

pub zero-bit_or : (b : ℕ) → bit_or 0 b ≡ b
zero-bit_or b = bit_or-bitwise 0 b

-- `strlen` and friends read a buffer up to its first NUL.
abbrev pub c_str : List ℕ → List ℕ
c_str [] = []
c_str (c ∷ cs) = if c == 0 then [] else c ∷ c_str cs

abbrev pub IsTextByte : ℕ → Type 0
IsTextByte c = (0 < c) × (c < 256)

-- Bytes of a C string, which is kept without its final NUL.
pub c_str_text : (s : List ℕ) → All IsTextByte s → c_str s ≡ s
c_str_text [] h = refl
c_str_text (c ∷ cs) h = ground (arith, c_str_text cs h.1)
