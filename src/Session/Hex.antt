-- ===== src/Session/Hex.antt =====
-- `bin2hex` of core/modules/run-virt/pw_daemon.c and `hex2bin` of
-- core/modules/run-virt/winres/src/winres.c.
use mltk.Common.{
  ℕ, ◌+◌, ◌*◌, ◌/◌, ◌%◌, ◌^◌, ◌≤◌, ◌<◌, ◌≡◌, refl, ap₂, List, [], ◌∷◌, true, arith, length, get_or,
  All, IsByte, u8, bit_or, bit_and, bit_and_nibble, bit_or_nibbles, passes_below,
  passes_below_sound, ◌==◌, ==_iff, leb, ◌&&◌,
}
use mltk.PwDaemon.Keys.{hexconvtab, bin2hex}
use mltk.Winres.Secret.{getbin, hex2bin}

getbin_table : passes_below (λ n. getbin (get_or hexconvtab n 0) == n) 16 ≡ true
unfolding passes_below getbin
getbin_table = refl

-- `getbin` reads each digit that the daemon writes.
getbin-hexconvtab : (n : ℕ) → n < 16 → getbin (get_or hexconvtab n 0) ≡ n
getbin-hexconvtab n h =
    (==_iff _ _).0
      (passes_below_sound (λ n. getbin (get_or hexconvtab n 0) == n) 16 getbin_table n h)

-- The keys come over unchanged: decoding the hexadecimal form of bytes gives the bytes back.
pub hex2bin-bin2hex : (bin : List ℕ) → All IsByte bin → hex2bin (bin2hex bin) ≡ bin
unfolding hex2bin bin2hex
hex2bin-bin2hex [] h = refl
hex2bin-bin2hex (b ∷ bin) h = ap₂ ◌∷◌ joined (hex2bin-bin2hex bin h.1)
  where
    joined :
        u8 (
          bit_or
            (getbin (get_or hexconvtab (b / 2 ^ 4) 0) * 2 ^ 4 % 2 ^ 32)
            (getbin (get_or hexconvtab (bit_and b 0xf) 0)))
        ≡ b
    joined =
        let small : b / 16 * 16 % 2 ^ 32 ≡ b / 16 * 16 = omega arith in
        rw
          (
            getbin-hexconvtab (b / 16) (omega arith),
            bit_and_nibble b h.0,
            getbin-hexconvtab (b % 16) (omega arith),
            small,
            bit_or_nibbles b h.0,
          )
          (omega arith)

pub length-bin2hex : (bin : List ℕ) → length (bin2hex bin) ≡ length bin + length bin
unfolding bin2hex
length-bin2hex [] = refl
length-bin2hex (b ∷ bin) = omega (arith, length-bin2hex bin)

digit_table :
    passes_below (λ n. leb 48 (get_or hexconvtab n 0) && leb (get_or hexconvtab n 0) 102) 16 ≡ true
unfolding passes_below
digit_table = refl

-- The digits are printable, and none is a separator of shares.dat.
abbrev pub IsHexDigit : ℕ → Type 0
IsHexDigit c = (48 ≤ c) × (c ≤ 102)

hexconvtab-IsHexDigit : (n : ℕ) → n < 16 → IsHexDigit (get_or hexconvtab n 0)
hexconvtab-IsHexDigit n h = ground (
  arith,
  passes_below_sound (λ n. leb 48 (get_or hexconvtab n 0) && leb (get_or hexconvtab n 0) 102) 16
      digit_table n h,
)

pub bin2hex-IsHexDigit : (bin : List ℕ) → All IsByte bin → All IsHexDigit (bin2hex bin)
unfolding bin2hex
bin2hex-IsHexDigit [] h = tt
bin2hex-IsHexDigit (b ∷ bin) h = (
  hexconvtab-IsHexDigit (b / 2 ^ 4) (omega arith),
  (
    hexconvtab-IsHexDigit (bit_and b 0xf) (omega (arith, bit_and_nibble b h.0)),
    bin2hex-IsHexDigit bin h.1,
  ),
)
