-- ===== src/Session/Cipher.antt =====
-- The encrypted password of core/modules/run-virt/pw_daemon.c and its decryption in
-- core/modules/run-virt/winres/src/winres.c.
use mltk.Common.{
  ℕ, suc, ◌+◌, ◌-◌, ◌*◌, ◌%◌, ◌^◌, ◌<◌, ◌≡◌, ◌↔◌, refl, ap₂, List, [], ◌∷◌, some, none, arith,
  length, take_all, get_or, get_or-All, All, IsByte, IsTextByte, c_str_text, bit_xor_cancel,
  bit_and_byte, zero-bit_or, ltb, if◌then◌else◌, u8, u16, bit_or, bit_and, ◌/◌, Bool-cases, inl,
  inr, true, false, ◌==◌,
}
use mltk.PwDaemon.Keys
use mltk.PwDaemon.Keys.Stream.{length-xor_loop}
use mltk.Winres.Secret
use mltk.Winres.Secret.{udp_received}

module _ (key : List ℕ) (key_bytes : All IsByte key) where
  key-IsByte : (i : ℕ) → IsByte (get_or key (i % 16) 0)
  key-IsByte i = get_or-All IsByte key (i % 16) 0 key_bytes (omega arith)

  -- The two loops use the same key byte at each index.
  undo :
      (i : ℕ) (text : List ℕ)
      → All IsTextByte text
      → Secret.xor_loop key i (Keys.xor_loop key i text) ≡ text
  unfolding Secret.xor_loop Keys.xor_loop
  undo i [] h = refl
  undo i (t ∷ text) h =
      ap₂ ◌∷◌ (bit_xor_cancel t (get_or key (i % 16) 0) (omega arith) (key-IsByte i))
        (undo (i + 1) text h.1)

-- The length that the two leading bytes stand for.
pub prefix_length : List ℕ → ℕ
prefix_length message = get_or message 0 0 * 256 + get_or message 1 0

-- The two bytes before the encrypted text are its length exactly if that is below 256: the cast to
-- `uint8_t` clears the high byte before the shift.
pub prefix_length_iff :
    (text key : List ℕ)
    → (prefix_length (Keys.xor_string text key) ≡ length text) ↔ (length text < 256)
unfolding prefix_length Keys.xor_string
prefix_length_iff text key = (λ h. omega arith, λ h. omega (arith, bit_and_byte (length text) h))

-- The header of a short password, as the receiver decodes it.
header :
    (text : List ℕ)
    → length text < 256
    → u16 (
        bit_or
          (u8 (u8 (bit_and (length text) 0xff00) / 2 ^ 8) * 2 ^ 8)
          (u8 (bit_and (length text) 0xff)))
      ≡ length text
header text h =
    let high : u8 (u8 (bit_and (length text) 0xff00) / 2 ^ 8) * 2 ^ 8 ≡ 0 = omega arith in
    rw (high, zero-bit_or, bit_and_byte (length text) h) (omega arith)

decrypted :
    (text key : List ℕ)
    → All IsTextByte text
    → All IsByte key
    → Secret.xor_string (Keys.xor_loop key 0 text) (length text) key ≡ text
unfolding Secret.xor_string
decrypted text key h k =
    rw
      (
        take_all (length text) (Keys.xor_loop key 0 text)
            (omega (arith, length-xor_loop key 0 text)),
        undo key k 0 text h,
      )
      (c_str_text text h)

-- A password of at most 198 bytes, none of them NUL, is read back from the daemon's reply with
-- the same key; a reply with a longer one is dropped.
pub udp_received-xor_string :
    (text key : List ℕ)
    → All IsTextByte text
    → All IsByte key
    → udp_received key (Keys.xor_string text key)
      ≡ (if ltb 198 (length text) then none else some text)
unfolding udp_received Keys.xor_string
udp_received-xor_string text key h k = elim (Bool-cases (ltb 198 (length text))) [
  | inl long ↦ rw long (ground (arith, length-xor_loop key 0 text))
  | inr short ↦
      let size : length text < 256 = ground arith in
      let small : ltb 200 (suc (suc (length text))) ≡ false = ground arith in
      let least : ltb (suc (suc (length text))) 2 ≡ false = ground arith in
      let same : (suc (suc (length text)) - 2 == length text) ≡ true = ground arith in
      rw (
        short,
        length-xor_loop key 0 text,
        small,
        least,
        header text size,
        same,
        decrypted text key h k,
      )
]
