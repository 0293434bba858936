-- ===== src/Winres/Secret.antt =====
-- The guest's half of the password exchange, core/modules/run-virt/winres/src/winres.c: `getbin`,
-- `hex2bin`, `xorString` and `udpReceived`.
use mltk.Common.{
  ℕ, ◌+◌, ◌-◌, ◌*◌, ◌%◌, ◌^◌, bit_or, bit_xor, ◌&&◌, List, [], ◌∷◌, Option, none, some,
  if◌then◌else◌, ltb, leb, ◌==◌, length, get_or, take, drop, u8, u16, c_str,
}

abbrev pub keylen : ℕ
keylen = 16

-- An `int` as its 32 bits. A `char` from 128 on is negative there.
abbrev sign_extend : ℕ → ℕ
sign_extend x = if ltb x 128 then x else x + 2 ^ 32 - 256

unfoldable pub getbin : ℕ → ℕ
getbin x =
    if leb b'0' x && leb x b'9'
    then x - b'0'
    else if leb b'A' x && leb x b'F'
    then x - b'A' + 10
    else (sign_extend x + 2 ^ 32 - b'a' + 10) % 2 ^ 32

-- `(uint8_t)((getbin(p[0]) << 4) | getbin(p[1]))` for each pair; an odd digit at the end is left.
unfoldable pub hex2bin : List ℕ → List ℕ
unfolding getbin
hex2bin [] = []
hex2bin (p ∷ []) = []
hex2bin (p ∷ q ∷ ps) = u8 (bit_or (getbin p * 2 ^ 4 % 2 ^ 32) (getbin q)) ∷ hex2bin ps

unfoldable pub xor_loop : List ℕ → ℕ → List ℕ → List ℕ
xor_loop key i [] = []
xor_loop key i (t ∷ text) = bit_xor t (get_or key (i % keylen) 0) ∷ xor_loop key (i + 1) text

-- The result is read as a C string.
unfoldable pub xor_string : List ℕ → ℕ → List ℕ → List ℕ
unfolding xor_loop
xor_string text len key = c_str (xor_loop key 0 (take len text))

abbrev pub recv_size : ℕ
recv_size = 200

-- The password of a datagram, if it is taken for a reply. `recv` fails on one that is longer than
-- the buffer.
unfoldable pub udp_received : List ℕ → List ℕ → Option (List ℕ)
unfolding xor_string
udp_received bkey2 datagram =
    if ltb recv_size (length datagram)
    then none
    else if ltb (length datagram) 2
    then none
    else (let len = u16 (bit_or (get_or datagram 0 0 * 2 ^ 8) (get_or datagram 1 0)) in
        if length datagram - 2 == len then some (xor_string (drop 2 datagram) len bkey2) else none)
