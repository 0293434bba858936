-- ===== src/PwDaemon/Keys.antt =====
-- The key material of core/modules/run-virt/pw_daemon.c: `keygen`, `xorString`, `bin2hex` and
-- `setup_vars`. Allocation does not fail here.
pub mod Stream
pub mod Setup
use mltk.Common.{
  ℕ, zero, suc, ◌+◌, ◌-◌, ◌/◌, ◌%◌, ◌^◌, bit_and, bit_xor, Bool, false, ◌&&◌, List, [], ◌∷◌, ◌++◌,
  Option, none, some, if◌then◌else◌, ltb, length, take, get_or, u8,
}

abbrev pub keylen : ℕ
keylen = 16

-- What a read of /dev/urandom gives: EINTR, another error, or some bytes (none at its end).
pub data Read : Type 0 where
  interrupted failed : Read
  chunk : List ℕ → Read

-- /dev/urandom during one `keygen`. `entropy` is what RNDGETENTCNT reports, if it succeeds, and
-- `reads` the results in order; past their end a read returns 0.
pub record Device : Type 0 where
  pub opens : Bool
  pub entropy : Option ℕ
  pub reads : List Read

-- The read loop, from the bytes that are there. A read gives at most the bytes that were asked for.
unfoldable pub read_loop : List Read → List ℕ → List ℕ
read_loop [] key = key
read_loop (interrupted ∷ rs) key = if ltb (length key) keylen then read_loop rs key else key
read_loop (failed ∷ rs) key = key
read_loop (chunk bs ∷ rs) key =
    let got = take (keylen - length key) bs in
    let rest = read_loop rs (key ++ got) in
    if ltb (length key) keylen && ltb 0 (length got) then rest else key

-- The rest of the key from `rand()`, whose k-th result is `rand k`.
unfoldable pub fill_random : ℕ → (ℕ → ℕ) → ℕ → List ℕ
fill_random zero rand k = []
fill_random (suc n) rand k = u8 (bit_and (rand k) 0xff) ∷ fill_random n rand (k + 1)

abbrev pub has_entropy : Option ℕ → Bool
has_entropy none = false
has_entropy (some n) = ltb 0 n

unfoldable pub device_bytes : Device → List ℕ
unfolding read_loop
device_bytes d = if d.opens && has_entropy d.entropy then read_loop d.reads [] else []

-- The key, and the number of the next call of `rand()`.
unfoldable pub keygen : Device → (ℕ → ℕ) → ℕ → List ℕ × ℕ
unfolding device_bytes fill_random
keygen d rand k =
    let got = device_bytes d in
    let left = keylen - length got in (got ++ fill_random left rand k, k + left)

-- `text[i] ^ key[i % KEYLEN]`, from index i on.
unfoldable pub xor_loop : List ℕ → ℕ → List ℕ → List ℕ
xor_loop key i [] = []
xor_loop key i (t ∷ text) = bit_xor t (get_or key (i % keylen) 0) ∷ xor_loop key (i + 1) text

-- Two bytes of length, then the text. In `(uint8_t)(len & 0xff00) >> 8` the cast comes first.
unfoldable pub xor_string : List ℕ → List ℕ → List ℕ
unfolding xor_loop
xor_string text key =
    let len = length text in
    u8 (u8 (bit_and len 0xff00) / 2 ^ 8) ∷ u8 (bit_and len 0xff) ∷ xor_loop key 0 text

abbrev pub hexconvtab : List ℕ
hexconvtab =
    b'0' ∷ b'1' ∷ b'2' ∷ b'3' ∷ b'4' ∷ b'5' ∷ b'6' ∷ b'7' ∷ b'8' ∷ b'9' ∷ b'a' ∷ b'b' ∷ b'c' ∷ b'd'
    ∷ b'e' ∷ b'f' ∷ []

unfoldable pub bin2hex : List ℕ → List ℕ
bin2hex [] = []
bin2hex (b ∷ bin) =
    get_or hexconvtab (b / 2 ^ 4) 0 ∷ get_or hexconvtab (bit_and b 0xf) 0 ∷ bin2hex bin

-- The daemon's static variables.
pub record Vars : Type 0 where
  pub username : List ℕ
  pub password_enc : List ℕ
  pub password_len : ℕ
  pub key1 : List ℕ
  pub key2 : List ℕ
  pub key1s : List ℕ
  pub key2s : List ℕ

-- `rand` is the sequence after `srand`; each `keygen` reads the device anew.
unfoldable pub setup_vars : Device → Device → (ℕ → ℕ) → List ℕ → List ℕ → Vars × ℕ
setup_vars d1 d2 rand envuser envpass =
    let (key1, k) = keygen d1 rand 0 in
    let (key2, k') = keygen d2 rand k in
    (
      record {
        username = envuser;
        password_enc = xor_string envpass key2;
        password_len = length envpass + 2;
        key1 = key1;
        key2 = key2;
        key1s = bin2hex key1;
        key2s = bin2hex key2;
      },
      k',
    )
