-- ===== src/PwDaemon/Keys/Setup.antt =====
-- The daemon's variables after `setup_vars`.
use mltk.Common.{ℕ, ◌+◌, ◌≡◌, refl, List, length, All, IsByte}
use mltk.PwDaemon.Keys.{Device, Vars, keygen, setup_vars, xor_string, bin2hex}
use mltk.PwDaemon.Keys.Stream.{IsReads, keygen-IsKey}

-- Two keys of 16 bytes with their hexadecimal forms, and the password under the second.
pub record IsSetUp (user password : List ℕ) (v : Vars) : Type 0 where
  pub named : v.username ≡ user
  pub encrypted : v.password_enc ≡ xor_string password v.key2
  pub sized : v.password_len ≡ length password + 2
  pub key1_size : length v.key1 ≡ 16
  pub key1_bytes : All IsByte v.key1
  pub key2_size : length v.key2 ≡ 16
  pub key2_bytes : All IsByte v.key2
  pub key1_hex : v.key1s ≡ bin2hex v.key1
  pub key2_hex : v.key2s ≡ bin2hex v.key2

-- Whatever the random device does, if its reads give bytes, the variables are set up: two keys of
-- 16 bytes with their hexadecimal forms, the user's name, and the password encrypted under the
-- second key with its length.
pub setup_vars-IsSetUp :
    (d1 d2 : Device) (rand : ℕ → ℕ) (user password : List ℕ)
    → IsReads d1.reads
    → IsReads d2.reads
    → IsSetUp user password (setup_vars d1 d2 rand user password).0
unfolding setup_vars
setup_vars-IsSetUp d1 d2 rand user password h1 h2 =
    let first = keygen-IsKey d1 rand 0 h1 in
    let second = keygen-IsKey d2 rand (keygen d1 rand 0).1 h2 in
    record {
      named = refl;
      encrypted = refl;
      sized = refl;
      key1_size = first.0;
      key1_bytes = first.1;
      key2_size = second.0;
      key2_bytes = second.1;
      key1_hex = refl;
      key2_hex = refl;
    }
