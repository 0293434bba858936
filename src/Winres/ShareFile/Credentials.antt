-- ===== src/Winres/ShareFile/Credentials.antt =====
-- The first line of shares.dat: five fields, and when they are accepted.
use mltk.Common.{
  ℕ, ◌≤◌, ◌<◌, ◌≡◌, ◌≢◌, refl, true, List, [], ◌∷◌, ◌++◌, some, arith, length, get_or, All, atoi,
  pos,
}
use mltk.Winres.Secret.{hex2bin}
use mltk.Winres.Token.{strip_end}
use mltk.Winres.Token.Trim.{IsPlain, IsField, get_token_field}
use mltk.Winres.ShareFile.{read_creds, Shares, check_creds}

-- Five fields, with tabs between them, on a line.
abbrev pub creds_line : List ℕ → List ℕ → List ℕ → List ℕ → List ℕ → List ℕ → List ℕ
creds_line host port hex1 hex2 user rest =
    host
    ++ (b'\t'
        ∷ (port ++ (b'\t' ∷ (hex1 ++ (b'\t' ∷ (hex2 ++ (b'\t' ∷ (user ++ (b'\n' ∷ rest)))))))))

-- Fields separated by tabs are read back one by one.
pub read_creds-creds_line :
    (host port hex1 hex2 user rest : List ℕ)
    → IsField host
    → IsField port
    → IsField hex1
    → IsField hex2
    → IsField user
    → read_creds (creds_line host port hex1 hex2 user rest) ≡ record {
      host = some host;
      port = some port;
      hex1 = some hex1;
      hex2 = some hex2;
      user = some user;
    }
unfolding read_creds
read_creds-creds_line host port hex1 hex2 user rest fh fp f1 f2 fu = rw (
  get_token_field host b'\t' _ fh refl,
  get_token_field port b'\t' _ fp refl,
  get_token_field hex1 b'\t' _ f1 refl,
  get_token_field hex2 b'\t' _ f2 refl,
  get_token_field user b'\n' _ fu refl,
)

visible-IsPlain : (s : List ℕ) → All (λ c. 32 < c) s → All IsPlain s
visible-IsPlain [] h = tt
visible-IsPlain (c ∷ s) h = (ground arith, visible-IsPlain s h.1)

first : (s : List ℕ) → All (λ c. 32 < c) s → get_or s 0 b'x' ≢ b' '
first [] h = λ e. omega arith
first (c ∷ s) h = λ e. omega arith

last : (s : List ℕ) → All (λ c. 32 < c) s → strip_end s ≡ s
unfolding strip_end
last [] h = refl
last (c ∷ s) h = ground (arith, last s h.1)

-- Visible characters make a field.
pub visible-IsField : (s : List ℕ) → All (λ c. 32 < c) s → IsField s
visible-IsField s h = record {
  plain = visible-IsPlain s h;
  no_blank_first = first s h;
  no_blank_last = last s h;
}

-- Keys of the right length and a port in range, in a line that is not the demo mode's.
pub check_creds_accepts :
    (st : Shares) (host port hex1 hex2 : List ℕ) (n : ℕ)
    → get_or host 0 0 ≢ b'-'
    → length hex1 ≡ 32
    → length hex2 ≡ 32
    → atoi port ≡ pos n
    → 1000 ≤ n
    → n ≤ 65535
    → check_creds st host port hex1 hex2
      ≡ record st { bkey1 = some (hex2bin hex1); bkey2 = some (hex2bin hex2); share_file_ok = true }
unfolding check_creds
check_creds_accepts st host port hex1 hex2 n hh h1 h2 hp lo hi = ground arith
