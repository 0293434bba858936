-- ===== src/Winres/Token/Trim.antt =====
-- What `getToken` cuts off, and what it keeps.
use mltk.Common.{
  ℕ, suc, ◌-◌, ◌<◌, ◌≡◌, ◌≢◌, refl, ap, ◌∙◌, true, false, List, [], ◌∷◌, ◌++◌, some, arith, ltb,
  length, length-append, get_or, take, All, All-append, lt→ltb,
}
use mltk.Winres.Token.{is_delimiter, scan, strip_end, trim_token, get_token}

-- A character that is neither a delimiter nor the end of the text.
abbrev pub IsPlain : ℕ → Type 0
IsPlain c = (c ≢ 0) × (c ≢ b'\t') × (c ≢ b'\n') × (c ≢ b'\r')

-- A field that trimming leaves alone.
pub record IsField (s : List ℕ) : Type 0 where
  pub plain : All IsPlain s
  pub no_blank_first : get_or s 0 b'x' ≢ b' '
  pub no_blank_last : strip_end s ≡ s

scan_field :
    (s : List ℕ) (d : ℕ) (rest : List ℕ)
    → All IsPlain s
    → is_delimiter d ≡ true
    → scan (s ++ d ∷ rest) ≡ record { token = s; delimited = true; rest = rest }
unfolding scan
scan_field [] d rest h k = rw k
scan_field (c ∷ s) d rest h k = ground (arith, scan_field s d rest h.1 k)

-- A field of printable characters with no blank at either end that stands before a delimiter is
-- returned whole, and the pointer moves past the delimiter.
pub get_token_field :
    (s : List ℕ) (d : ℕ) (rest : List ℕ)
    → IsField s
    → is_delimiter d ≡ true
    → get_token (s ++ d ∷ rest) true ≡ (some s, rest)
unfolding get_token
get_token_field [] d rest h k = ground (arith, scan_field [] d rest tt k, h.no_blank_last)
get_token_field (c ∷ s) d rest h k =
    ground (arith, scan_field (c ∷ s) d rest h.plain k, h.no_blank_last, h.no_blank_first)

scan-All :
    (s : List ℕ) → All IsPlain s → scan s ≡ record { token = s; delimited = false; rest = [] }
unfolding scan
scan-All [] h = refl
scan-All (c ∷ s) h = ground (arith, scan-All s h.1)

strip_end-snoc : (s : List ℕ) → strip_end (s ++ b' ' ∷ []) ≡ strip_end s
unfolding strip_end
strip_end-snoc [] = refl
strip_end-snoc (c ∷ s) = ground (arith, strip_end-snoc s)

get_or-middle : (s : List ℕ) (c : ℕ) (rest : List ℕ) → get_or (s ++ c ∷ rest) (length s) 0 ≡ c
get_or-middle [] c rest = refl
get_or-middle (x ∷ s) c rest = get_or-middle s c rest

take-middle :
    (s : List ℕ) (c : ℕ) (rest : List ℕ) → take (suc (length s)) (s ++ c ∷ rest) ≡ s ++ c ∷ []
take-middle [] c rest = refl
take-middle (x ∷ s) c rest = ap (λ xs. x ∷ xs) (take-middle s c rest)

trim_token_end :
    (s : List ℕ) (c : ℕ)
    → 0 < length s
    → strip_end s ≡ s
    → trim_token (record { token = s ++ b' ' ∷ c ∷ []; delimited = false; rest = [] }) ≡ s
unfolding trim_token
trim_token_end s c h e =
    let size : length (s ++ b' ' ∷ c ∷ []) - 1 ≡ suc (length s) =
      omega (arith, length-append s (b' ' ∷ c ∷ [])) in
    let some_left : ltb 0 (suc (length s)) ≡ true = lt→ltb 0 (suc (length s)) (omega arith) in
    let before : suc (length s) - 1 ≡ length s = omega arith in
    rw (size, some_left, before, get_or-middle s b' ' (c ∷ []), take-middle s b' ' (c ∷ []))
      (strip_end-snoc s ∙ e)

-- Where the text ends without a delimiter, trimming looks one character too far to the left: of a
-- field that ends in a blank and one more character, both are cut off.
pub get_token_cuts_last :
    (s : List ℕ) (c : ℕ)
    → IsField s
    → 0 < length s
    → IsPlain c
    → get_token (s ++ b' ' ∷ c ∷ []) true ≡ (some s, [])
unfolding get_token
get_token_cuts_last [] c f h k = absurd (omega arith)
get_token_cuts_last (x ∷ s) c f h k =
    let fits : All IsPlain (x ∷ s ++ b' ' ∷ c ∷ []) =
      All-append IsPlain (x ∷ s) (b' ' ∷ c ∷ []) f.plain (ground arith, (k, tt)) in
    ground (
      arith,
      scan-All (x ∷ s ++ b' ' ∷ c ∷ []) fits,
      trim_token_end (x ∷ s) c h f.no_blank_last,
      f.no_blank_first,
    )
