-- ===== src/UsbPatcher/Search.antt =====
-- The search finds the first place of the sequence, if there is one.
use mltk.Common.{
  ℕ, zero, suc, ◌+◌, ◌-◌, ◌≤◌, ◌<◌, ◌≡◌, refl, sym, ◌∙◌, ap, Bool, true, false, List, [], ◌∷◌,
  Option, none, some, drop, starts_with, arith, Bool-cases, inl, inr, subst,
}
use mltk.UsbPatcher.{memmem, Patch, find_sequence}

-- The sequence stands at place i of the buffer.
abbrev pub stands_at : List ℕ → List ℕ → ℕ → Bool
stands_at buffer sequence i = starts_with (drop i buffer) sequence

-- The result of a search is the first place from `offset` on, or there is none.
abbrev pub IsFirst : List ℕ → List ℕ → ℕ → Option ℕ → Type 0
IsFirst buffer sequence offset none = (j : ℕ) → offset ≤ j → stands_at buffer sequence j ≡ false
IsFirst buffer sequence offset (some i) =
    (offset ≤ i)
    × (stands_at buffer sequence i ≡ true)
    × ((j : ℕ) → offset ≤ j → j < i → stands_at buffer sequence j ≡ false)

drop_nil {ℓ} : {A : Type ℓ} (n : ℕ) → drop {A = A} n [] ≡ []
drop_nil zero = refl
drop_nil (suc n) = refl

nothing_stands : (c : ℕ) (cs : List ℕ) (j : ℕ) → stands_at [] (c ∷ cs) j ≡ false
unfolding starts_with
nothing_stands c cs zero = refl
nothing_stands c cs (suc j) = refl

module _ (x : ℕ) (xs : List ℕ) (s : List ℕ) (other : stands_at (x ∷ xs) s 0 ≡ false) where
  before_next :
      (n : ℕ)
      → ((j : ℕ) → 0 ≤ j → j < n → stands_at xs s j ≡ false)
      → (j : ℕ) → 0 ≤ j
      → j < suc n
      → stands_at (x ∷ xs) s j ≡ false
  before_next n all zero le lt = other
  before_next n all (suc j) le lt = all j (omega arith) (omega arith)

  all_next :
      ((j : ℕ) → 0 ≤ j → stands_at xs s j ≡ false)
      → (j : ℕ) → 0 ≤ j
      → stands_at (x ∷ xs) s j ≡ false
  all_next all zero le = other
  all_next all (suc j) le = all j (omega arith)

  IsFirst-next :
      (o : Option ℕ)
      → IsFirst xs s 0 o
      → IsFirst (x ∷ xs) s 0 (elim o [ none ↦ none | some i ↦ some (suc i) ])
  IsFirst-next none h = all_next h
  IsFirst-next (some i) (le, here, before) = (omega arith, here, before_next i before)

memmem_lem :
    (buffer : List ℕ) (c : ℕ) (cs : List ℕ) → IsFirst buffer (c ∷ cs) 0 (memmem buffer (c ∷ cs))
unfolding memmem
memmem_lem [] c cs = λ j le. nothing_stands c cs j
memmem_lem (x ∷ xs) c cs = elim (Bool-cases (starts_with (x ∷ xs) (c ∷ cs))) [
  | inl here ↦ rw here (omega arith, here, λ j le lt. absurd (omega arith))
  | inr other ↦ rw other (IsFirst-next x xs (c ∷ cs) other _ (memmem_lem xs c cs))
]

drop-drop {ℓ} : {A : Type ℓ} (n m : ℕ) (xs : List A) → drop m (drop n xs) ≡ drop (n + m) xs
drop-drop zero m xs = let e : 0 + m ≡ m = omega arith in rw e
drop-drop (suc n) m [] = let e : suc n + m ≡ suc (n + m) = omega arith in rw (e, drop_nil m)
drop-drop (suc n) m (x ∷ xs) =
    let e : suc n + m ≡ suc (n + m) = omega arith in rw e (drop-drop n m xs)

-- A place from the offset on, counted from the offset.
at_offset :
    (buffer s : List ℕ) (offset j : ℕ)
    → offset ≤ j
    → stands_at (drop offset buffer) s (j - offset) ≡ stands_at buffer s j
at_offset buffer s offset j le =
    let e : offset + (j - offset) ≡ j = omega arith in
    ap (λ b. starts_with b s) (drop-drop offset (j - offset) buffer ∙ ap (λ k. drop k buffer) e)

IsFirst-offset :
    (buffer s : List ℕ) (offset : ℕ) (o : Option ℕ)
    → IsFirst (drop offset buffer) s 0 o
    → IsFirst buffer s offset (elim o [ none ↦ none | some i ↦ some (offset + i) ])
IsFirst-offset buffer s offset none h =
    λ j le. sym (at_offset buffer s offset j le) ∙ h (j - offset) (omega arith)
IsFirst-offset buffer s offset (some i) (le, here, before) =
    let e : offset + i - offset ≡ i = omega arith in
    (
      omega arith,
      sym (at_offset buffer s offset (offset + i) (omega arith))
          ∙ ap (λ k. stands_at (drop offset buffer) s k) e
          ∙ here,
      λ j from to.
          sym (at_offset buffer s offset j from) ∙ before (j - offset) (omega arith) (omega arith),
    )

-- A search for a sequence that is not empty gives the first place from its offset on.
pub find_sequence_lem :
    (p : Patch) (c : ℕ) (cs buffer : List ℕ) (offset : ℕ)
    → p.sequence ≡ c ∷ cs
    → IsFirst buffer p.sequence offset (find_sequence p buffer offset)
unfolding find_sequence
find_sequence_lem p c cs buffer offset is =
    IsFirst-offset buffer p.sequence offset (memmem (drop offset buffer) p.sequence) (
      subst (λ s. IsFirst (drop offset buffer) s 0 (memmem (drop offset buffer) s)) (sym is)
        (memmem_lem (drop offset buffer) c cs))
