-- ===== src/UsbPatcher/Settled.antt =====
-- Where the byte is written the sequence cannot stand again.
use mltk.Common.{
  ℕ, zero, suc, ◌+◌, ◌-◌, ◌≤◌, ◌<◌, ◌≡◌, ◌⊎◌, inl, inr, refl, sym, ap, ◌∙◌, Bool, true, not, ◌&&◌,
  ◌||◌, List, arith, length, drop, set, get_or, starts_with, ◌==◌, ltb,
}
use mltk.UsbPatcher.{Patch, vmware16, vmware17}
use mltk.UsbPatcher.Search.{stands_at}
use mltk.UsbPatcher.Bytes.{
  drop-set_before, starts_with-set, starts_with-written, drop-set, get_or-set_other, byte_at,
}

-- The sequence cannot stand again behind the byte that is written, nor over it.
pub record IsSettled (p : Patch) : Type 0 where
  pub whole : p.width ≡ length p.sequence
  pub inside : p.place < length p.sequence
  pub not_first : 0 < p.place
  pub behind :
      (d : ℕ)
      → p.place < d
      → d < length p.sequence
      → get_or p.sequence d 0 ≡ get_or p.sequence 0 0
      → ⊥
  pub over :
      (t : ℕ)
      → t < length p.sequence
      → get_or p.sequence t 0 ≡ p.byte
      → (p.place < t) × (get_or p.sequence (t - p.place) 0 ≡ get_or p.sequence 0 0 → ⊥)

where_stands : (j k n : ℕ) → (k < j) ⊎ ((j + n ≤ k) ⊎ ((j ≤ k) × (k < j + n)))
where_stands j k n = ground arith

module _ (p : Patch) (settled : IsSettled p) (exe : List ℕ) (i : ℕ)
    (stands : stands_at exe p.sequence i ≡ true)
    (only : (j : ℕ) → stands_at exe p.sequence j ≡ true → (i ≤ j) × (j < i + p.width)) where
  pub gone : (j : ℕ) → stands_at (set exe (i + p.place) p.byte) p.sequence j ≡ true → ⊥
  gone j again = elim (where_stands j (i + p.place) (length p.sequence)) [
    | inl before ↦
        let there : stands_at exe p.sequence j ≡ true =
          ap (λ xs. starts_with xs p.sequence)
            (sym (drop-set_before j (i + p.place) p.byte exe before))
          ∙ again in
        let near = only j there in
        let shift : i + (j - i) ≡ j + 0 = omega (arith, near.0) in
        settled.behind (j - i) (omega (arith, near.0)) (omega (arith, near.1, settled.whole)) (
          sym (byte_at exe p.sequence i (j - i) (omega (arith, near.1, settled.whole)) stands)
          ∙ ap (λ n. get_or exe n 0) shift
          ∙ byte_at exe p.sequence j 0 (omega (arith, settled.inside)) there)
    | inr (inl after) ↦
        let there : stands_at exe p.sequence j ≡ true =
          sym (starts_with-set (i + p.place - j) p.byte (drop j exe) p.sequence (omega arith))
          ∙ ap (λ xs. starts_with xs p.sequence)
              (sym (drop-set j (i + p.place) p.byte exe (omega arith)))
          ∙ again in
        absurd (omega (arith, (only j there).0, settled.inside))
    | inr (inr (from, to)) ↦
        let t : ℕ = i + p.place - j in
        let written = starts_with-written t p.byte (drop j exe) p.sequence (omega arith) (
          ap (λ xs. starts_with xs p.sequence) (sym (drop-set j (i + p.place) p.byte exe from))
          ∙ again) in
        let late = settled.over t (omega arith) written in
        let back : j + (t - p.place) ≡ i = omega (arith, late.0) in
        late.1 (
          sym
            (byte_at (set exe (i + p.place) p.byte) p.sequence j (t - p.place) (omega arith) again)
          ∙ ap (λ n. get_or (set exe (i + p.place) p.byte) n 0) back
          ∙ get_or-set_other i (i + p.place) p.byte exe (omega (arith, settled.not_first))
          ∙ ap (λ n. get_or exe n 0) {x = i} {y = i + 0} (omega arith)
          ∙ byte_at exe p.sequence i 0 (omega (arith, settled.inside)) stands)
  ]

-- A test of all numbers below one.
abbrev all_below : ℕ → (ℕ → Bool) → Bool
all_below zero test = true
all_below (suc n) test = test n && all_below n test

last_or_before : (t n : ℕ) → t < suc n → (n ≡ t) ⊎ (t < n)
last_or_before t n h = ground arith

both : (a b : Bool) → (a && b) ≡ true → (a ≡ true) × (b ≡ true)
both a b h = ground arith

all_below_lem :
    (n : ℕ) (test : ℕ → Bool) → all_below n test ≡ true → (t : ℕ) → t < n → test t ≡ true
all_below_lem zero test h t lt = absurd (omega arith)
all_below_lem (suc n) test h t lt =
    let parts = both (test n) (all_below n test) h in
    elim (last_or_before t n lt) [
      | inl last ↦ ap test (sym last) ∙ parts.0
      | inr before ↦ all_below_lem n test parts.1 t before
    ]

-- The two tests of a sequence.
abbrev is_clear_behind : Patch → ℕ → Bool
is_clear_behind p d = not (ltb p.place d) || not (get_or p.sequence d 0 == get_or p.sequence 0 0)

abbrev is_clear_over : Patch → ℕ → Bool
is_clear_over p t =
    not (get_or p.sequence t 0 == p.byte)
    || (ltb p.place t && not (get_or p.sequence (t - p.place) 0 == get_or p.sequence 0 0))

clear_behind : (a d x y : ℕ) → (not (ltb a d) || not (x == y)) ≡ true → a < d → x ≡ y → ⊥
clear_behind a d x y h lt e = ground arith

clear_over :
    (a t x y u v : ℕ)
    → (not (x == y) || (ltb a t && not (u == v))) ≡ true
    → x ≡ y
    → (a < t) × (u ≡ v → ⊥)
clear_over a t x y u v h e = ground arith

tested-IsSettled :
    (p : Patch)
    → p.width ≡ length p.sequence
    → p.place < length p.sequence
    → 0 < p.place
    → all_below (length p.sequence) (is_clear_behind p) ≡ true
    → all_below (length p.sequence) (is_clear_over p) ≡ true
    → IsSettled p
tested-IsSettled p whole inside not_first behind over = record {
  whole = whole;
  inside = inside;
  not_first = not_first;
  behind = λ d late lt same.
      clear_behind p.place d (get_or p.sequence d 0) (get_or p.sequence 0 0)
        (all_below_lem (length p.sequence) (is_clear_behind p) behind d lt) late same;
  over = λ t lt same.
      clear_over p.place t (get_or p.sequence t 0) p.byte (get_or p.sequence (t - p.place) 0)
        (get_or p.sequence 0 0) (all_below_lem (length p.sequence) (is_clear_over p) over t lt)
        same;
}

pub vmware16-IsSettled : IsSettled vmware16
vmware16-IsSettled = tested-IsSettled vmware16 refl (omega arith) (omega arith) refl refl

pub vmware17-IsSettled : IsSettled vmware17
vmware17-IsSettled = tested-IsSettled vmware17 refl (omega arith) (omega arith) refl refl
