-- ===== src/UsbPatcher/Outcome.antt =====
-- What a run of a patcher does to the file.
use mltk.Common.{
  ℕ, ◌+◌, ◌-◌, ◌%◌, ◌≤◌, ◌⊎◌, ◌<◌, ◌≡◌, refl, sym, ◌∙◌, ap, subst, arith, Bool, true, false, List,
  ◌∷◌, Option, none, some, length, take, set, inl, inr, if_true, if_false, not,
}
use mltk.UsbPatcher.{Patch, File, Run, exit, found_at, found, usb_patcher, find_sequence}
use mltk.UsbPatcher.Search.{stands_at, IsFirst, find_sequence_lem}

-- What an exit code says of the mapped part of the file, and what becomes of the file.
unfoldable pub Explains : Patch → List ℕ → List ℕ → Run → Type 0
Explains p exe bytes run =
    ((run ≡ exit 4 bytes) × ((j : ℕ) → stands_at exe p.sequence j ≡ false))
    ⊎ (((i : ℕ) × (j : ℕ) × (i + p.width ≤ j)
          × (run ≡ exit 5 bytes)
          × (stands_at exe p.sequence i ≡ true)
          × (stands_at exe p.sequence j ≡ true))
        ⊎ ((i : ℕ) × (run ≡ exit 0 (set bytes (i + p.place) p.byte))
            × (stands_at exe p.sequence i ≡ true)
            × ((j : ℕ) → stands_at exe p.sequence j ≡ true → (i ≤ j) × (j < i + p.width))))

le_or_lt : (i j : ℕ) → (i ≤ j) ⊎ (j < i)
le_or_lt i j = ground arith

clash : (b : Bool) → b ≡ true → b ≡ false → ⊥
clash true t f = cc
clash false t f = cc

module _ (p : Patch) (exe bytes : List ℕ) where
  found_at_lem :
      (i : ℕ) (o : Option ℕ)
      → IsFirst exe p.sequence 0 (some i)
      → IsFirst exe p.sequence (i + p.width) o
      → Explains p exe bytes (found_at p bytes i o)
  unfolding Explains found_at
  found_at_lem i none (le, here, before) none_later =
      inr (inr (i, refl, here, λ j there. (in_front i j there before, behind i j there none_later)))
    where
      in_front :
          (i j : ℕ)
          → stands_at exe p.sequence j ≡ true
          → ((j : ℕ) → 0 ≤ j → j < i → stands_at exe p.sequence j ≡ false)
          → i ≤ j
      in_front i j there before = elim (le_or_lt i j) [
        | inl le ↦ le
        | inr lt ↦ absurd (clash _ there (before j (omega arith) lt))
      ]

      behind :
          (i j : ℕ)
          → stands_at exe p.sequence j ≡ true
          → ((j : ℕ) → i + p.width ≤ j → stands_at exe p.sequence j ≡ false)
          → j < i + p.width
      behind i j there later = elim (le_or_lt (i + p.width) j) [
        | inl le ↦ absurd (clash _ there (later j le))
        | inr lt ↦ lt
      ]
  found_at_lem i (some j) (le, here, before) (from, there, between) =
      inr (inl (i, j, from, refl, here, there))

  found_lem :
      (c : ℕ) (cs : List ℕ)
      → p.sequence ≡ c ∷ cs
      → (o : Option ℕ) → IsFirst exe p.sequence 0 o
      → Explains p exe bytes (found p exe bytes o)
  unfolding found
  found_lem c cs is none h = unfold Explains in inl (refl, λ j. h j (omega arith))
  found_lem c cs is (some i) h = found_at_lem i _ h (find_sequence_lem p c cs exe (i + p.width) is)

-- For a sequence that is not empty, a run on a file that is opened and mapped changes nothing and
-- exits with 4 if the sequence is not in the file's whole pages, or with 5 if it is there twice,
-- the second behind the first; or it changes the one byte of the first occurrence, which no other
-- follows from the given distance on, and exits with 0.
pub usb_patcher_lem :
    (p : Patch) (c : ℕ) (cs : List ℕ) (f : File)
    → p.sequence ≡ c ∷ cs
    → f.opens ≡ true
    → f.seeks ≡ true
    → f.maps ≡ true
    → Explains p
        (take (length f.bytes - length f.bytes % f.page_size) f.bytes)
        f.bytes
        (usb_patcher p f)
unfolding usb_patcher
usb_patcher_lem p c cs f is opens seeks maps =
    let exe : List ℕ = take (length f.bytes - length f.bytes % f.page_size) f.bytes in
    let path : usb_patcher p f ≡ found p exe f.bytes (find_sequence p exe 0) =
      if_false _ _ (not f.opens) (ap not opens)
      ∙ if_false _ _ (not f.seeks) (ap not seeks)
      ∙ if_true _ _ f.maps maps in
    subst (λ r. Explains p exe f.bytes r) (sym path)
      (found_lem p exe f.bytes c cs is (find_sequence p exe 0) (find_sequence_lem p c cs exe 0 is))
