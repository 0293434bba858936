-- ===== src/UsbPatcher/Bytes.antt =====
-- The bytes of a file where one of them is written.
use mltk.Common.{
  ℕ, zero, suc, ◌+◌, ◌-◌, ◌≤◌, ◌<◌, ◌≡◌, refl, sym, ap, ◌∙◌, Bool, true, ◌&&◌, List, [], ◌∷◌, arith,
  length, take, drop, set, get_or, starts_with, ◌==◌,
}
use mltk.UsbPatcher.Search.{stands_at}

pub take-set : (n k b : ℕ) (xs : List ℕ) → take n (set xs k b) ≡ set (take n xs) k b
take-set zero k b xs = refl
take-set (suc n) k b [] = refl
take-set (suc n) zero b (x ∷ xs) = refl
take-set (suc n) (suc k) b (x ∷ xs) = ap (◌∷◌ x) (take-set n k b xs)

-- A change in front of a place, and one behind the sequence, makes no difference.
pub drop-set_before : (j k b : ℕ) (xs : List ℕ) → k < j → drop j (set xs k b) ≡ drop j xs
drop-set_before zero k b xs h = absurd (omega arith)
drop-set_before (suc j) k b [] h = refl
drop-set_before (suc j) zero b (x ∷ xs) h = refl
drop-set_before (suc j) (suc k) b (x ∷ xs) h = drop-set_before j k b xs (omega arith)

pub starts_with-set :
    (m b : ℕ) (ys s : List ℕ) → length s ≤ m → starts_with (set ys m b) s ≡ starts_with ys s
unfolding starts_with
starts_with-set m b [] s h = refl
starts_with-set m b (y ∷ ys) [] h = refl
starts_with-set zero b (y ∷ ys) (c ∷ s) h = absurd (omega arith)
starts_with-set (suc m) b (y ∷ ys) (c ∷ s) h =
    ap (λ r. y == c && r) (starts_with-set m b ys s (omega arith))

match_parts : (c y : ℕ) (r : Bool) → (y == c && r) ≡ true → (y ≡ c) × (r ≡ true)
match_parts c y r h = ground arith

-- A change in between writes a byte of the sequence.
pub starts_with-written :
    (m b : ℕ) (ys s : List ℕ) → m < length s → starts_with (set ys m b) s ≡ true → get_or s m 0 ≡ b
unfolding starts_with
starts_with-written m b ys [] h e = absurd (omega arith)
starts_with-written m b [] (c ∷ s) h e = cc
starts_with-written zero b (y ∷ ys) (c ∷ s) h e = sym (match_parts c b (starts_with ys s) e).0
starts_with-written (suc m) b (y ∷ ys) (c ∷ s) h e =
    starts_with-written m b ys s (omega arith) (match_parts c y (starts_with (set ys m b) s) e).1

starts_with-get_or :
    (t : ℕ) (ys s : List ℕ) → t < length s → starts_with ys s ≡ true → get_or ys t 0 ≡ get_or s t 0
unfolding starts_with
starts_with-get_or t ys [] h e = absurd (omega arith)
starts_with-get_or t [] (c ∷ s) h e = cc
starts_with-get_or zero (y ∷ ys) (c ∷ s) h e = (match_parts c y (starts_with ys s) e).0
starts_with-get_or (suc t) (y ∷ ys) (c ∷ s) h e =
    starts_with-get_or t ys s (omega arith) (match_parts c y (starts_with ys s) e).1

pub drop-set : (j k b : ℕ) (xs : List ℕ) → j ≤ k → drop j (set xs k b) ≡ set (drop j xs) (k - j) b
drop-set zero k b xs h = ap (λ n. set xs n b) (omega arith)
drop-set (suc j) k b [] h = refl
drop-set (suc j) zero b (x ∷ xs) h = absurd (omega arith)
drop-set (suc j) (suc k) b (x ∷ xs) h =
    drop-set j k b xs (omega arith) ∙ ap (λ n. set (drop j xs) n b) (omega arith)

get_or-drop : (i t : ℕ) (xs : List ℕ) → get_or (drop i xs) t 0 ≡ get_or xs (i + t) 0
get_or-drop zero t xs = ap (λ n. get_or xs n 0) (omega arith)
get_or-drop (suc i) t [] = refl
get_or-drop (suc i) t (x ∷ xs) =
    get_or-drop i t xs
    ∙ ap (λ n. get_or (x ∷ xs) n 0) {x = suc (i + t)} {y = suc i + t} (omega arith)

pub get_or-set_other : (i k b : ℕ) (xs : List ℕ) → i < k → get_or (set xs k b) i 0 ≡ get_or xs i 0
get_or-set_other i k b [] h = refl
get_or-set_other i zero b (x ∷ xs) h = absurd (omega arith)
get_or-set_other zero (suc k) b (x ∷ xs) h = refl
get_or-set_other (suc i) (suc k) b (x ∷ xs) h = get_or-set_other i k b xs (omega arith)

-- A byte of the sequence, where it stands.
pub byte_at :
    (xs s : List ℕ) (j t : ℕ)
    → t < length s
    → stands_at xs s j ≡ true
    → get_or xs (j + t) 0 ≡ get_or s t 0
byte_at xs s j t h e = sym (get_or-drop j t xs) ∙ starts_with-get_or t (drop j xs) s h e
