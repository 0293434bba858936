-- ===== src/Winres/Quote/Plain.antt =====
-- What `escapeShellArg` writes where the buffer is large enough.
use mltk.Common.{
  ℕ, zero, suc, ◌+◌, ◌-◌, ◌≤◌, ◌<◌, ◌≡◌, refl, ap, ◌∙◌, true, false, List, [], ◌∷◌, ◌++◌, Option,
  some, arith, length, length-append, length-replicate, replicate, min, leb, ◌==◌, if◌then◌else◌,
  Bool-cases, ==_iff, ap₂, inl, inr, append_assoc,
}
use mltk.Winres.Quote.{
  backslash, quote, copy_slashes, close, copy_char, end_round, escape_loop, escape_shell_arg,
}

-- The escaped text, behind n backslashes that are written already: before a quote and at the end
-- the backslashes are written twice, and a quote gets one more.
unfoldable pub escaped : ℕ → List ℕ → List ℕ
escaped n [] = replicate n backslash
escaped n (c ∷ cs) =
    let more = escaped (n + 1) cs in
    let fresh = escaped 0 cs in
    if c == backslash
    then c ∷ more
    else if c == quote
    then replicate n backslash ++ (backslash ∷ c ∷ fresh)
    else c ∷ fresh

-- The backslashes at the head, however many, and the text after them.
lead : List ℕ → ℕ × List ℕ
lead [] = (0, [])
lead (c ∷ cs) = let more = lead cs in if c == backslash then (suc more.0, more.1) else (0, c ∷ cs)

copy_slashes-lead :
    (input : List ℕ) (room : ℕ) → (lead input).0 ≤ room → copy_slashes input room ≡ lead input
unfolding copy_slashes lead
copy_slashes-lead [] room h = refl
copy_slashes-lead (c ∷ cs) zero h = ground arith
copy_slashes-lead (c ∷ cs) (suc room) h = ground (arith, copy_slashes-lead cs room)

pub replicate_shift {ℓ} :
    {A : Type ℓ} (n : ℕ) (a : A) (xs : List A) → replicate n a ++ (a ∷ xs) ≡ a ∷ replicate n a ++ xs
replicate_shift zero a xs = refl
replicate_shift (suc n) a xs = ap (λ ys. a ∷ ys) (replicate_shift n a xs)

escaped-lead :
    (n : ℕ) (input : List ℕ)
    → escaped n input
      ≡ replicate (lead input).0 backslash ++ escaped (n + (lead input).0) (lead input).1
unfolding lead escaped
escaped-lead n [] = let e : n + 0 ≡ n = omega arith in rw e
escaped-lead n (c ∷ cs) = elim (Bool-cases (c == backslash)) [
  | inl slash ↦
      let same : c ≡ backslash = (==_iff c backslash).0 slash in
      let shift : n + suc (lead cs).0 ≡ n + 1 + (lead cs).0 = omega arith in
      rw (slash, shift) (ap₂ ◌∷◌ same (escaped-lead (n + 1) cs))
  | inr other ↦ let e : n + 0 ≡ n = omega arith in rw (other, e) (rw other)
]

escaped-lead_0 :
    (input : List ℕ)
    → escaped 0 input ≡ replicate (lead input).0 backslash ++ escaped (lead input).0 (lead input).1
escaped-lead_0 input =
    let e : 0 + (lead input).0 ≡ (lead input).0 = omega arith in
    escaped-lead 0 input
    ∙ ap (λ n. replicate (lead input).0 backslash ++ escaped n (lead input).1) e

-- No backslash is left at the head.
lead_done :
    (input : List ℕ) (c : ℕ) (cs : List ℕ) → (lead input).1 ≡ c ∷ cs → (c == backslash) ≡ false
unfolding lead
lead_done [] c cs h = cc
lead_done (x ∷ xs) c cs h = ground (arith, lead_done xs c cs)

replicate-add {ℓ} :
    {A : Type ℓ} (n m : ℕ) (a : A) → replicate (n + m) a ≡ replicate n a ++ replicate m a
replicate-add zero m a = let e : 0 + m ≡ m = omega arith in rw e
replicate-add (suc n) m a =
    let e : suc n + m ≡ suc (n + m) = omega arith in rw e (ap (λ xs. a ∷ xs) (replicate-add n m a))

close_room : (room : ℕ) → 0 < room → close room ≡ quote ∷ []
close_room zero h = absurd (omega arith)
close_room (suc room) h = refl

-- What a round gives where the room is enough, from what the loop gives behind it.
end_round_end :
    (again : List ℕ → ℕ → Option (List ℕ)) (bs room : ℕ)
    → bs + bs < room
    → end_round again bs [] room ≡ some ((replicate bs backslash ++ escaped bs []) ++ quote ∷ [])
unfolding end_round escaped
end_round_end again bs room h =
    let twice : min bs (room - bs) ≡ bs = omega arith in
    rw (twice, replicate-add bs bs backslash, close_room (room - bs - bs) (omega arith))

copy_char_plain :
    (c : ℕ) (cs : List ℕ) (room : ℕ)
    → (c == quote) ≡ false
    → copy_char c cs (suc room) ≡ (c ∷ [], room, cs)
unfolding copy_char
copy_char_plain c cs zero h = rw h
copy_char_plain c cs (suc room) h = rw h

module _ (again : List ℕ → ℕ → Option (List ℕ)) (bs c : ℕ) (cs : List ℕ) (room : ℕ)
    (other : (c == backslash) ≡ false) where
  end_round-quote :
      (c == quote) ≡ true
      → bs + bs + 2 + length (escaped 0 cs) < room
      → again cs (room - bs - bs - 2) ≡ some (escaped 0 cs ++ quote ∷ [])
      → end_round again bs (c ∷ cs) room
        ≡ some ((replicate bs backslash ++ escaped bs (c ∷ cs)) ++ quote ∷ [])
  unfolding end_round copy_char escaped
  end_round-quote q h ih =
      let twice : min bs (room - bs) ≡ bs = omega arith in
      let left : room - bs - bs ≡ suc (suc (room - bs - bs - 2)) = omega arith in
      rw (other, q, twice, left) (rw (q, ih) (simp (replicate-add bs bs backslash, append_assoc)))

  end_round_char :
      (c == quote) ≡ false
      → bs + 1 + length (escaped 0 cs) < room
      → again cs (room - bs - 1) ≡ some (escaped 0 cs ++ quote ∷ [])
      → end_round again bs (c ∷ cs) room
        ≡ some ((replicate bs backslash ++ escaped bs (c ∷ cs)) ++ quote ∷ [])
  unfolding end_round copy_char escaped
  end_round_char q h ih =
      let none_twice : bs + 0 ≡ bs = omega arith in
      let left : room - bs - 0 ≡ suc (room - bs - 1) = omega arith in
      rw (other, q, none_twice, left)
        (rw (copy_char_plain c cs (room - bs - 1) q, ih) (simp append_assoc))

-- The length of what a round gives, by the character that ends it.
length-escaped-quote :
    (bs c : ℕ) (cs : List ℕ)
    → (c == backslash) ≡ false
    → (c == quote) ≡ true
    → length (replicate bs backslash ++ escaped bs (c ∷ cs)) ≡ bs + bs + 2 + length (escaped 0 cs)
unfolding escaped
length-escaped-quote bs c cs other q =
    rw (other, q)
      (omega (
        arith,
        length-append (replicate bs backslash)
            (replicate bs backslash ++ (backslash ∷ c ∷ escaped 0 cs)),
        length-append (replicate bs backslash) (backslash ∷ c ∷ escaped 0 cs),
        length-replicate bs backslash,
      ))

length-escaped_char :
    (bs c : ℕ) (cs : List ℕ)
    → (c == backslash) ≡ false
    → (c == quote) ≡ false
    → length (replicate bs backslash ++ escaped bs (c ∷ cs)) ≡ bs + 1 + length (escaped 0 cs)
unfolding escaped
length-escaped_char bs c cs other q =
    rw (other, q)
      (omega (
        arith,
        length-append (replicate bs backslash) (c ∷ escaped 0 cs),
        length-replicate bs backslash,
      ))

end_round_plain :
    (again : List ℕ → ℕ → Option (List ℕ)) (bs : ℕ) (rest : List ℕ) (room : ℕ)
    → ((c : ℕ) (cs : List ℕ) → rest ≡ c ∷ cs → (c == backslash) ≡ false)
    → length (replicate bs backslash ++ escaped bs rest) < room
    → ((cs : List ℕ) (left : ℕ)
        → length cs < length rest
        → length (escaped 0 cs) < left
        → again cs left ≡ some (escaped 0 cs ++ quote ∷ []))
    → end_round again bs rest room
      ≡ some ((replicate bs backslash ++ escaped bs rest) ++ quote ∷ [])
end_round_plain again bs [] room other fits ih = end_round_end again bs room (
    unfold escaped in
    omega (
      arith,
      length-append (replicate bs backslash) (replicate bs backslash),
      length-replicate bs backslash,
    ))
end_round_plain again bs (c ∷ cs) room other fits ih = elim (Bool-cases (c == quote)) [
  | inl q ↦
      let size = length-escaped-quote bs c cs (other c cs refl) q in
      end_round-quote again bs c cs room (other c cs refl) q (omega arith)
        (ih cs (room - bs - bs - 2) (omega arith) (omega arith))
  | inr q ↦
      let size = length-escaped_char bs c cs (other c cs refl) q in
      end_round_char again bs c cs room (other c cs refl) q (omega arith)
        (ih cs (room - bs - 1) (omega arith) (omega arith))
]

length-lead : (input : List ℕ) → (lead input).0 + length (lead input).1 ≡ length input
unfolding lead
length-lead [] = refl
length-lead (c ∷ cs) = ground (arith, length-lead cs)

pub escape_loop_plain :
    (fuel : ℕ) (input : List ℕ) (room : ℕ)
    → length input < fuel
    → length (escaped 0 input) < room
    → escape_loop fuel input room ≡ some (escaped 0 input ++ quote ∷ [])
unfolding escape_loop
escape_loop_plain zero input room enough fits = absurd (omega arith)
escape_loop_plain (suc fuel) [] room enough fits =
    unfold escaped in rw (close_room room (omega arith)) refl
escape_loop_plain (suc fuel) (i ∷ input) room enough fits =
    let bs : ℕ = (lead (i ∷ input)).0 in
    let rest : List ℕ = (lead (i ∷ input)).1 in
    let split : escaped 0 (i ∷ input) ≡ replicate bs backslash ++ escaped bs rest =
      escaped-lead_0 (i ∷ input) in
    let size : bs ≤ length (escaped 0 (i ∷ input)) = omega (
      arith,
      ap length split,
      length-append (replicate bs backslash) (escaped bs rest),
      length-replicate bs backslash,
    ) in
    rw (copy_slashes-lead (i ∷ input) room (omega arith), split)
      (end_round_plain (escape_loop fuel) bs rest room (lead_done (i ∷ input))
        (omega (arith, ap length split, fits))
        (λ cs left shorter.
          escape_loop_plain fuel cs left (omega (arith, shorter, length-lead (i ∷ input)))))

-- With a buffer for all of it and three places more, the whole function.
pub escape_shell_arg_plain :
    (fuel : ℕ) (input : List ℕ) (room : ℕ)
    → length input < fuel
    → length (escaped 0 input) + 3 < room
    → escape_shell_arg fuel input room ≡ some (quote ∷ escaped 0 input ++ (quote ∷ []))
unfolding escape_shell_arg
escape_shell_arg_plain fuel input room enough fits =
    let more : leb room 2 ≡ false = ground arith in
    rw (more, escape_loop_plain fuel input (room - 3) enough (omega arith))
