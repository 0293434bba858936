-- ===== src/Brightness/Files/Whole.antt =====
-- What is read is what the file gives, and what is written is a part of the buffer from its start.
use mltk.Common.{
  ℕ, zero, suc, ◌-◌, ◌≤◌, ◌<◌, ◌≡◌, refl, sym, ◌∙◌, ap, true, false, List, [], ◌∷◌, ◌++◌, some, pos,
  negsuc, ℤ, ◌⊎◌, inl, inr, length, length-append, length-take, take, drop, take-append-drop,
  append_assoc, append-nil, All, arith, ltb, ◌==◌, Bool-cases, subst, take_all, map, take-append,
  take-take_append,
}
use mltk.Brightness.Files.{
  chunk, Got, get_loop, file_get_contents, Write, write_failed, wrote, Put, put_loop,
  file_put_contents,
}

-- All that some reads give.
unfoldable pub concat : List (List ℕ) → List ℕ
concat [] = []
concat (b ∷ bs) = b ++ concat bs

-- After the loop the file is a part of the buffer from its start, as long as the result says unless
-- a write failed.
pub IsPrefix : List ℕ → Put → Type 0
IsPrefix buffer p =
    (rest : List ℕ) × (buffer ≡ p.content ++ rest)
    × ((p.put_ret ≡ negsuc 0) ⊎ (p.put_ret ≡ pos (length p.content)))

put_loop_lem :
    (writes : List Write) (left done : List ℕ) → IsPrefix (done ++ left) (put_loop writes left done)
unfolding put_loop IsPrefix
put_loop_lem writes [] done = ([], refl, inr refl)
put_loop_lem [] (c ∷ cs) done = (c ∷ cs, refl, inr refl)
put_loop_lem (write_failed ∷ writes) (c ∷ cs) done = (c ∷ cs, refl, inl refl)
put_loop_lem (wrote zero ∷ writes) (c ∷ cs) done = (c ∷ cs, refl, inr refl)
put_loop_lem (wrote (suc n) ∷ writes) (c ∷ cs) done =
    let split : done ++ (c ∷ cs) ≡ (done ++ take (suc n) (c ∷ cs)) ++ drop (suc n) (c ∷ cs) = sym (
      append_assoc done (c ∷ take n cs) (drop n cs)
      ∙ ap (λ xs. done ++ (c ∷ xs)) (take-append-drop n cs)) in
    let more : (suc n == 0) ≡ false = ground arith in
    rw more (
      subst (λ b. IsPrefix b (put_loop writes (drop n cs) (done ++ (c ∷ take n cs)))) (sym split)
        (put_loop_lem writes (drop n cs) (done ++ (c ∷ take n cs))))

-- However the writes of a text that is not empty go, the file is a part of it from its start, and
-- the result is the length of that part, or -1.
pub file_put_contents_prefix :
    (writes : List Write) (c : ℕ) (cs : List ℕ)
    → (content : List ℕ) × (rest : List ℕ) × (ret : ℤ) × (file_put_contents (some writes) (c ∷ cs)
        ≡ (ret, some content))
      × (c ∷ cs ≡ content ++ rest)
      × ((ret ≡ negsuc 0) ⊎ (ret ≡ pos (length content)))
unfolding file_put_contents IsPrefix
file_put_contents_prefix writes c cs =
    let p = put_loop_lem writes (c ∷ cs) [] in
    let r = put_loop writes (c ∷ cs) [] in (r.content, p.0, r.put_ret, refl, p.1, p.2)

abbrev whole : List ℕ → Got
whole t = record { ret = pos (length t); text = some t }

take_more :
    (len : ℕ) (got b rest : List ℕ)
    → length got ≤ len
    → take len ((got ++ take (len - length got) b) ++ rest) ≡ take len (got ++ (b ++ rest))
take_more len got b rest fits =
    let m : ℕ = len - length got in
    ap (take len) (append_assoc got (take m b) rest)
    ∙ take-append len got (take m b ++ rest) fits
    ∙ ap (λ t. got ++ t) (take-take_append m b rest)
    ∙ sym (take-append len got (b ++ rest) fits)

take_full : (len : ℕ) (got more : List ℕ) → length got ≡ len → take len (got ++ more) ≡ got
take_full len got more full =
    let none_left : len - length got ≡ 0 = omega arith in
    take-append len got more (omega arith) ∙ ap (λ n. got ++ take n more) none_left ∙ append-nil got

-- The reads give text, none of them an empty part.
pub get_loop_lem :
    (len : ℕ) (bss : List (List ℕ)) (got : List ℕ)
    → All (λ b. 0 < length b) bss
    → length got ≤ len
    → get_loop len (map chunk bss) got ≡ record {
      ret = pos (length (take len (got ++ concat bss)));
      text = some (take len (got ++ concat bss));
    }
unfolding get_loop concat
get_loop_lem len [] got h fits =
    ap whole (sym (ap (take len) (append-nil got) ∙ take_all len got fits))
get_loop_lem len (b ∷ bss) got h fits = elim (Bool-cases (ltb (length got) len)) [
  | inl more ↦
      let nonempty : ltb 0 (length (take (len - length got) b)) ≡ true =
        ground (arith, length-take (len - length got) b) in
      rw (more, nonempty)
        (get_loop_lem len bss (got ++ take (len - length got) b) h.1 (
            omega (
              arith,
              length-append got (take (len - length got) b),
              length-take (len - length got) b,
            ))
          ∙ ap whole (take_more len got b (concat bss) fits))
  | inr full ↦ rw full (ap whole (sym (take_full len got (b ++ concat bss) (ground arith))))
]

-- A file that is read in parts, none of them empty, without an error is in the buffer up to the
-- place for the final NUL, and the result is the length of the text.
pub file_get_contents_whole :
    (n : ℕ) (bss : List (List ℕ))
    → All (λ b. 0 < length b) bss
    → file_get_contents (some (map chunk bss)) (suc (suc n)) ≡ record {
      ret = pos (length (take (suc n) (concat bss)));
      text = some (take (suc n) (concat bss));
    }
unfolding file_get_contents
file_get_contents_whole n bss h = get_loop_lem (suc n) bss [] h (omega arith)
