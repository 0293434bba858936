-- ===== src/Winres/Quote/RoundTrip.antt =====
-- What `escapeShellArg` of core/modules/run-virt/winres/src/winres.c writes is read back by the
-- rules for the parameters of a Windows program.
use mltk.Common.{
  ℕ, zero, suc, ◌+◌, ◌-◌, ◌<◌, ◌≡◌, refl, ap, ◌∙◌, sym, Bool, true, false, List, [], ◌∷◌, ◌++◌,
  some, arith, length, length-append, replicate, ◌==◌, Bool-cases, ==_iff, inl, inr, append_assoc,
  append-nil,
}
use mltk.Winres.Quote.{backslash, quote, run_params}
use mltk.Winres.Quote.Plain.{escaped, escape_shell_arg_plain, replicate_shift}
use mltk.Winres.Quote.Argv.{
  Parser, parser, half, at_quote, end_arg, at_blank, step, feed, arguments, parse_command_line,
  half-even, half-odd,
}

feed-append : (p : Parser) (a b : List ℕ) → feed p (a ++ b) ≡ feed (feed p a) b
unfolding feed
feed-append p [] b = refl
feed-append p (c ∷ cs) b = feed-append (step p c) cs b

-- A parser in the quoted part of an argument.
abbrev inside : ℕ → List ℕ → List (List ℕ) → Parser
inside n current before = parser true true n current before

feed-slashes :
    (k n : ℕ) (current : List ℕ) (before : List (List ℕ))
    → feed (inside n current before) (replicate k backslash) ≡ inside (n + k) current before
unfolding feed step
feed-slashes zero n current before = let e : n + 0 ≡ n = omega arith in rw e
feed-slashes (suc k) n current before =
    let e : n + suc k ≡ suc n + k = omega arith in rw e (feed-slashes k (suc n) current before)

step-slash :
    (n : ℕ) (current : List ℕ) (before : List (List ℕ))
    → step (inside n current before) backslash ≡ inside (suc n) current before
unfolding step
step-slash n current before = refl

step-quote_even :
    (n : ℕ) (current : List ℕ) (before : List (List ℕ))
    → step (inside (n + n) current before) quote
      ≡ parser false true 0 (current ++ replicate n backslash) before
unfolding step at_quote
step-quote_even n current before = rw (half-even n)

step-quote_odd :
    (n : ℕ) (current : List ℕ) (before : List (List ℕ))
    → step (inside (suc (n + n)) current before) quote
      ≡ inside 0 (current ++ (replicate n backslash ++ (quote ∷ []))) before
unfolding step at_quote
step-quote_odd n current before = rw (half-odd n)

step-char :
    (n c : ℕ) (current : List ℕ) (before : List (List ℕ))
    → (c == backslash) ≡ false
    → (c == quote) ≡ false
    → step (inside n current before) c
      ≡ inside 0 (current ++ (replicate n backslash ++ (c ∷ []))) before
unfolding step at_blank
step-char n c current before s q = rw (s, q) (ground arith)

-- What follows a character that ends a run of backslashes goes on behind it.
behind :
    (n c : ℕ) (current cs : List ℕ)
    → (current ++ (replicate n backslash ++ (c ∷ []))) ++ cs
      ≡ current ++ (replicate n backslash ++ (c ∷ cs))
behind n c current cs = simp append_assoc

feed-escaped_quote :
    (n : ℕ) (fresh rest current : List ℕ) (before : List (List ℕ))
    → feed
        (inside n current before)
        ((replicate n backslash ++ (backslash ∷ quote ∷ fresh)) ++ rest)
      ≡ feed (inside 0 (current ++ (replicate n backslash ++ (quote ∷ []))) before) (fresh ++ rest)
unfolding feed
feed-escaped_quote n fresh rest current before =
    rw
      (
        append_assoc (replicate n backslash) (backslash ∷ quote ∷ fresh) rest,
        feed-append (inside n current before) (replicate n backslash)
            (backslash ∷ quote ∷ (fresh ++ rest)),
        feed-slashes n n current before,
      )
      (rw (step-slash (n + n) current before, feed) (rw (step-quote_odd n current before, feed)))

-- The escaped text and the closing quote end the quoted part, with the backslashes that waited and
-- the text itself in the argument.
pub feed-escaped :
    (n : ℕ) (input current : List ℕ) (before : List (List ℕ))
    → feed (inside n current before) (escaped n input ++ (quote ∷ []))
      ≡ parser false true 0 (current ++ (replicate n backslash ++ input)) before
unfolding escaped feed
feed-escaped n [] current before =
    simp
      (feed-append, feed-slashes n n current before, step-quote_even n current before, append-nil)
feed-escaped n (c ∷ cs) current before = elim (Bool-cases (c == backslash)) [
  | inl slash ↦
      let same : c ≡ backslash = (==_iff c backslash).0 slash in
      let next : suc n ≡ n + 1 = omega arith in
      let shift : replicate (n + 1) backslash ++ cs ≡ replicate n backslash ++ (backslash ∷ cs) =
        ap (λ k. replicate k backslash ++ cs) (sym next) ∙ sym (replicate_shift n backslash cs) in
      rw (same, step-slash n current before, next)
        (feed-escaped (n + 1) cs current before
          ∙ ap (λ text. parser false true 0 (current ++ text) before) shift)
  | inr other ↦ elim (Bool-cases (c == quote)) [
    | inl q ↦
        let same : c ≡ quote = (==_iff c quote).0 q in
        rw same (
          feed-escaped_quote n (escaped 0 cs) (quote ∷ []) current before
          ∙ feed-escaped 0 cs (current ++ (replicate n backslash ++ (quote ∷ []))) before
          ∙ ap (λ text. parser false true 0 text before) (behind n quote current cs))
    | inr plain ↦
        rw (other, plain)
          (rw (step-char n c current before other plain, feed)
            (feed-escaped 0 cs (current ++ (replicate n backslash ++ (c ∷ []))) before
              ∙ ap (λ text. parser false true 0 text before) (behind n c current cs)))
  ]
]

closed-end :
    (current : List ℕ) (before : List (List ℕ))
    → arguments (parser false true 0 current before) ≡ before ++ (current ∷ [])
unfolding arguments end_arg
closed-end current before = simp append-nil

opened :
    (begun : Bool) (text : List ℕ) (before : List (List ℕ))
    → feed (parser false begun 0 [] before) (quote ∷ escaped 0 text ++ (quote ∷ []))
      ≡ parser false true 0 text before
opened begun text before =
    let first : step (parser false begun 0 [] before) quote ≡ inside 0 [] before =
      unfold step in unfold at_quote in unfold half in refl in
    unfold feed in rw (first, feed) (feed-escaped 0 text [] before)

blank-ends :
    (text : List ℕ) (before : List (List ℕ))
    → step (parser false true 0 text before) (b' ')
      ≡ parser false false 0 [] (before ++ (text ∷ []))
unfolding step at_blank end_arg
blank-ends text before = simp append-nil

-- The command line of two texts is read as these two texts.
pub parse-two :
    (user pass : List ℕ)
    → parse_command_line (
        (quote ∷ escaped 0 user ++ (quote ∷ []))
        ++ (b' ' ∷ (quote ∷ escaped 0 pass ++ (quote ∷ []))))
      ≡ user ∷ pass ∷ []
unfolding parse_command_line
parse-two user pass =
    let line : List ℕ = quote ∷ escaped 0 user ++ (quote ∷ []) in
    rw
      (
        feed-append (parser false false 0 [] []) line
            (b' ' ∷ (quote ∷ escaped 0 pass ++ (quote ∷ []))),
        opened false user [],
      )
      (unfold feed in
        rw (blank-ends user [], feed)
          (rw (opened false pass (user ∷ [])) (closed-end pass (user ∷ []))))

-- If the user and the password, escaped, take fewer than 192 characters, and the fuel is more
-- than the length of each, `launchRunscript` writes parameters that a Windows program reads as
-- exactly the user and the password.
pub run_params-parse :
    (fuel : ℕ) (user pass : List ℕ)
    → length user < fuel
    → length pass < fuel
    → length (escaped 0 user) + length (escaped 0 pass) < 192
    → (w : List ℕ) × (run_params fuel user pass ≡ some w)
      × (parse_command_line w ≡ user ∷ pass ∷ [])
unfolding run_params
run_params-parse fuel user pass enough_user enough_pass fits =
    let u : List ℕ = quote ∷ escaped 0 user ++ (quote ∷ []) in
    let p : List ℕ = quote ∷ escaped 0 pass ++ (quote ∷ []) in
    let size : length u ≡ length (escaped 0 user) + 2 =
      omega (arith, length-append (escaped 0 user) (quote ∷ [])) in
    let left : length (escaped 0 pass) + 3 < 198 - (length u + 1) = omega arith in
    (
      u ++ (b' ' ∷ p),
      rw
          (
            escape_shell_arg_plain fuel user 198 enough_user (omega arith),
            run_params,
            escape_shell_arg_plain fuel pass (198 - (length u + 1)) enough_pass left,
          )
          (simp append_assoc),
      parse-two user pass,
    )
