-- ===== src/Winres/Quote/Argv.antt =====
-- How a Windows program takes its parameters apart: the documented rules of CommandLineToArgvW, the
-- description that `escapeShellArg` of core/modules/run-virt/winres/src/winres.c is written for. (The
-- rule for two quotes in a row inside a quoted part is left out.)
use mltk.Common.{
  ℕ, zero, suc, ◌+◌, ◌≡◌, refl, Bool, true, false, List, [], ◌∷◌, ◌++◌, if◌then◌else◌, ◌==◌, not,
  ◌||◌, replicate, arith,
}
use mltk.Winres.Quote.{backslash, quote}

-- Whether it is in a quoted part and whether an argument has begun, the backslashes that wait, the
-- argument so far and the arguments before it.
pub data Parser : Type 0 where
  parser : Bool → Bool → ℕ → List ℕ → List (List ℕ) → Parser

-- Half of the backslashes, and whether one is left over.
unfoldable pub half : ℕ → ℕ × Bool
half zero = (0, false)
half (suc zero) = (0, true)
half (suc (suc n)) = let h = half n in (suc h.0, h.1)

abbrev pub is_blank : ℕ → Bool
is_blank c = (c == b' ') || (c == b'\t')

-- A quote after n backslashes: they stand for half of them, and an odd one takes the quote's
-- meaning.
unfoldable pub at_quote : Bool → ℕ × Bool → List ℕ → List (List ℕ) → Parser
at_quote quoted (n, true) current before =
    parser quoted true 0 (current ++ (replicate n backslash ++ (quote ∷ []))) before
at_quote quoted (n, false) current before =
    parser (not quoted) true 0 (current ++ replicate n backslash) before

unfoldable pub end_arg : Bool → List ℕ → List (List ℕ) → List (List ℕ)
end_arg true current before = before ++ (current ∷ [])
end_arg false current before = before

unfoldable pub at_blank : Bool → Bool → ℕ → ℕ → List ℕ → List (List ℕ) → Parser
at_blank true begun n c current before =
    parser true true 0 (current ++ (replicate n backslash ++ (c ∷ []))) before
at_blank false begun n c current before =
    parser false false 0 [] (end_arg begun (current ++ replicate n backslash) before)

unfoldable pub step : Parser → ℕ → Parser
step (parser quoted begun n current before) c =
    if c == backslash
    then parser quoted true (suc n) current before
    else if c == quote
    then at_quote quoted (half n) current before
    else if is_blank c
    then at_blank quoted begun n c current before
    else parser quoted true 0 (current ++ (replicate n backslash ++ (c ∷ []))) before

unfoldable pub feed : Parser → List ℕ → Parser
feed p [] = p
feed p (c ∷ cs) = feed (step p c) cs

unfoldable pub arguments : Parser → List (List ℕ)
arguments (parser quoted begun n current before) =
    end_arg begun (current ++ replicate n backslash) before

unfoldable pub parse_command_line : List ℕ → List (List ℕ)
parse_command_line text = arguments (feed (parser false false 0 [] []) text)

pub half-even : (n : ℕ) → half (n + n) ≡ (n, false)
unfolding half
half-even zero = refl
half-even (suc n) =
    let e : suc n + suc n ≡ suc (suc (n + n)) = omega arith in rw e (rw (half-even n))

pub half-odd : (n : ℕ) → half (suc (n + n)) ≡ (n, true)
unfolding half
half-odd zero = refl
half-odd (suc n) = let e : suc n + suc n ≡ suc (suc (n + n)) = omega arith in rw e (rw (half-odd n))
