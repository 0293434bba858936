-- ===== src/PwDaemon/Main/Uid.antt =====
-- The uid on the command line.
use mltk.Common.{
  ℕ, ◌%◌, ◌^◌, ◌<◌, ◌≡◌, refl, sym, ◌∙◌, ap, Bool, true, false, List, [], ◌∷◌, ◌++◌, none, some,
  if◌then◌else◌, length, All, arith, codes, show_ℕ, show_ℕ-IsDigit, show_ℕ_nonempty, IsDigit,
  read_digits, is_digit, append-nil, not, read_digits-append, read_digits-show, eqb_list,
}
use mltk.PwDaemon.Daemon.{Start}
use mltk.PwDaemon.Serve.{Exit}
use mltk.PwDaemon.Main.{after_digits, strtoul, parse_uid, is_end, daemon, refused, run_daemon, main}

-- The text does not start with a digit.
abbrev stops : List ℕ → Bool
stops [] = true
stops (c ∷ cs) = not (is_digit c)

after_digits-stops : (rest : List ℕ) → stops rest ≡ true → after_digits rest ≡ rest
unfolding after_digits
after_digits-stops [] ends = refl
after_digits-stops (c ∷ cs) ends = ground arith

after_digits-append :
    (ds rest : List ℕ) → All IsDigit ds → after_digits (ds ++ rest) ≡ after_digits rest
unfolding after_digits
after_digits-append [] rest h = refl
after_digits-append (d ∷ ds) rest h = ground (arith, after_digits-append ds rest h.1)

-- A text of digits, with nothing that is a digit behind it, is read up to its end.
strtoul_digits :
    (ds rest : List ℕ)
    → All IsDigit ds
    → 0 < length ds
    → stops rest ≡ true
    → read_digits 0 (ds ++ rest) < 2 ^ 64
    → strtoul (ds ++ rest) ≡ (read_digits 0 (ds ++ rest), rest)
unfolding strtoul
strtoul_digits [] rest h nonempty ends small = absurd (omega arith)
strtoul_digits (d ∷ ds) rest h nonempty ends small =
    let digit : IsDigit d = h.0 in
    ground (arith, after_digits-append (d ∷ ds) rest h, after_digits-stops rest ends)

read_digits-stops : (acc : ℕ) (rest : List ℕ) → stops rest ≡ true → read_digits acc rest ≡ acc
unfolding read_digits
read_digits-stops acc [] ends = refl
read_digits-stops acc (c ∷ cs) ends = ground arith

is_end-append : (ds rest : List ℕ) → 0 < length ds → is_end (ds ++ rest) ≡ false
is_end-append [] rest h = absurd (omega arith)
is_end-append (d ∷ ds) rest h = refl

parse_uid-show :
    (n : ℕ) (rest : List ℕ)
    → n < 2 ^ 32
    → stops rest ≡ true
    → parse_uid (show_ℕ n ++ rest) ≡ (if is_end rest then some n else none)
unfolding parse_uid
parse_uid-show n rest small ends =
    let value : read_digits 0 (show_ℕ n ++ rest) ≡ n =
      read_digits-append 0 (show_ℕ n) rest (show_ℕ-IsDigit n)
      ∙ ap (λ a. read_digits a rest) (read_digits-show n)
      ∙ read_digits-stops n rest ends in
    let read =
      strtoul_digits (show_ℕ n) rest (show_ℕ-IsDigit n) (show_ℕ_nonempty n) ends
        (omega (arith, value)) in
    let same : n % 2 ^ 32 ≡ n = omega arith in
    rw (is_end-append (show_ℕ n) rest (show_ℕ_nonempty n), read, value, same)

-- With `--daemon` and a uid of 32 bits in decimal digits the program becomes the daemon for that
-- user, and with a character behind the digits that is no digit it refuses.
pub main-show :
    (mode_daemon : ℕ → Start) (mode_query : List ℕ → Exit) (program : List ℕ) (args : List (List ℕ))
    (n c : ℕ) (more : List ℕ)
    → n < 2 ^ 32
    → is_digit c ≡ false
    → (main mode_daemon mode_query (program ∷ codes "--daemon" ∷ show_ℕ n ∷ args)
        ≡ daemon (mode_daemon n))
      × (main mode_daemon mode_query (program ∷ codes "--daemon" ∷ (show_ℕ n ++ (c ∷ more)) ∷ args)
          ≡ refused 1)
unfolding main run_daemon eqb_list
main-show mode_daemon mode_query program args n c more small other =
    let whole : parse_uid (show_ℕ n) ≡ some n =
      ap parse_uid (sym (append-nil (show_ℕ n))) ∙ parse_uid-show n [] small refl in
    let garbage : parse_uid (show_ℕ n ++ (c ∷ more)) ≡ none =
      parse_uid-show n (c ∷ more) small (ap not other) in
    (ap (run_daemon mode_daemon) whole, ap (run_daemon mode_daemon) garbage)
