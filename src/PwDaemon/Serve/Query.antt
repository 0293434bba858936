-- ===== src/PwDaemon/Serve/Query.antt =====
-- The line that the daemon answers and the client of `--query` prints.
use mltk.Common.{
  ℕ, suc, ◌-◌, ◌≤◌, ◌<◌, ◌≡◌, refl, true, false, List, [], ◌∷◌, ◌++◌, some, arith, length,
  length-append, take, take_all, get_or, All, All-append, c_str, pos, show_ℤ, ltb, append_assoc,
  show_ℕ, starts_with, codes,
}
use mltk.PwDaemon.Keys.{Vars}
use mltk.PwDaemon.Serve.{Client, get_line, answer, handle_client, check_reply, mode_query}

get_or-last : (s : List ℕ) (c : ℕ) → get_or (s ++ c ∷ []) (length s) 0 ≡ c
get_or-last [] c = refl
get_or-last (x ∷ s) c = get_or-last s c

c_str_lem : (s : List ℕ) → All (λ c. 0 < c) s → c_str s ≡ s
c_str_lem [] h = refl
c_str_lem (c ∷ s) h = ground (arith, c_str_lem s h.1)

-- A reply that ends in a newline is printed as it is.
check_reply_line :
    (s : List ℕ)
    → All (λ c. 0 < c) s
    → check_reply (s ++ b'\n' ∷ []) ≡ record { code = 0; printed = s ++ b'\n' ∷ [] }
unfolding check_reply
check_reply_line s h =
    let size : length (s ++ b'\n' ∷ []) ≡ suc (length s) =
      omega (arith, length-append s (b'\n' ∷ [])) in
    let last : suc (length s) - 1 ≡ length s = omega arith in
    let enough : ltb (suc (length s)) 1 ≡ false = ground arith in
    rw (
      size,
      enough,
      last,
      get_or-last s b'\n',
      c_str_lem (s ++ b'\n' ∷ []) (All-append _ s (b'\n' ∷ []) h (omega arith, tt)),
    )

-- The line without its newline.
abbrev pub get_text : Vars → ℕ → List ℕ
get_text v n = show_ℕ n ++ (b'\t' ∷ (v.key1s ++ (b'\t' ∷ (v.key2s ++ (b'\t' ∷ v.username)))))

pub get_line-text : (v : Vars) (n : ℕ) → get_line v (pos n) ≡ get_text v n ++ b'\n' ∷ []
unfolding get_line show_ℤ
get_line-text v n = simp append_assoc

-- What the client of `--query` sends.
abbrev pub get_request : ℕ → Client
get_request uid = record { peer_uid = some uid; request = some (codes "GET") }

get_answer :
    (v : Vars) (n uid : ℕ)
    → handle_client v (pos n) uid (get_request uid) ≡ take 199 (get_line v (pos n))
unfolding handle_client answer starts_with
get_answer v n uid = ground arith

-- A user with the daemon's uid who asks for the line gets it, and `--query` prints all of it, if
-- it has no NUL and at most 198 bytes before its newline.
pub mode_query-handle_client :
    (v : Vars) (n uid : ℕ)
    → All (λ c. 0 < c) (get_text v n)
    → length (get_text v n) < 199
    → mode_query true true (some (handle_client v (pos n) uid (get_request uid)))
      ≡ record { code = 0; printed = get_line v (pos n) }
unfolding mode_query
mode_query-handle_client v n uid h k =
    let size : length (get_text v n ++ b'\n' ∷ []) ≤ 199 =
      omega (arith, length-append (get_text v n) (b'\n' ∷ [])) in
    rw
      (
        get_answer v n uid,
        get_line-text v n,
        take_all 199 (get_text v n ++ b'\n' ∷ []) size,
        take_all 199 (get_text v n ++ b'\n' ∷ []) size,
      )
      (check_reply_line (get_text v n) h)
