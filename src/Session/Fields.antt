-- ===== src/Session/Fields.antt =====
-- The fields of the daemon's answer (core/modules/run-virt/pw_daemon.c, in `mode_daemon`), as a
-- first line of shares.dat.
use mltk.Common.{
  ℕ, ◌+◌, ◌≤◌, ◌<◌, ◌≡◌, ◌≢◌, ap, ◌∙◌, sym, subst, true, List, [], ◌∷◌, ◌++◌, some, arith, length,
  length-append, All, All-append, All-imp, append_assoc, pos, show_ℤ, show_ℕ, show_ℕ-IsDigit,
  length-show_ℕ,
}
use mltk.PwDaemon.Keys.{Vars}
use mltk.PwDaemon.Keys.Setup.{IsSetUp}
use mltk.PwDaemon.Serve.{get_line, handle_client, mode_query}
use mltk.PwDaemon.Serve.Query.{get_text, get_request, mode_query-handle_client}
use mltk.Winres.Token.Trim.{IsField}
use mltk.Winres.ShareFile.Credentials.{creds_line, visible-IsField}
use mltk.Session.Hex.{length-bin2hex, bin2hex-IsHexDigit}

module _ (user password : List ℕ) (v : Vars) (s : IsSetUp user password v) where
  pub key1s-IsField : IsField v.key1s
  key1s-IsField =
      subst IsField (sym s.key1_hex) (
        visible-IsField _ (All-imp (λ c h. omega arith) _ (bin2hex-IsHexDigit v.key1 s.key1_bytes)))

  pub key2s-IsField : IsField v.key2s
  key2s-IsField =
      subst IsField (sym s.key2_hex) (
        visible-IsField _ (All-imp (λ c h. omega arith) _ (bin2hex-IsHexDigit v.key2 s.key2_bytes)))

  pub length-key1s : length v.key1s ≡ 32
  length-key1s = omega (arith, ap length s.key1_hex, length-bin2hex v.key1, s.key1_size)

  pub length-key2s : length v.key2s ≡ 32
  length-key2s = omega (arith, ap length s.key2_hex, length-bin2hex v.key2, s.key2_size)

pub port-IsField : (n : ℕ) → IsField (show_ℕ n)
port-IsField n = visible-IsField (show_ℕ n) (All-imp (λ c h. omega arith) _ (show_ℕ-IsDigit n))

-- The daemon's answer behind the address is a first line of shares.dat.
get_line-creds_line :
    (v : Vars) (host rest : List ℕ) (n : ℕ)
    → host ++ (b'\t' ∷ (get_line v (pos n) ++ rest))
      ≡ creds_line host (show_ℕ n) v.key1s v.key2s v.username rest
unfolding get_line show_ℤ
get_line-creds_line v host rest n = simp append_assoc

nonzero : (s : List ℕ) → IsField s → All (λ c. 0 < c) s
nonzero s f = All-imp (λ c h. omega (arith, nonzero_lt c h.0)) s f.plain
  where
    nonzero_lt : (c : ℕ) → c ≢ 0 → 0 < c
    nonzero_lt c h = omega arith

pub length-line :
    (host port hex1 hex2 user : List ℕ)
    → length (host ++ (b'\t' ∷ (port ++ (b'\t' ∷ (hex1 ++ (b'\t' ∷ (hex2 ++ (b'\t' ∷ user))))))))
      ≡ length host + length port + length hex1 + length hex2 + length user + 4
length-line host port hex1 hex2 user = omega (
  arith,
  length-append host (b'\t' ∷ (port ++ (b'\t' ∷ (hex1 ++ (b'\t' ∷ (hex2 ++ (b'\t' ∷ user))))))),
  length-append port (b'\t' ∷ (hex1 ++ (b'\t' ∷ (hex2 ++ (b'\t' ∷ user))))),
  length-append hex1 (b'\t' ∷ (hex2 ++ (b'\t' ∷ user))),
  length-append hex2 (b'\t' ∷ user),
)

-- The first line of the file, from the daemon's answer and what `--query` printed.
abbrev pub queried : Vars → ℕ → ℕ → List ℕ
queried v n uid =
    (mode_query true true (some (handle_client v (pos n) uid (get_request uid)))).printed

module _ (user password host : List ℕ) (v : Vars) (n uid : ℕ) (s : IsSetUp user password v)
    (fh : IsField host) (fu : IsField user) (few : n < 100000) where
  pub user-IsField : IsField v.username
  user-IsField = subst IsField (sym s.named) fu

  text_nonzero : All (λ c. 0 < c) (get_text v n)
  text_nonzero = All-append _ (show_ℕ n) _ (nonzero _ (port-IsField n)) (
    omega arith,
    All-append _ v.key1s _ (nonzero _ (key1s-IsField user password v s)) (
      omega arith,
      All-append _ v.key2s _ (nonzero _ (key2s-IsField user password v s))
          (omega arith, nonzero _ user-IsField),
    ),
  )

  length-get_text : length (get_text v n) ≤ 72 + length user
  length-get_text = omega (
    arith,
    length-line [] (show_ℕ n) v.key1s v.key2s v.username,
    length-key1s user password v s,
    length-key2s user password v s,
    length-show_ℕ n few,
    ap length s.named,
  )

  queried_lem : length user ≤ 126 → queried v n uid ≡ get_line v (pos n)
  queried_lem short =
      ap (λ e. e.printed)
        (mode_query-handle_client v n uid text_nonzero (omega (arith, length-get_text)))

  pub file_text :
      length user ≤ 126
      → (rest : List ℕ)
      → host ++ (b'\t' ∷ (queried v n uid ++ rest))
        ≡ creds_line host (show_ℕ n) v.key1s v.key2s v.username rest
  file_text short rest =
      ap (λ (answer : List ℕ). host ++ (b'\t' ∷ (answer ++ rest))) (queried_lem short)
      ∙ get_line-creds_line v host rest n
