-- ===== src/Winres/ShareFile/FirstLine.antt =====
-- The first line of shares.dat, from the file to the accepted credentials.
use mltk.Common.{
  ℕ, ◌+◌, ◌≤◌, ◌<◌, ◌≡◌, ◌≢◌, ap, ◌∙◌, true, false, List, [], ◌∷◌, ◌++◌, Option, some, arith,
  length, length-append, get_or, if◌then◌else◌, All, All-append, All-imp, append_assoc, atoi, pos,
}
use mltk.Winres.Secret.{hex2bin}
use mltk.Winres.Token.Trim.{IsPlain, IsField}
use mltk.Winres.ShareFile.{
  Creds, Drive, Shares, fgets, finish, read_lines, open_file, read_share_file, drivemax,
}
use mltk.Winres.ShareFile.Lines.{fgets_line, read_lines_total}
use mltk.Winres.ShareFile.Credentials.{creds_line, read_creds-creds_line, check_creds_accepts}

abbrev InLine : ℕ → Type 0
InLine c = (c ≢ 0) × (c ≢ b'\n')

plain-InLine : (s : List ℕ) → All IsPlain s → All InLine s
plain-InLine = All-imp λ c h. (h.0, h.2)

abbrev tabbed : List ℕ → List ℕ → List ℕ
tabbed a b = a ++ (b'\t' ∷ b)

tabbed-InLine : (a b : List ℕ) → IsField a → All InLine b → All InLine (tabbed a b)
tabbed-InLine a b fa hb =
    All-append InLine a (b'\t' ∷ b) (plain-InLine a fa.plain) ((ground arith, ground arith), hb)

module _ (host port hex1 hex2 user : List ℕ) (fh : IsField host) (fp : IsField port)
    (f1 : IsField hex1) (f2 : IsField hex2) (fu : IsField user) where
  abbrev line : List ℕ
  line = tabbed host (tabbed port (tabbed hex1 (tabbed hex2 user)))

  line-InLine : All InLine line
  line-InLine = tabbed-InLine host _ fh (
      tabbed-InLine port _ fp
        (tabbed-InLine hex1 _ f1 (tabbed-InLine hex2 _ f2 (plain-InLine user fu.plain))))

  length-line :
      length line ≡ length host + length port + length hex1 + length hex2 + length user + 4
  length-line = omega (
    arith,
    length-append host (b'\t' ∷ tabbed port (tabbed hex1 (tabbed hex2 user))),
    length-append port (b'\t' ∷ tabbed hex1 (tabbed hex2 user)),
    length-append hex1 (b'\t' ∷ tabbed hex2 user),
    length-append hex2 (b'\t' ∷ user),
  )

  line_end : (rest : List ℕ) → creds_line host port hex1 hex2 user rest ≡ line ++ b'\n' ∷ rest
  line_end rest = simp append_assoc

  fgets_creds :
      (rest : List ℕ)
      → length line + 1 < 300
      → fgets 300 (creds_line host port hex1 hex2 user rest)
        ≡ some (creds_line host port hex1 hex2 user [], rest)
  fgets_creds rest h = rw (line_end rest, line_end []) (fgets_line 300 line rest line-InLine h)

  abbrev fields : Creds
  fields = record {
    host = some host;
    port = some port;
    hex1 = some hex1;
    hex2 = some hex2;
    user = some user;
  }

  opens_first :
      (resolve : List ℕ → Option (List ℕ)) (st : Shares) (rest : List ℕ)
      → length line + 1 < 300
      → open_file resolve st (some (creds_line host port hex1 hex2 user rest))
        ≡ read_lines resolve st fields rest
  unfolding open_file
  opens_first resolve st rest fits =
      rw (fgets_creds rest fits, open_file)
        (rw (read_creds-creds_line host port hex1 hex2 user [] fh fp f1 f2 fu))

  reads_first :
      (resolve : List ℕ → Option (List ℕ)) (st : Shares) (rest : List ℕ)
      → st.share_file_ok ≡ false
      → length line + 1 < 300
      → read_share_file resolve (some (creds_line host port hex1 hex2 user rest)) st
        ≡ read_lines resolve st fields rest
  unfolding read_share_file
  reads_first resolve st rest first fits =
      ap
        (λ b.
          if b
          then some st
          else open_file resolve st (some (creds_line host port hex1 hex2 user rest)))
        first
      ∙ opens_first resolve st rest fits

  -- A well-formed first line is accepted: the state holds its fields and the decoded keys, and the
  -- drives are those of the lines below.
  pub first_line_accepted :
      (resolve : List ℕ → Option (List ℕ)) (st : Shares) (rest : List ℕ) (n : ℕ)
      → st.share_file_ok ≡ false
      → get_or host 0 0 ≢ b'-'
      → length hex1 ≡ 32
      → length hex2 ≡ 32
      → atoi port ≡ pos n
      → 1000 ≤ n
      → n ≤ 65535
      → length line + 1 < 300
      → (ds : List Drive) × (length ds ≤ drivemax)
        × (read_share_file resolve (some (creds_line host port hex1 hex2 user rest)) st
            ≡ some (record st {
              share_file_ok = true;
              shost = some host;
              sport = some port;
              suser = some user;
              bkey1 = some (hex2bin hex1);
              bkey2 = some (hex2bin hex2);
              drives = ds;
            }))
  first_line_accepted resolve st rest n first hh h1 h2 hp lo hi fits =
      let r = read_lines_total resolve st fields rest in
      (r.0, r.1, reads_first resolve st rest first fits ∙ r.2 ∙ ap some (accepts r.0))
    where
      accepts :
          (ds : List Drive)
          → finish
              (record st { shost = some host; sport = some port; suser = some user; drives = ds })
              (some host)
              (some port)
              (some hex1)
              (some hex2)
              (some user)
            ≡ record st {
              share_file_ok = true;
              shost = some host;
              sport = some port;
              suser = some user;
              bkey1 = some (hex2bin hex1);
              bkey2 = some (hex2bin hex2);
              drives = ds;
            }
      accepts ds =
          unfold finish in
          check_creds_accepts
            (record st { shost = some host; sport = some port; suser = some user; drives = ds })
            host port hex1 hex2 n hh h1 h2 hp lo hi
