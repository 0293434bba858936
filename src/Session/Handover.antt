-- ===== src/Session/Handover.antt =====
-- The way of a password from core/modules/run-virt/pw_daemon.c to
-- core/modules/run-virt/winres/src/winres.c in the guest: the keys go through shares.dat, whose
-- first line is the daemon's answer behind the host's address, and the password through UDP.
use mltk.Common.{
  ℕ, ◌+◌, ◌≤◌, ◌<◌, ◌≡◌, ◌≢◌, ap, ap₂, ◌∙◌, true, false, List, ◌∷◌, ◌++◌, Option, some, arith,
  length, get_or, take_all, All, show_ℕ, atoi-show, length-show_ℕ, eqb_list_refl, IsTextByte,
}
use mltk.PwDaemon.Keys.{Vars}
use mltk.PwDaemon.Keys.Setup.{IsSetUp}
use mltk.PwDaemon.Serve.{udp_reply}
use mltk.Winres.Secret.{hex2bin, udp_received}
use mltk.Winres.Token.Trim.{IsField}
use mltk.Winres.ShareFile.{Shares, Drive, read_share_file, drivemax}
use mltk.Winres.ShareFile.FirstLine.{first_line_accepted}
use mltk.Session.Fields.{
  key1s-IsField, key2s-IsField, length-key1s, length-key2s, port-IsField, length-line, user-IsField,
  file_text, queried,
}
use mltk.Session.Hex.{hex2bin-bin2hex}
use mltk.Session.Cipher.{udp_received-xor_string}
use mltk.PwDaemon.Keys.Stream.{length-xor_string}

-- The first key, sent back to the daemon, is answered with the encrypted password.
udp_reply-key1 :
    {user password : List ℕ} (v : Vars)
    → IsSetUp user password v
    → udp_reply v v.key1 ≡ some v.password_enc
unfolding udp_reply
udp_reply-key1 {password} v s =
    let whole : length v.password_enc ≤ v.password_len =
      omega (arith, ap length s.encrypted, length-xor_string password v.key2, s.sized) in
    rw (
      take_all 16 v.key1 (omega (arith, s.key1_size)),
      s.key1_size,
      eqb_list_refl v.key1,
      take_all v.password_len v.password_enc whole,
    )

-- If the daemon is set up with a password of at most 198 bytes, none of them NUL, it answers its
-- first key, and the guest with the second key reads exactly the password out of the answer.
pub udp_received-udp_reply :
    (user password : List ℕ) (v : Vars)
    → IsSetUp user password v
    → All IsTextByte password
    → length password ≤ 198
    → (reply : List ℕ) × (udp_reply v v.key1 ≡ some reply)
      × (udp_received v.key2 reply ≡ some password)
udp_received-udp_reply user password v s text size = (
  v.password_enc,
  udp_reply-key1 v s,
  ap (udp_received v.key2) s.encrypted
      ∙ udp_received-xor_string password v.key2 text s.key2_bytes
      ∙ ground arith,
)

abbrev pub has_keys : Shares → List ℕ → ℕ → Vars → List Drive → Shares
has_keys st host n v ds = record st {
  share_file_ok = true;
  shost = some host;
  sport = some (show_ℕ n);
  suser = some v.username;
  bkey1 = some v.key1;
  bkey2 = some v.key2;
  drives = ds;
}

-- The keys reach the guest: if the daemon is set up, shares.dat starts with its answer to a query
-- of the user (a port of 1000 to 65535), behind a host's address that does not start with '-',
-- the user's name is a field of at most 126 bytes and with the address of at most 220, then
-- reading the file for the first time accepts it: the guest holds the daemon's two keys, its port
-- and the user's name, and at most DRIVEMAX drives.
pub read_share_file-queried :
    (user password host : List ℕ) (v : Vars) (n uid : ℕ)
    → IsSetUp user password v
    → IsField host
    → IsField user
    → get_or host 0 0 ≢ b'-'
    → 1000 ≤ n
    → n ≤ 65535
    → length user ≤ 126
    → length host + length user ≤ 220
    → (resolve : List ℕ → Option (List ℕ)) (rest : List ℕ) (st : Shares) → st.share_file_ok ≡ false
    → (ds : List Drive) × (length ds ≤ drivemax)
      × (read_share_file resolve (some (host ++ (b'\t' ∷ (queried v n uid ++ rest)))) st
          ≡ some (has_keys st host n v ds))
read_share_file-queried user password host v n uid s fh fu hh lo hi short fits resolve rest st
      first =
    let few : n < 100000 = omega arith in
    let r =
      first_line_accepted host (show_ℕ n) v.key1s v.key2s v.username fh (port-IsField n)
        (key1s-IsField user password v s) (key2s-IsField user password v s)
        (user-IsField user password host v n uid s fh fu few) resolve st rest n first hh
        (length-key1s user password v s) (length-key2s user password v s)
        (atoi-show n (omega arith)) lo hi
        (omega (
          arith,
          length-line host (show_ℕ n) v.key1s v.key2s v.username,
          length-show_ℕ n few,
          length-key1s user password v s,
          length-key2s user password v s,
          ap length s.named,
        )) in
    (
      r.0,
      r.1,
      ap (λ text. read_share_file resolve (some text) st)
            (file_text user password host v n uid s fh fu few short rest)
          ∙ r.2
          ∙ ap₂
              (λ k1 k2.
                some (record (has_keys st host n v r.0) { bkey1 = some k1; bkey2 = some k2 }))
              (ap hex2bin s.key1_hex ∙ hex2bin-bin2hex v.key1 s.key1_bytes)
              (ap hex2bin s.key2_hex ∙ hex2bin-bin2hex v.key2 s.key2_bytes),
    )
