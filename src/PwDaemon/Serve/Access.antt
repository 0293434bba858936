-- ===== src/PwDaemon/Serve/Access.antt =====
-- Who gets the password, over the unix socket and over UDP.
use mltk.Common.{
  if_some, some_injective, ℕ, zero, suc, ◌+◌, ◌-◌, ◌%◌, ◌≡◌, ◌≢◌, ◌↔◌, refl, sym, ap, ap₂, ◌∙◌,
  Bool, true, false, ◌&&◌, List, [], ◌∷◌, ◌++◌, Option, none, some, ℤ, ◌==◌, length, take, drop,
  min, get_or, get_or-All, All, IsByte, IsTextByte, bit_xor_cancel, codes, starts_with,
  eqb_list_refl, eqb_list→eq, arith, ==_refl, ne→==, take_all,
}
use mltk.PwDaemon.Keys.{Vars, xor_loop, xor_string}
use mltk.PwDaemon.Keys.Stream.{length-xor_string}
use mltk.PwDaemon.Keys.Setup.{IsSetUp}
use mltk.PwDaemon.Serve.{handle_client, answer, buffer_size, plain_loop, udp_reply}

-- What a process reads that is of another user, or whose user is not known, does not depend on
-- the daemon's secrets, its port or the request.
pub handle_client_foreign :
    (v v' : Vars) (port port' : ℤ) (euid : ℕ) (request request' : Option (List ℕ)) (peer : Option ℕ)
    → peer ≢ some euid
    → handle_client v port euid (record { peer_uid = peer; request = request })
      ≡ handle_client v' port' euid (record { peer_uid = peer; request = request' })
unfolding handle_client
handle_client_foreign v v' port port' euid request request' none other = refl
handle_client_foreign v v' port port' euid request request' (some uid) other =
    let differs : (uid == euid) ≡ false = ne→== uid euid (λ same. other (ap some same)) in
    rw differs

-- The two loops use the same key byte at each index, however many bytes are taken.
undo :
    (key : List ℕ) (n i : ℕ) (text : List ℕ)
    → All IsByte key
    → All IsTextByte text
    → plain_loop key i (take n (xor_loop key i text)) ≡ take n text
unfolding plain_loop xor_loop
undo key zero i text k h = refl
undo key (suc n) i [] k h = refl
undo key (suc n) i (t ∷ text) k h =
    ap₂ ◌∷◌
      (bit_xor_cancel t (get_or key (i % 16) 0) (omega arith)
        (get_or-All IsByte key (i % 16) 0 k (omega arith)))
      (undo key n (i + 1) text k h.1)

take-min {ℓ} : {A : Type ℓ} (n : ℕ) (xs : List A) → take (min (length xs) n) xs ≡ take n xs
take-min zero xs = let e : min (length xs) 0 ≡ 0 = omega arith in rw e
take-min (suc n) [] = let e : min 0 (suc n) ≡ 0 = omega arith in rw e
take-min (suc n) (x ∷ xs) =
    let e : min (suc (length xs)) (suc n) ≡ suc (min (length xs) n) = omega arith in
    rw e (ap (λ ys. x ∷ ys) (take-min n xs))

decrypted :
    (user password : List ℕ) (v : Vars)
    → IsSetUp user password v
    → All IsTextByte password
    → plain_loop v.key2 0 (take (min (v.password_len - 2) buffer_size) (drop 2 v.password_enc))
      ≡ take 200 password
unfolding xor_string
decrypted user password v s text =
    let size : length password + 2 - 2 ≡ length password = omega arith in
    ap₂ (λ n enc. plain_loop v.key2 0 (take (min (n - 2) 200) (drop 2 enc))) s.sized s.encrypted
    ∙ ap (λ n. plain_loop v.key2 0 (take (min n 200) (xor_loop v.key2 0 password))) size
    ∙ undo v.key2 (min (length password) 200) 0 password s.key2_bytes text
    ∙ take-min 200 password

-- If the daemon is set up with a password without NUL, a process of the user itself that asks for
-- it gets it in the clear, its first 200 bytes if it is longer.
pub handle_client-pw :
    (user password rest : List ℕ) (v : Vars) (port : ℤ) (euid : ℕ)
    → IsSetUp user password v
    → All IsTextByte password
    → handle_client v port euid
        (record { peer_uid = some euid; request = some (codes "PW" ++ rest) })
      ≡ take 200 password
unfolding handle_client
handle_client-pw user password rest v port euid s text =
    let same : (euid == euid) ≡ true = ==_refl euid in
    rw same (unfold answer in unfold starts_with in decrypted user password v s text)

both : (a b : Bool) → (a && b) ≡ true → (a ≡ true) × (b ≡ true)
both true true h = (refl, refl)
both true false h = cc
both false b h = cc

-- If the daemon is set up, a datagram is answered exactly if it starts with the first key, and
-- only with the whole encrypted password.
pub udp_reply_iff :
    (user password : List ℕ) (v : Vars) (datagram reply : List ℕ)
    → IsSetUp user password v
    → (udp_reply v datagram ≡ some reply) ↔ ((take 16 datagram ≡ v.key1) × (reply ≡ v.password_enc))
unfolding udp_reply
udp_reply_iff user password v datagram reply s =
    let whole : take v.password_len v.password_enc ≡ v.password_enc =
      take_all v.password_len v.password_enc
        (omega (arith, ap length s.encrypted, length-xor_string password v.key2, s.sized)) in
    (
      λ h.
          let r = if_some _ (some (take v.password_len v.password_enc)) reply h in
          (
            sym (eqb_list→eq v.key1 (take 16 datagram) (both _ _ r.0).1),
            sym (some_injective (take v.password_len v.password_enc) reply r.1) ∙ whole,
          ),
      λ (same, is). rw same (rw (s.key1_size, eqb_list_refl v.key1) (ap some (whole ∙ sym is))),
    )
