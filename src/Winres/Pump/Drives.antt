-- ===== src/Winres/Pump/Drives.antt =====
-- The callback for the drives is done after 15 calls.
use mltk.Common.{
  ℕ, suc, ◌≤◌, ◌<◌, ◌≡◌, ◌⊎◌, refl, sym, ap, ◌∙◌, subst, Bool, true, false, ◌&&◌, ◌||◌, [], some,
  if◌then◌else◌, ltb, pos, eqb_ℤ, arith, inl, inr, Bool-cases, if_false,
}
use mltk.Winres.Shares.{mount_network_shares}
use mltk.Winres.Query.{Asked, query_password_daemon}
use mltk.Winres.Pump.{
  Guest, Answers, Pump, remap_via_shared_folder, remap_rest, finish_drives, try_again, after_shares,
  after_query, with_share_file, without_share_file, setup_network_drives, after_message, with_calls,
  login,
}
use mltk.Winres.Pump.Secret.{setup_network_drives_done}

-- After so many calls of the drives' callback, it is done, or has counted each of them.
unfoldable pub Drives : ℕ → Pump → Type 0
Drives n p = (p.mount_done ≡ true) ⊎ ((p.in_proc ≡ false) × (n ≤ p.attempts) × (p.attempts < 15))

pub if-Drives :
    (n : ℕ) (b : Bool) (x y : Pump) → Drives n x → Drives n y → Drives n (if b then x else y)
if-Drives n true x y h k = h
if-Drives n false x y h k = k

finished-Drives : (n : ℕ) (g : Guest) (p : Pump) → Drives n (finish_drives g p)
unfolding Drives
finished-Drives n g p = inl refl

remap_rest-Drives : (n : ℕ) (g : Guest) (a : Answers) (p : Pump) → Drives n (remap_rest g a p)
remap_rest-Drives n g a p =
    if-Drives n _ (finish_drives g (remap_via_shared_folder g a p)) (finish_drives g p)
      (finished-Drives n g (remap_via_shared_folder g a p)) (finished-Drives n g p)

-- Another attempt is made only below the limit.
again-Drives :
    (n : ℕ) (b : Bool) (p x : Pump)
    → n ≤ p.attempts
    → (b ≡ true → suc p.attempts < 15)
    → Drives (suc n) x
    → Drives (suc n) (if b then try_again p else x)
unfolding Drives
again-Drives n true p x le below h = inr (refl, omega arith, below refl)
again-Drives n false p x le below h = h

after_shares-Drives :
    (n : ℕ) (g : Guest) (a : Answers) (b : Bool) (p : Pump)
    → n ≤ p.attempts
    → Drives (suc n) (after_shares g a b p)
after_shares-Drives n g a true p le = remap_rest-Drives (suc n) g a p
after_shares-Drives n g a false p le =
    again-Drives n (ltb a.elapsed 30000 && ltb (suc p.attempts) 15) p _ le (λ h. ground arith)
      (remap_rest-Drives (suc n) g a
        (if ltb a.elapsed 30000 then record p { attempts = suc p.attempts } else p))

after_query-Drives :
    (n : ℕ) (g : Guest) (a : Answers) (b : Bool) (p : Pump)
    → n ≤ p.attempts
    → Drives (suc n) (after_query g a b p)
after_query-Drives n g a true p le =
    let r = mount_network_shares a.windows g.share_file_ok (login g p) p.mounts in
    after_shares-Drives n g a r.0 (with_calls g a.windows r.2 (record p { mounts = r.1 })) le
after_query-Drives n g a false p le =
    again-Drives n (ltb (suc p.attempts) 10) p _ le (λ h. ground arith)
      (remap_rest-Drives (suc n) g a (record p { attempts = suc p.attempts }))

busy-or : (b c : Bool) → b ≡ false → c ≡ false → (b || c) ≡ false
busy-or b c hb hc = ground arith

done-Drives :
    (n : ℕ) (g : Guest) (a : Answers) (p : Pump)
    → p.mount_done ≡ true
    → Drives n (setup_network_drives g a p)
unfolding Drives
done-Drives n g a p done =
    inl (ap (λ (q : Pump). q.mount_done) (setup_network_drives_done g a p done) ∙ done)

idle-Drives :
    (n : ℕ) (g : Guest) (a : Answers) (p : Pump)
    → n ≤ p.attempts
    → (p.in_proc || p.mount_done) ≡ false
    → Drives (suc n) (setup_network_drives g a p)
unfolding setup_network_drives
idle-Drives n g a p le idle =
    let asked : Asked = query_password_daemon a.network g.share_file_ok g.remote p.query in
    let next : Pump = if g.share_file_ok then with_share_file g a p else without_share_file g a p in
    subst (Drives (suc n)) (sym (if_false p next (p.in_proc || p.mount_done) idle)) (
      if-Drives (suc n) g.share_file_ok (with_share_file g a p) (without_share_file g a p)
        (after_query-Drives n g a (eqb_ℤ asked.code (pos 0)) (record p { query = asked.after }) le)
        (if-Drives (suc n) _ (finish_drives g (remap_via_shared_folder g a p)) (finish_drives g p)
          (finished-Drives (suc n) g (remap_via_shared_folder g a p))
          (finished-Drives (suc n) g p)))

pub Drives-call :
    (n : ℕ) (g : Guest) (a : Answers) (p : Pump)
    → Drives n p
    → Drives (suc n) (setup_network_drives g a p)
unfolding Drives
Drives-call n g a p (inl done) = done-Drives (suc n) g a p done
Drives-call n g a p (inr (busy, le, below)) = elim (Bool-cases p.mount_done) [
  | inl done ↦ done-Drives (suc n) g a p done
  | inr waits ↦ idle-Drives n g a p le (busy-or p.in_proc p.mount_done busy waits)
]

-- The erasing leaves the counts alone.
pub after_message-Drives : (n : ℕ) (p : Pump) → Drives n p → Drives n (after_message p)
unfolding after_message Drives
after_message-Drives n p h =
    if-Drives n _ (record p { query = record p.query { spass = some [] }; deleted = true }) p h h
