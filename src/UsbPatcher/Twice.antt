-- ===== src/UsbPatcher/Twice.antt =====
-- A binary that has been patched is not patched again.
use mltk.Common.{
  ℕ, ◌+◌, ◌-◌, ◌%◌, ◌<◌, ◌≡◌, ◌⊎◌, inl, inr, refl, sym, ap, ◌∙◌, subst, true, List, [], ◌∷◌, arith,
  length, take, set, length-set,
}
use mltk.UsbPatcher.{Patch, File, Run, exit, crash, usb_patcher, vmware16, vmware17}
use mltk.UsbPatcher.Search.{stands_at}
use mltk.UsbPatcher.Outcome.{Explains, usb_patcher_lem}
use mltk.UsbPatcher.Bytes.{take-set}
use mltk.UsbPatcher.Settled.{IsSettled, gone, vmware16-IsSettled, vmware17-IsSettled}

exit_4 : (a b : List ℕ) → exit 4 a ≡ exit 0 b → ⊥
exit_4 a b h = cc

exit_5 : (a b : List ℕ) → exit 5 a ≡ exit 0 b → ⊥
exit_5 a b h = cc

abbrev bytes_of : List ℕ → Run → List ℕ
bytes_of other run = elim run [ exit code bytes ↦ bytes | crash ↦ other ]

pages_of :
    (f : File) (k b : ℕ)
    → let n = length f.bytes - length f.bytes % f.page_size in
      let bytes = set f.bytes k b in
      take (length bytes - length bytes % f.page_size) bytes ≡ set (take n f.bytes) k b
pages_of f k b =
    ap (λ n. take (n - n % f.page_size) (set f.bytes k b)) (length-set f.bytes k b)
    ∙ take-set (length f.bytes - length f.bytes % f.page_size) k b f.bytes

-- What a run on the patched file can only be.
none_left :
    (p : Patch) (exe bytes : List ℕ) (run : Run)
    → ((j : ℕ) → stands_at exe p.sequence j ≡ true → ⊥)
    → Explains p exe bytes run
    → run ≡ exit 4 bytes
unfolding Explains
none_left p exe bytes run never (inl (same, all)) = same
none_left p exe bytes run never (inr (inl (i, j, apart, same, here, there))) = absurd (never i here)
none_left p exe bytes run never (inr (inr (i, same, here, only))) = absurd (never i here)

second_run :
    (p : Patch) (f : File) (bytes : List ℕ) (run : Run)
    → IsSettled p
    → run ≡ exit 0 bytes
    → Explains p (take (length f.bytes - length f.bytes % f.page_size) f.bytes) f.bytes run
    → (j : ℕ)
    → stands_at (take (length bytes - length bytes % f.page_size) bytes) p.sequence j ≡ true
    → ⊥
unfolding Explains
second_run p f bytes run settled ok (inl (same, all)) =
    absurd (exit_4 f.bytes bytes (sym same ∙ ok))
second_run p f bytes run settled ok (inr (inl (i, j, apart, same, here, there))) =
    absurd (exit_5 f.bytes bytes (sym same ∙ ok))
second_run p f bytes run settled ok (inr (inr (i, same, here, only))) =
    let exe : List ℕ = take (length f.bytes - length f.bytes % f.page_size) f.bytes in
    let new : set f.bytes (i + p.place) p.byte ≡ bytes = ap (bytes_of []) (sym same ∙ ok) in
    subst
      (λ (x : List ℕ).
        (j : ℕ) → stands_at (take (length x - length x % f.page_size) x) p.sequence j ≡ true → ⊥)
      new
      (λ j again.
        gone p settled exe i here only j
          (ap (λ xs. stands_at xs p.sequence j) (sym (pages_of f (i + p.place) p.byte)) ∙ again))

nonempty : (s : List ℕ) → 0 < length s → (c : ℕ) × (cs : List ℕ) × (s ≡ c ∷ cs)
nonempty [] h = absurd (omega arith)
nonempty (c ∷ cs) h = (c, cs, refl)

twice :
    (p : Patch) (f : File) (bytes : List ℕ)
    → IsSettled p
    → f.opens ≡ true
    → f.seeks ≡ true
    → f.maps ≡ true
    → usb_patcher p f ≡ exit 0 bytes
    → usb_patcher p (record f { bytes = bytes }) ≡ exit 4 bytes
twice p f bytes settled opens seeks maps ok =
    let start = nonempty p.sequence (omega (arith, settled.inside)) in
    let f' : File = record f { bytes = bytes } in
    none_left p (take (length bytes - length bytes % f.page_size) bytes) bytes (usb_patcher p f')
      (second_run p f bytes (usb_patcher p f) settled ok
        (usb_patcher_lem p start.0 start.1 f start.2 opens seeks maps))
      (usb_patcher_lem p start.0 start.1 f' start.2 opens seeks maps)

shipped-IsSettled : (p : Patch) → (p ≡ vmware16) ⊎ (p ≡ vmware17) → IsSettled p
shipped-IsSettled p (inl is) = subst IsSettled (sym is) vmware16-IsSettled
shipped-IsSettled p (inr is) = subst IsSettled (sym is) vmware17-IsSettled

-- If a run for the sequence of one of the programs, on a file that is opened and mapped, ends with
-- 0, then a second run finds no sequence in what the first has left: it changes nothing and exits
-- with 4.
pub usb_patcher_twice :
    (p : Patch) (f : File) (bytes : List ℕ)
    → (p ≡ vmware16) ⊎ (p ≡ vmware17)
    → f.opens ≡ true
    → f.seeks ≡ true
    → f.maps ≡ true
    → usb_patcher p f ≡ exit 0 bytes
    → usb_patcher p (record f { bytes = bytes }) ≡ exit 4 bytes
usb_patcher_twice p f bytes shipped opens seeks maps ok =
    twice p f bytes (shipped-IsSettled p shipped) opens seeks maps ok
