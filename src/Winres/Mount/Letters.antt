-- ===== src/Winres/Mount/Letters.antt =====
-- A share is reported as mounted only if the network has connected it under that name.
use mltk.Common.{
  ℕ, zero, suc, ◌+◌, ◌≤◌, ◌≡◌, ◌⊎◌, refl, sym, ◌∙◌, ap, subst, Bool, true, false, not, ◌&&◌, ◌||◌,
  List, [], ◌∷◌, Option, none, some, if◌then◌else◌, arith, Bool-cases, inl, inr, if_true, if_false,
  some_injective,
}
use mltk.Winres.ShareFile.{Drive}
use mltk.Winres.Mount.{
  Status, no_error, invalid_parameter, Request, bad_credentials, is_taken, is_final, is_ok,
  is_conflict, Windows, Login, Cache, is_empty, or_empty, converted, refresh, mount_session, mount,
  Outcome, letter_loop, after_first, no_letter, buffer_of, first_request, mount_path, mount_unc,
  mount_network_share,
}

-- The network answers a request for this name and path, with some credentials, with a status.
pub Answers : Windows → Bool → List ℕ → List ℕ → Status → Type 0
Answers w print local remote s =
    (pass : List ℕ) × (user : List ℕ) × (w.connect
        (record { print = print; local = local; remote = remote; pass = pass; user = user })
      ≡ s)

abbrev status : Status × Cache → Status
status m = m.0

mount_session-Answers :
    (w : Windows) (login : Login) (cache : Cache) (r : Request) (s : Status)
    → (mount_session w login cache r).0 ≡ s
    → (s ≡ invalid_parameter) ⊎ Answers w r.print r.local r.remote s
unfolding mount_session Answers
mount_session-Answers w login cache r s e = elim (Bool-cases (refresh w login cache).0) [
  | inl ok ↦ inr (_, _, sym (ap status (if_true _ _ (refresh w login cache).0 ok)) ∙ e)
  | inr failed ↦ inl (sym e ∙ ap status (if_false _ _ (refresh w login cache).0 failed))
]

mount-Answers :
    (w : Windows) (login : Login) (cache : Cache) (r : Request) (s : Status)
    → (mount w login cache r).0 ≡ s
    → (s ≡ invalid_parameter) ⊎ Answers w r.print r.local r.remote s
unfolding mount Answers
mount-Answers w login cache r s e = elim (Bool-cases (is_empty r.pass && is_empty r.user)) [
  | inl none_given ↦
      mount_session-Answers w login cache r s
        (sym (ap status (if_true _ _ (is_empty r.pass && is_empty r.user) none_given)) ∙ e)
  | inr given ↦
      let first : Status = w.connect r in
      let stays : Bool = is_ok first || not (bad_credentials first) in
      let e' = sym (ap status (if_false _ _ (is_empty r.pass && is_empty r.user) given)) ∙ e in
      elim (Bool-cases stays) [
        | inl stay ↦ inr (r.pass, r.user, sym (ap status (if_true _ _ stays stay)) ∙ e')
        | inr goes ↦
            mount_session-Answers w login cache r s (sym (ap status (if_false _ _ stays goes)) ∙ e')
      ]
]

is_ok_lem : (s : Status) → is_ok s ≡ true → s ≡ no_error
is_ok_lem no_error h = refl
is_ok_lem s h = absurd cc

mount_ok :
    (w : Windows) (login : Login) (cache : Cache) (r : Request)
    → is_ok (mount w login cache r).0 ≡ true
    → Answers w r.print r.local r.remote no_error
mount_ok w login cache r h =
    elim (mount-Answers w login cache r no_error (is_ok_lem (mount w login cache r).0 h)) [
      | inl never ↦ absurd cc
      | inr a ↦ a
    ]

abbrev letter_of : Outcome → Option (List ℕ)
letter_of o = o.mounted

-- A letter from D to Z, of which the network took the name for the path.
pub HasLetter : Windows → List ℕ → List ℕ → Type 0
HasLetter w path local =
    (c : ℕ) × (68 ≤ c) × (c ≤ 90) × (local ≡ c ∷ b':' ∷ []) × Answers w false local path no_error

letter_loop-HasLetter :
    (n : ℕ) (w : Windows) (login : Login) (cache : Cache) (r : Request) (local : List ℕ)
    → n ≤ 23
    → r.print ≡ false
    → (letter_loop n w login cache r).mounted ≡ some local
    → HasLetter w r.remote local
unfolding letter_loop HasLetter
letter_loop-HasLetter zero w login cache r local few disk e = absurd cc
letter_loop-HasLetter (suc n) w login cache r local few disk e =
    let name : List ℕ = (67 + suc n) ∷ b':' ∷ [] in
    let r' : Request = record r { local = name } in
    let m : Status × Cache = mount w login cache r' in
    let next : Outcome = letter_loop n w login m.1 r in
    let fresh : Outcome = record { done = true; mounted = some name; cache = m.1 } in
    let given_up : Outcome = record { done = is_final m.0; mounted = none; cache = m.1 } in
    elim (Bool-cases (is_taken m.0)) [
      | inl taken ↦
          letter_loop-HasLetter n w login m.1 r local (omega arith) disk
            (sym (ap letter_of (if_true next _ (is_taken m.0) taken)) ∙ e)
      | inr other ↦
          let e' : (if is_ok m.0 then fresh else given_up).mounted ≡ some local =
            sym (ap letter_of (if_false next _ (is_taken m.0) other)) ∙ e in
          elim (Bool-cases (is_ok m.0)) [
            | inl ok ↦
                let same : name ≡ local =
                  some_injective name local
                    (sym (ap letter_of (if_true fresh given_up (is_ok m.0) ok)) ∙ e') in
                subst (λ l. HasLetter w r.remote l) same
                  (
                    67 + suc n,
                    omega arith,
                    omega arith,
                    refl,
                    subst (λ b. Answers w b name r.remote no_error) disk
                        (mount_ok w login cache r' ok),
                  )
            | inr bad ↦
                let never : none ≡ some local =
                  sym (ap letter_of (if_false fresh given_up (is_ok m.0) bad)) ∙ e' in
                absurd cc
          ]
    ]

-- The network took the share under the name that is reported: the wanted one, a printer that is
-- connected already, or a letter from D to Z.
pub IsMounted : Windows → List ℕ → List ℕ → Type 0
IsMounted w path local =
    ((print : Bool) × Answers w print local path no_error)
    ⊎ ((s : Status) × (is_conflict s ≡ true) × Answers w true local path s)
    ⊎ HasLetter w path local

or_right : (a b : Bool) → (a || b) ≡ true → a ≡ false → b ≡ true
or_right a b h l = ground arith

or_false : (a b : Bool) → (a || b) ≡ false → (a ≡ false) × (b ≡ false)
or_false a b h = ground arith

both_true : (a b : Bool) → not (a && b) ≡ false → a ≡ true
both_true a b h = ground arith

conflict_answered :
    (w : Windows) (login : Login) (cache : Cache) (r : Request)
    → (r.print && is_conflict (mount w login cache r).0) ≡ true
    → (s : Status) × (is_conflict s ≡ true) × Answers w true r.local r.remote s
conflict_answered w login cache r h =
    let s : Status = (mount w login cache r).0 in
    let print : r.print ≡ true = ground arith in
    let conflict : is_conflict s ≡ true = ground arith in
    elim (mount-Answers w login cache r s refl) [
      | inl invalid ↦ absurd (clash (sym conflict ∙ ap (λ x. is_conflict x) invalid))
      | inr a ↦ (s, conflict, subst (λ b. Answers w b r.local r.remote s) print a)
    ]
  where
    clash : true ≡ false → ⊥
    clash h = cc

after_first-IsMounted :
    (w : Windows) (login : Login) (cache : Cache) (r : Request) (local : List ℕ)
    → (after_first w login r (mount w login cache r)).mounted ≡ some local
    → IsMounted w r.remote local
unfolding after_first IsMounted
after_first-IsMounted w login cache r local e =
    let m : Status × Cache = mount w login cache r in
    let accepted : Bool = is_ok m.0 || (r.print && is_conflict m.0) in
    let refused : Bool = not (is_taken m.0) || r.print in
    elim (Bool-cases accepted) [
      | inl yes_ ↦
          let same : r.local ≡ local =
            some_injective r.local local (sym (ap letter_of (if_true _ _ accepted yes_)) ∙ e) in
          subst (λ l. IsMounted w r.remote l) same
            (elim (Bool-cases (is_ok m.0)) [
              | inl ok ↦ inl (r.print, mount_ok w login cache r ok)
              | inr bad ↦
                  inr (inl (conflict_answered w login cache r (or_right (is_ok m.0) _ yes_ bad)))
            ])
      | inr not_yet ↦
          let e' = sym (ap letter_of (if_false _ _ accepted not_yet)) ∙ e in
          elim (Bool-cases refused) [
            | inl gives_up ↦
                let never : none ≡ some local =
                  sym (ap letter_of (if_true _ _ refused gives_up)) ∙ e' in
                absurd cc
            | inr searches ↦ inr (
                inr (
                  letter_loop-HasLetter 23 w login m.1 r local (omega arith)
                    (or_false (not (is_taken m.0)) r.print searches).1
                    (sym (ap letter_of (if_false _ _ refused searches)) ∙ e')))
          ]
    ]

mount_path-IsMounted :
    (w : Windows) (login : Login) (cache : Cache) (r : Request) (letter local : List ℕ)
    → (mount_path w login cache r letter).mounted ≡ some local
    → IsMounted w r.remote local
unfolding mount_path
mount_path-IsMounted w login cache r letter local e = elim (Bool-cases (no_letter letter)) [
  | inl none_given ↦
      let l =
        letter_loop-HasLetter 23 w login cache (record r { print = false }) local (omega arith) refl
          (sym (ap letter_of (if_true _ _ (no_letter letter) none_given)) ∙ e) in
      unfold IsMounted in inr (inr l)
  | inr given ↦
      after_first-IsMounted w login cache r local
        (sym (ap letter_of (if_false _ _ (no_letter letter) given)) ∙ e)
]

buffer_of_lem : (o : Option (List ℕ)) → (buffer_of o).0 ≡ true → o ≡ some (buffer_of o).1
buffer_of_lem none h = absurd cc
buffer_of_lem (some t) h = refl

mount_unc-IsMounted :
    (w : Windows) (login : Login) (cache : Cache) (d : Drive) (unc local : List ℕ)
    → (mount_unc w login cache d unc).mounted ≡ some local
    → (path : List ℕ) × (w.convert 200 unc ≡ some path) × IsMounted w path local
unfolding mount_unc first_request
mount_unc-IsMounted w login cache d unc local e =
    let path : Bool × List ℕ = converted w 200 (some unc) in
    let rest : Bool =
      (converted w 10 d.letter).0
      && (converted w 200 d.user).0
      && (converted w 200 d.pass).0
      && (converted w 200 d.shortcut).0 in
    let bad : Bool = not (path.0 && rest) || is_empty path.1 in
    elim (Bool-cases bad) [
      | inl fails ↦
          let never : none ≡ some local = sym (ap letter_of (if_true _ _ bad fails)) ∙ e in
          absurd cc
      | inr good ↦
          let ok : path.0 ≡ true =
            both_true path.0 rest (or_false (not (path.0 && rest)) (is_empty path.1) good).0 in
          (
            path.1,
            buffer_of_lem (w.convert 200 unc) ok,
            mount_path-IsMounted w login cache
                (first_request path.1 (converted w 10 d.letter).1 (converted w 200 d.user).1
                  (converted w 200 d.pass).1)
                (converted w 10 d.letter).1 local (sym (ap letter_of (if_false _ _ bad good)) ∙ e),
          )
    ]

-- If a share is reported to `postSuccessfulMount` under a name, the network has taken its converted
-- path, the name's or the address's as asked for, under that name: with no error, or for a printer
-- with a conflict of credentials, or under a letter from D to Z.
pub mount_network_share-IsMounted :
    (w : Windows) (login : Login) (cache : Cache) (d : Drive) (use_ip : Bool) (local : List ℕ)
    → (mount_network_share w login cache d use_ip).mounted ≡ some local
    → (path : List ℕ) × (w.convert 200 (if use_ip then or_empty d.path_ip else d.path) ≡ some path)
      × IsMounted w path local
unfolding mount_network_share
mount_network_share-IsMounted w login cache d false local e =
    mount_unc-IsMounted w login cache d d.path local e
mount_network_share-IsMounted w login cache d true local e =
    elim (Bool-cases (is_empty (or_empty d.path_ip))) [
      | inl fails ↦
          let never : none ≡ some local = sym (ap letter_of (if_true _ _ _ fails)) ∙ e in absurd cc
      | inr there ↦
          mount_unc-IsMounted w login cache d (or_empty d.path_ip) local
            (sym (ap letter_of (if_false _ _ _ there)) ∙ e)
    ]
