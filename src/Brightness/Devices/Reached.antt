-- ===== src/Brightness/Devices/Reached.antt =====
-- How far the search of `open_events` in core/modules/slx-brightness/src/main.c gets.
use mltk.Common.{ℕ, suc, ◌+◌, ◌-◌, ◌≤◌, ◌<◌, ◌≡◌, ◌≢◌, ◌⊎◌, inl, inr, refl, sym, ◌∙◌, subst, arith}
use native.Mathlib.Decide.{dec_lt}
use mltk.Brightness.Devices.{Slot, absent, denied}

absent-≢-denied : absent ≢ denied
absent-≢-denied e = cc

module _ (slots : ℕ → Slot) where
  -- One of ten numbers has a device.
  abbrev pub HasDevice : ℕ → Type 0
  HasDevice j = (k : ℕ) × (k < 10) × (slots (j + k) ≢ absent)

  -- No device before the number refuses to be opened, and no ten numbers before it have none.
  abbrev pub IsReached : ℕ → Type 0
  IsReached n = ((j : ℕ) → j < n → slots j ≢ denied) × ((j : ℕ) → j + 10 ≤ n → HasDevice j)

  -- The loop gets to a number with `fails`: so many before it have no device, and the one before
  -- those has.
  abbrev pub At : ℕ → ℕ → Type 0
  At id fails =
      IsReached id
      × ((j : ℕ) → j < id → id ≤ j + fails → slots j ≡ absent)
      × ((id ≡ fails) ⊎ ((k : ℕ) × (id ≡ k + suc fails) × (slots k ≢ absent)))

  next-IsReached :
      (id : ℕ)
      → IsReached id
      → slots id ≢ denied
      → ((j : ℕ) → j + 10 ≡ id + 1 → HasDevice j)
      → IsReached (id + 1)
  next-IsReached id r opens near = (
    λ j before. elim (dec_lt j id) [
      | yes lt ↦ r.0 j lt
      | no ge ↦ let same : id ≡ j = omega arith in subst (λ m. slots m ≢ denied) same opens
    ],
    λ j ten. elim (dec_lt (j + 9) id) [
      | yes lt ↦ r.1 j (omega arith)
      | no ge ↦ near j (omega arith)
    ],
  )

  pub gap-At :
      (id fails : ℕ) → slots id ≡ absent → fails + 1 < 10 → At id fails → At (id + 1) (fails + 1)
  gap-At id fails is few a = (
    next-IsReached id a.0 (λ e. absent-≢-denied (sym is ∙ e)) near,
    λ j before recent. elim (dec_lt j id) [
      | yes lt ↦ a.1 j lt (omega arith)
      | no ge ↦ let same : id ≡ j = omega arith in subst (λ m. slots m ≡ absent) same is
    ],
    elim a.2 [ inl e ↦ inl (omega arith) | inr f ↦ inr (f.0, omega (arith, f.1), f.2) ],
  )
    where
      near : (j : ℕ) → j + 10 ≡ id + 1 → HasDevice j
      near j e = elim a.2 [
        | inl none_yet ↦ absurd (omega arith)
        | inr f ↦
            let at : f.0 ≡ j + (f.0 - j) = omega (arith, f.1) in
            (f.0 - j, omega (arith, f.1), subst (λ m. slots m ≢ absent) at f.2)
      ]

  pub device-At :
      (id fails : ℕ) → slots id ≢ absent → slots id ≢ denied → At id fails → At (id + 1) 0
  device-At id fails there opens a = (
    next-IsReached id a.0 opens (λ j e.
        let at : id ≡ j + 9 = omega arith in
        (9, omega arith, subst (λ m. slots m ≢ absent) at there)),
    λ j before recent. absurd (omega arith),
    inr (id, omega arith, there),
  )

  fails_le : (id fails : ℕ) → At id fails → fails ≤ id
  fails_le id fails a = elim a.2 [ inl e ↦ omega arith | inr f ↦ omega (arith, f.1) ]

  -- After ten numbers without a device no number is reached.
  pub end-unreached :
      (id fails n : ℕ) → slots id ≡ absent → fails ≡ 9 → At id fails → id < n → IsReached n → ⊥
  end-unreached id fails n is nine a after r =
      let long : fails ≤ id = fails_le id fails a in
      let h : HasDevice (id - 9) = r.1 (id - 9) (omega arith) in
      elim (dec_lt (id - 9 + h.0) id) [
        | yes lt ↦ h.2 (a.1 (id - 9 + h.0) lt (omega arith))
        | no ge ↦
            let at : id ≡ id - 9 + h.0 = omega (arith, h.1) in
            h.2 (subst (λ m. slots m ≡ absent) at is)
      ]

  pub first-At : At 0 0
  first-At = (
    (λ j before. absurd (omega arith), λ j ten. absurd (omega arith)),
    λ j before recent. absurd (omega arith),
    inl refl,
  )
