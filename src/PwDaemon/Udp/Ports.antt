-- ===== src/PwDaemon/Udp/Ports.antt =====
-- The ports that the UDP listener is bound to.
use mltk.Common.{
  ℕ, zero, suc, ◌+◌, ◌-◌, ◌≤◌, ◌<◌, ◌≡◌, refl, ap₂, ◌∙◌, sym, ap, Bool, true, false, Option, none,
  some, if◌then◌else◌, ltb, ℤ, pos, negsuc, arith, Bool-cases, inl, inr, ◌⊎◌,
}
use mltk.PwDaemon.Udp.{
  Net, Bound, bound, gave_up, out_of_fuel, random_port, bind_loop, start_listener, Started,
  init_udp,
}

-- A bound port is one of 20000, and its bind succeeded after failures; without one every bind
-- failed, up to the one with the number 100.
abbrev pub Explains : (ℕ → ℕ → Bool) → (ℕ → ℕ) → ℕ → ℕ → Bound → Type 0
Explains bind rand k tries (bound port k') =
    (40000 ≤ port) × (port < 60000) × (k < k') × (bind (tries + (k' - 1 - k)) port ≡ true)
Explains bind rand k tries (gave_up k') =
    (t : ℕ) → tries ≤ t → t ≤ 100 → bind t (random_port rand (k + (t - tries))) ≡ false
Explains bind rand k tries out_of_fuel = ⊥

random_port_range :
    (rand : ℕ → ℕ) (k : ℕ) → (40000 ≤ random_port rand k) × (random_port rand k < 60000)
random_port_range rand k = (omega arith, omega arith)

split_le : (a b : ℕ) → a ≤ b → (a ≡ b) ⊎ (a + 1 ≤ b)
split_le a b h = ground arith

module _ (bind : ℕ → ℕ → Bool) (rand : ℕ → ℕ) (k tries : ℕ)
    (failed : bind tries (random_port rand k) ≡ false) where
  -- The rounds after a failed one, told from that one.
  Explains-later :
      (b : Bound) → Explains bind rand (k + 1) (tries + 1) b → Explains bind rand k tries b
  Explains-later (bound port k') (lo, hi, later, works) =
      let same : tries + 1 + (k' - 1 - (k + 1)) ≡ tries + (k' - 1 - k) = omega arith in
      (lo, hi, omega arith, ap (λ t. bind t port) (sym same) ∙ works)
  Explains-later (gave_up k') all = λ t le last. elim (split_le tries t le) [
    | inl same ↦
        let at : k + (t - tries) ≡ k = omega arith in
        ap₂ (λ u j. bind u (random_port rand j)) (sym same) at ∙ failed
    | inr later ↦
        let at : k + (t - tries) ≡ k + 1 + (t - (tries + 1)) = omega arith in
        ap (λ j. bind t (random_port rand j)) at ∙ all t later last
  ]
  Explains-later out_of_fuel never = never

-- With fuel for the rounds up to the one with number 100 the loop ends, as explained.
pub bind_loop_lem :
    (fuel : ℕ) (bind : ℕ → ℕ → Bool) (rand : ℕ → ℕ) (k tries : ℕ)
    → tries ≤ 100
    → 101 ≤ fuel + tries
    → Explains bind rand k tries (bind_loop fuel bind rand k tries)
unfolding bind_loop
bind_loop_lem zero bind rand k tries few enough = absurd (omega arith)
bind_loop_lem (suc fuel) bind rand k tries few enough =
    elim (Bool-cases (bind tries (random_port rand k))) [
      | inl works ↦
          let at : tries + (k + 1 - 1 - k) ≡ tries = omega arith in
          let range = random_port_range rand k in
          rw works (range.0, range.1, omega arith, ap (λ t. bind t (random_port rand k)) at ∙ works)
      | inr failed ↦ elim (Bool-cases (ltb 100 (tries + 1))) [
        | inl last ↦
            rw (failed, last)
              (λ t le few_more.
                let same : t ≡ tries = ground arith in
                let at : k + (t - tries) ≡ k = omega arith in
                ap₂ (λ u j. bind u (random_port rand j)) same at ∙ failed)
        | inr more ↦
            rw (failed, more)
              (Explains-later bind rand k tries failed _
                (bind_loop_lem fuel bind rand (k + 1) (tries + 1) (ground arith) (omega arith)))
      ]
    ]

-- A port from 40000 to 59999 that was bound, and a child for it; or -1, as the socket or the fork
-- failed or each of 101 binds did.
unfoldable pub IsListening : Net → (ℕ → ℕ) → ℕ → Started → Type 0
IsListening net rand k s =
    ((port : ℕ) × (pid : ℕ) × (s.udp_port ≡ pos port)
      × (s.udp_pid ≡ pos pid)
      × (40000 ≤ port)
      × (port < 60000)
      × (net.fork ≡ some pid)
      × ((t : ℕ) × (net.bind t port ≡ true)))

unfoldable pub HasFailed : Net → (ℕ → ℕ) → ℕ → Started → Type 0
HasFailed net rand k s =
    (s.udp_port ≡ negsuc 0)
    × ((net.socket ≡ false)
        ⊎ ((net.fork ≡ none) ⊎ ((t : ℕ) → t ≤ 100 → net.bind t (random_port rand (k + t)) ≡ false)))

start_listener_lem :
    (net : Net) (rand : ℕ → ℕ) (k : ℕ) (udp_pid : ℤ) (fork : Option ℕ) (b : Bound)
    → net.fork ≡ fork
    → Explains net.bind rand k 0 b
    → (s : Started) × (start_listener b fork udp_pid ≡ some s)
      × (IsListening net rand k s ⊎ HasFailed net rand k s)
unfolding start_listener HasFailed IsListening
start_listener_lem net rand k udp_pid none (bound port k') e h = (_, refl, inr (refl, inr (inl e)))
start_listener_lem net rand k udp_pid (some pid) (bound port k') e (lo, hi, later, works) =
    (_, refl, inl (port, pid, refl, refl, lo, hi, e, (_, works)))
start_listener_lem net rand k udp_pid fork (gave_up k') e all = (
  _,
  refl,
  inr (
    refl,
    inr (
        inr (λ t last.
          let at : k + t ≡ k + (t - 0) = omega arith in
          ap (λ j. net.bind t (random_port rand j)) at ∙ all t (omega arith) last)),
  ),
)
start_listener_lem net rand k udp_pid fork out_of_fuel e never = absurd never

-- Whatever the sockets do, the start of the listener ends, with a port from 40000 to 59999 that was
-- bound and a child for it, or with -1: then there was no socket, or the fork failed, or each of
-- 101 binds failed.
pub init_udp_lem :
    (net : Net) (rand : ℕ → ℕ) (k : ℕ) (udp_pid : ℤ)
    → (s : Started) × (init_udp net rand k udp_pid ≡ some s)
      × (IsListening net rand k s ⊎ HasFailed net rand k s)
unfolding init_udp HasFailed
init_udp_lem net rand k udp_pid = elim (Bool-cases net.socket) [
  | inl made ↦
      let r =
        start_listener_lem net rand k udp_pid net.fork (bind_loop 101 net.bind rand k 0) refl
          (bind_loop_lem 101 net.bind rand k 0 (omega arith) (omega arith)) in
      (
        r.0,
        ap
              (λ b.
                if b
                then start_listener (bind_loop 101 net.bind rand k 0) net.fork udp_pid
                else some (record { udp_port = negsuc 0; udp_pid = udp_pid; calls = k }))
              made
            ∙ r.1,
        r.2,
      )
  | inr fails ↦ (
    record { udp_port = negsuc 0; udp_pid = udp_pid; calls = k },
    ap
        (λ b.
          if b
          then start_listener (bind_loop 101 net.bind rand k 0) net.fork udp_pid
          else some (record { udp_port = negsuc 0; udp_pid = udp_pid; calls = k }))
        fails,
    inr (refl, inl fails),
  )
]
