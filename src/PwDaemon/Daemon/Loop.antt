-- ===== src/PwDaemon/Daemon/Loop.antt =====
-- What holds while the daemon runs, whatever connects and whatever ends.
use mltk.Common.{
  ℕ, ◌≡◌, ◌≢◌, ◌≤◌, ◌<◌, ◌⊎◌, refl, sym, ◌∙◌, ap, ap₂, All, ◌++◌, true, false, List, [], ◌∷◌, some,
  ℤ, pos, negsuc, eqb_ℤ, arith, if_true, if_false, subst, Bool-cases, inl, inr,
}
use mltk.PwDaemon.Serve.{Client, handle_client}
use mltk.PwDaemon.Udp.{Net, Started}
use mltk.PwDaemon.Udp.Ports.{IsListening, HasFailed, init_udp_lem}
use mltk.PwDaemon.Daemon.{
  Daemon, Ids, Event, client, accept_error, children_ended, goes_on, ended, start_udp,
  with_listener, serve, sig_handler, step, Reaches, here, later,
}

-- No listener, or one on a port from 40000 to 59999, with its pid.
unfoldable pub HasListener : Daemon → Type 0
HasListener d =
    (d.udp_port ≡ negsuc 0)
    ⊎ ((port : ℕ) × (pid : ℕ) × (d.udp_port ≡ pos port)
        × (d.udp_pid ≡ pos pid)
        × (40000 ≤ port)
        × (port < 60000))

-- A step keeps the secrets and the ids, and a listener once there is one.
pub record Keeps (d d' : Daemon) : Type 0 where
  pub same_vars : d'.vars ≡ d.vars
  pub same_ids : d'.ids ≡ d.ids
  pub same_listener :
      (port : ℕ) → d.udp_port ≡ pos port → (d'.udp_port ≡ pos port) × (d'.udp_pid ≡ d.udp_pid)
  pub has_listener : HasListener d → HasListener d'

with_listener-Keeps :
    (rand : ℕ → ℕ) (net : Net) (d : Daemon) (s : Started)
    → d.udp_port ≡ negsuc 0
    → IsListening net rand d.calls s ⊎ HasFailed net rand d.calls s
    → Keeps d (record d { udp_port = s.udp_port; udp_pid = s.udp_pid; calls = s.calls })
unfolding HasListener IsListening HasFailed
with_listener-Keeps rand net d s none_yet r = record {
  same_vars = refl;
  same_ids = refl;
  same_listener = λ port is. absurd (cc);
  has_listener = λ _. elim r [
    | inl (port, pid, p1, p2, lo, hi, _, _) ↦ inr (port, pid, p1, p2, lo, hi)
    | inr (failed, _) ↦ inl failed
  ];
}

Keeps-refl : (d : Daemon) → Keeps d d
Keeps-refl d = record {
  same_vars = refl;
  same_ids = refl;
  same_listener = λ port is. (is, refl);
  has_listener = λ h. h;
}

eqb_neg : (a : ℤ) → eqb_ℤ a (negsuc 0) ≡ true → a ≡ negsuc 0
eqb_neg (pos n) h = ground arith
eqb_neg (negsuc n) h = ap negsuc (ground arith)

goes_on_inj : (d d' : Daemon) (r r' : List ℕ) → goes_on d r ≡ goes_on d' r' → d ≡ d'
goes_on_inj d d' r r' h = cc

start_udp-Keeps :
    (rand : ℕ → ℕ) (net : Net) (d : Daemon)
    → (d' : Daemon) × (start_udp rand net d ≡ some d') × Keeps d d'
unfolding start_udp
start_udp-Keeps rand net d = elim (Bool-cases (eqb_ℤ d.udp_port (negsuc 0))) [
  | inl none_yet ↦
      let r = init_udp_lem net rand d.calls d.udp_pid in
      (
        _,
        if_true _ _ (eqb_ℤ d.udp_port (negsuc 0)) none_yet ∙ ap (with_listener d) r.1,
        with_listener-Keeps rand net d r.0 (eqb_neg d.udp_port none_yet) r.2,
      )
  | inr there ↦ (d, if_false _ _ (eqb_ℤ d.udp_port (negsuc 0)) there, Keeps-refl d)
]

step-Keeps :
    (rand : ℕ → ℕ) (d d' : Daemon) (e : Event) (reply : List ℕ)
    → step rand d e ≡ goes_on d' reply
    → Keeps d d'
unfolding step
step-Keeps rand d d' (client net forked c) reply h =
    let r = start_udp-Keeps rand net d in
    let same : goes_on r.0 _ ≡ goes_on d' reply = sym (ap (serve forked c) r.1) ∙ h in
    subst (λ x. Keeps d x) (goes_on_inj r.0 d' _ reply same) r.2
step-Keeps rand d d' (accept_error true) reply h =
    subst (λ x. Keeps d x) (goes_on_inj d d' [] reply h) (Keeps-refl d)
step-Keeps rand d d' (accept_error false) reply h = cc
step-Keeps rand d d' (children_ended pids) reply h =
    elim (Bool-cases (sig_handler d.udp_pid pids)) [
      | inl died ↦
          let never : ended 1 ≡ goes_on d' reply =
            sym (if_true _ _ (sig_handler d.udp_pid pids) died) ∙ h in
          absurd cc
      | inr fine ↦
          subst (λ x. Keeps d x)
            (goes_on_inj d d' [] reply (sym (if_false _ _ (sig_handler d.udp_pid pids) fine) ∙ h))
            (Keeps-refl d)
    ]

-- Whatever connects, fails and ends from a state without a listener or with one on a port: the
-- secrets and the ids stay, and there is no listener or one with its pid on a port from 40000 to
-- 59999.
pub Reaches-Keeps :
    (rand : ℕ → ℕ) (d d' : Daemon)
    → Reaches rand d d'
    → HasListener d
    → (d'.vars ≡ d.vars) × (d'.ids ≡ d.ids) × HasListener d'
Reaches-Keeps rand d _ here h = (refl, refl, h)
Reaches-Keeps rand d _ (later d1 d2 e reply r s) h =
    let before = Reaches-Keeps rand d d1 r h in
    let k = step-Keeps rand d1 d2 e reply s in
    (k.same_vars ∙ before.0, k.same_ids ∙ before.1, k.has_listener before.2)

-- In any state that a state without a listener or with one on a port leads to, a client for which
-- a child is forked is answered by the secrets and the user of that first state, with the port
-- after the step, and there is a listener with a port or none.
pub step_answers :
    (rand : ℕ → ℕ) (d d' : Daemon) (net : Net) (c : Client)
    → Reaches rand d d'
    → HasListener d
    → (d'' : Daemon) × (step rand d' (client net true c)
        ≡ goes_on d'' (handle_client d.vars d''.udp_port d.ids.euid c))
      × HasListener d''
unfolding step
step_answers rand d d' net c r h =
    let before = Reaches-Keeps rand d d' r h in
    let k = start_udp-Keeps rand net d' in
    (
      k.0,
      ap (serve true c) k.1
          ∙ ap₂ (λ v (i : Ids). goes_on k.0 (handle_client v k.0.udp_port i.euid c))
              (k.2.same_vars ∙ before.0) (k.2.same_ids ∙ before.1),
      k.2.has_listener before.2,
    )

-- The listener's port, once there is one, and its pid are kept by every step after which the
-- daemon goes on.
pub step_port :
    (rand : ℕ → ℕ) (d d' : Daemon) (e : Event) (reply : List ℕ) (port : ℕ)
    → step rand d e ≡ goes_on d' reply
    → d.udp_port ≡ pos port
    → (d'.udp_port ≡ pos port) × (d'.udp_pid ≡ d.udp_pid)
step_port rand d d' e reply port s is = (step-Keeps rand d d' e reply s).same_listener port is

sig_handler_listener : (pid : ℕ) (ps qs : List ℕ) → sig_handler (pos pid) (ps ++ (pid ∷ qs)) ≡ true
unfolding sig_handler
sig_handler_listener pid [] qs = ground arith
sig_handler_listener pid (p ∷ ps) qs = ground (arith, sig_handler_listener pid ps qs)

sig_handler_others :
    (pid : ℕ) (ps : List ℕ) → All (λ p. p ≢ pid) ps → sig_handler (pos pid) ps ≡ false
unfolding sig_handler
sig_handler_others pid [] h = refl
sig_handler_others pid (p ∷ ps) h = ground (arith, sig_handler_others pid ps h.1)

-- With a listener, the daemon exits if its pid is among the children that end, and if it is not
-- the daemon goes on unchanged with nothing written.
pub step_children_ended :
    (rand : ℕ → ℕ) (d : Daemon) (pid : ℕ) (others more : List ℕ)
    → d.udp_pid ≡ pos pid
    → All (λ p. p ≢ pid) others
    → (step rand d (children_ended (others ++ (pid ∷ more))) ≡ ended 1)
      × (step rand d (children_ended others) ≡ goes_on d [])
unfolding step
step_children_ended rand d pid others more is h = (
  if_true _ _ (sig_handler d.udp_pid (others ++ (pid ∷ more)))
      (ap (λ p. sig_handler p (others ++ (pid ∷ more))) is ∙ sig_handler_listener pid others more),
  if_false _ _ (sig_handler d.udp_pid others)
      (ap (λ p. sig_handler p others) is ∙ sig_handler_others pid others h),
)
