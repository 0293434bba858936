-- ===== src/IdleAction/IdleTime/Workaround.antt =====
-- The corrected idle time.
use mltk.Common.{ℕ, ◌+◌, ◌*◌, ◌≤◌, ◌<◌, ◌≡◌, ◌⊎◌, false, arith}
use mltk.IdleAction.IdleTime.{
  Dpms, on, standby_mode, suspend_mode, off_mode, state_timeout, workaround_creepy_x_server,
}

timeout_bound :
    (d : Dpms) → d.standby < 65536 → d.suspend < 65536 → d.off < 65536 → state_timeout d < 200000000
unfolding state_timeout
timeout_bound d h1 h2 h3 =
    elim d.state
      as (λ s.
        (elim s [
          | on ↦ 0
          | standby_mode ↦ d.standby * 1000
          | suspend_mode ↦ (d.suspend + d.standby) * 1000
          | off_mode ↦ (d.off + d.suspend + d.standby) * 1000
        ])
        < 200000000) [
          | on ↦ omega arith
          | standby_mode ↦ omega arith
          | suspend_mode ↦ omega arith
          | off_mode ↦ omega arith
        ]

-- With timeouts of 16 bits the corrected time is the reported one, or that and the time after which
-- the server is in its state, with no wrap; and if the server saves power it is at least that time.
pub workaround_lem :
    (d : Dpms) (idle : ℕ)
    → d.standby < 65536
    → d.suspend < 65536
    → d.off < 65536
    → ((workaround_creepy_x_server d idle ≡ idle)
        ⊎ ((idle < state_timeout d) × (workaround_creepy_x_server d idle ≡ idle + state_timeout d)))
      × ((d.supported ≡ false)
          ⊎ (d.capable ≡ false)
          ⊎ (d.onoff ≡ false)
          ⊎ (state_timeout d ≤ workaround_creepy_x_server d idle))
unfolding workaround_creepy_x_server
workaround_lem d idle h1 h2 h3 =
    (ground (arith, timeout_bound d h1 h2 h3), ground (arith, timeout_bound d h1 h2 h3))
