-- ===== src/Runner/Ports/Waiting.antt =====
-- The loop of waitForPort in launcher/internal/runner/runner.go has fuel enough.
use egovframe_launcher.Base.{
  ℕ, zero, suc, ◌+◌, ◌*◌, ◌/◌, ◌≤◌, ◌≡◌, ap, ◌∙◌, some, true, false, ltb, arith, if◌then◌else◌,
}
use egovframe_launcher.Base.Int.{ℤ}
use egovframe_launcher.Prog.{run, ◌>>=◌}
use egovframe_launcher.Prog.Inversion.{run-if}
use egovframe_launcher.Runner.Host.{Host}
use egovframe_launcher.Runner.Sys.{Sys}
use egovframe_launcher.Runner.Ports.{wait_until, wait_for_port, port_listening}

-- A sleep takes its time, and a dial does not turn the clock back.
pub record HasClock (h : Host) : Type 0 where
  pub slept : (n : ℕ) (w : h.World) → h.now w + n ≤ h.now (h.sleep n w)
  pub dialled : (port : ℤ) (n : ℕ) (w : h.World) → h.now w ≤ h.now (h.dial port n w).1

module _ (h : Host) (clock : HasClock h) where
  -- The world after one round that finds the port closed.
  abbrev round : ℤ → Sys h → Sys h
  round port s = record s { world = h.sleep 300 (h.dial port 300 s.world).1 }

  wait_round :
      (fuel : ℕ) (port : ℤ) (deadline : ℕ) (s : Sys h)
      → run (wait_until h (suc fuel) port deadline) s ≡ (
          if ltb (h.now s.world) deadline
          then (if (h.dial port 300 s.world).0
              then (some true, record s { world = (h.dial port 300 s.world).1 })
              else run (wait_until h fuel port deadline) (round port s))
          else (some false, s))
  unfolding wait_until port_listening run ◌>>=◌
  wait_round fuel port deadline s =
      run-if (ltb (h.now s.world) deadline) _ _ s
      ∙ ap (λ r. if ltb (h.now s.world) deadline then r else (some false, s))
          (run-if (h.dial port 300 s.world).0 _ _
            (record s { world = (h.dial port 300 s.world).1 }))

  -- If the rounds cover the time to the deadline, more fuel changes nothing.
  pub wait_until_enough :
      (fuel more : ℕ) (port : ℤ) (deadline : ℕ) (s : Sys h)
      → deadline ≤ h.now s.world + 300 * fuel
      → run (wait_until h (suc fuel) port deadline) s
        ≡ run (wait_until h (suc (fuel + more)) port deadline) s
  wait_until_enough zero more port deadline s near =
      ground (arith, wait_round zero port deadline s, wait_round more port deadline s)
  wait_until_enough (suc fuel) more port deadline s near = ground (
    arith,
    wait_round (suc fuel) port deadline s,
    wait_round (suc fuel + more) port deadline s,
    wait_until_enough fuel more port deadline (round port s),
    clock.slept 300 (h.dial port 300 s.world).1,
    clock.dialled port 300 s.world,
  )

  -- The fuel of the wait is enough: where a sleep takes its time and a dial does not turn the clock
  -- back, any greater number of rounds gives the same answer and the same state.
  pub wait_for_port_enough :
      (more : ℕ) (port : ℤ) (max_wait : ℕ) (s : Sys h)
      → run (wait_for_port h port max_wait) s
        ≡ run (wait_until h (suc (suc (max_wait / 300) + more)) port (h.now s.world + max_wait)) s
  unfolding wait_for_port run ◌>>=◌
  wait_for_port_enough more port max_wait s =
      wait_until_enough (suc (max_wait / 300)) more port (h.now s.world + max_wait) s (omega arith)
