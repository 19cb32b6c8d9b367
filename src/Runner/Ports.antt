-- ===== src/Runner/Ports.antt =====
-- The port helpers of launcher/internal/runner/runner.go. A port is Go's int; the scan stops early
-- where adding 100 would pass the largest int, since the bound then wraps round to a negative one.
pub mod Range
pub mod Waiting
use egovframe_launcher.Base.{
  ℕ, zero, suc, ◌+◌, ◌-◌, ◌/◌, ◌^◌, ◌≡◌, refl, String, ◌<>◌, Bool, true, false, not, ◌||◌, Option,
  none, some, List, [], ◌∷◌, ltb, if◌then◌else◌,
}
use egovframe_launcher.Base.Int.{ℤ, pos, negsuc, is_pos, add_ℕ}
use egovframe_launcher.Base.Text.{itoa}
use egovframe_launcher.Prog.{Prog, ret, step, ◌>>=◌, ◌>>◌, skip}
use egovframe_launcher.Runner.Host.{Host}
use egovframe_launcher.Runner.Sys.{Sys, ask, tell, look}

abbrev pub scan_len : ℕ
scan_len = 100

abbrev pub max_int : ℕ
max_int = 2 ^ 63 - 1

-- `startPort+100` is past the largest int.
abbrev pub bound_wraps : ℤ → Bool
bound_wraps (pos n) = ltb max_int (n + scan_len)
bound_wraps (negsuc n) = false

module _ (h : Host) where
  unfoldable pub is_port_available : ℤ → Prog (Sys h) Bool
  unfolding ◌>>=◌
  is_port_available port = do
    free4 ← ask (h.listen4 port)
    if free4 then ask (h.listen6 port) else ret false

  -- The loop of `findAvailablePort`, by the rounds that are left.
  unfoldable pub scan_ports : ℕ → ℤ → ℤ → Prog (Sys h) ℤ
  unfolding ◌>>=◌
  scan_ports zero port start = ret start
  scan_ports (suc left) port start = do
    free ← is_port_available port
    if free then ret port else scan_ports left (add_ℕ port 1) start

  unfoldable pub find_available_port : ℤ → Prog (Sys h) ℤ
  find_available_port start =
      if bound_wraps start then ret start else scan_ports scan_len start start

  unfoldable pub port_listening : ℤ → ℕ → Prog (Sys h) Bool
  port_listening port timeout = ask (h.dial port timeout)

  -- The loop of `waitForPort`, with `fuel` rounds at most; each sleeps for 300 ms.
  unfoldable pub wait_until : ℕ → ℤ → ℕ → Prog (Sys h) Bool
  unfolding ◌>>=◌
  wait_until zero port deadline = ret false
  wait_until (suc fuel) port deadline = do
    now ← look h.now
    if ltb now deadline
        then (do
          up ← port_listening port 300
          if up then ret true else (tell (h.sleep 300) >> wait_until fuel port deadline))
        else ret false

  -- One round for each 300 ms of the wait, and one more, are enough if sleeping takes its time.
  unfoldable pub wait_for_port : ℤ → ℕ → Prog (Sys h) Bool
  unfolding ◌>>=◌
  wait_for_port port max_wait = do
    now ← look h.now
    wait_until (suc (suc (max_wait / 300))) port (now + max_wait)

  abbrev kill_listener : ℤ → Bool → String × List String
  kill_listener port windows =
      if windows
      then (
        "cmd",
        "/c"
            ∷ ("for /f \"tokens=5\" %a in ('netstat -aon ^| findstr :"
                <> itoa port
                <> "') do taskkill /f /pid %a")
            ∷ [],
      )
      else (
        "sh",
        "-c" ∷ ("lsof -t -i :" <> itoa port <> " | xargs kill -9 2>/dev/null || true") ∷ [],
      )

  -- `freePort`
  unfoldable pub free_port : ℤ → Prog (Sys h) (Unit {0})
  unfolding ◌>>=◌
  free_port port = if not (is_pos port) then skip else do
    up ← port_listening port 200
    if not up then skip else (do
      let (name, args) = kill_listener port h.windows
      _ ← ask (h.output (record { name = name; args = args; dir = ""; env = none }))
      skip)
