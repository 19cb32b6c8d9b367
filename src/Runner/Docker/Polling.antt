-- ===== src/Runner/Docker/Polling.antt =====
-- The wait for a container's service in launcher/internal/runner/runner.go: it has fuel enough, and
-- it succeeds on an answer of the service alone.
use egovframe_launcher.Base.{
  ℕ, zero, suc, ◌+◌, ◌*◌, ◌/◌, ◌≤◌, ◌<◌, ◌≡◌, refl, sym, ap, ◌∙◌, String, Option, none, some, Bool,
  true, false, ltb, arith, if◌then◌else◌, Bool-cases, inl, inr,
}
use native.Mathlib.Nat.{le-div_iff_mul-le}
use egovframe_launcher.Prog.{Prog, ret, run, ◌>>=◌, ◌>>◌, run-bind_some}
use egovframe_launcher.Prog.Inversion.{run-bind_inv, run-if}
use egovframe_launcher.Runner.Host.{Host}
use egovframe_launcher.Runner.Sys.{Sys, look, tell, log}
use egovframe_launcher.Runner.Tools.{Tools, go_on}
use egovframe_launcher.Runner.Docker.{
  ContainerSpec, poll_ready, rounds, poll_out, run_after_start, report_ready, await_ready,
  start_or_reuse, check_docker, ensure_docker_container,
}

covers : (p t : ℕ) → 0 < p → t ≤ p * suc (t / p)
covers p t some_p = omega arith

within : (p t k : ℕ) → 0 < p → p * k < t → k < suc (suc (t / p))
within p t k some_p less =
    let at_most : k ≤ t / p = (le-div_iff_mul-le some_p).1 (omega (arith, less)) in
    omega (arith, at_most)

module _ {h : Host} (spec : ContainerSpec h) where
  -- The service answered that it is ready, and this is the state after the answer.
  pub record Answered (s' : Sys h) : Type 0 where
    pub asked : Sys h
    pub said : run spec.ready asked ≡ (some true, s')

  round-Answered :
      (rest : Prog (Sys h) Bool) (up : Bool) (asked s : Sys h) {s' : Sys h}
      → ((r : Sys h) → run rest r ≡ (some true, s') → Answered s')
      → run spec.ready asked ≡ (some up, s)
      → run (if up then ret true else (tell (h.sleep spec.poll_interval) >> rest)) s
        ≡ (some true, s')
      → Answered s'
  unfolding run ◌>>=◌
  round-Answered rest true asked s ih e went = record { asked = asked; said = e ∙ went }
  round-Answered rest false asked s ih e went = ih _ went

  abbrev if_asleep : Prog (Sys h) Bool → Bool → Prog (Sys h) Bool
  if_asleep rest up = if up then ret true else (tell (h.sleep spec.poll_interval) >> rest)

  poll_step :
      (fuel deadline : ℕ) (s : Sys h)
      → run (poll_ready (suc fuel) spec deadline) s ≡ (
          if ltb (h.now s.world) deadline
          then run (spec.ready >>= if_asleep (poll_ready fuel spec deadline)) s
          else (some false, s))
  unfolding poll_ready run ◌>>=◌
  poll_step fuel deadline s = run-if (ltb (h.now s.world) deadline) _ _ s

  poll-Answered :
      (fuel deadline : ℕ) (s : Sys h) {s' : Sys h}
      → run (poll_ready fuel spec deadline) s ≡ (some true, s')
      → Answered s'
  unfolding poll_ready run
  poll-Answered zero deadline s e = ground arith
  poll-Answered (suc fuel) deadline s {s'} e = elim (Bool-cases (ltb (h.now s.world) deadline)) [
    | inr late ↦ ground (arith, late, poll_step fuel deadline s)
    | inl early ↦
        let parts =
          run-bind_inv spec.ready (if_asleep (poll_ready fuel spec deadline)) s
            (ground (arith, early, poll_step fuel deadline s)) in
        round-Answered (poll_ready fuel spec deadline) parts.value s parts.between
          (λ r went. poll-Answered fuel deadline r went) parts.ran parts.went_on
  ]

  -- The answers of the service come, and neither they nor a sleep turn the clock back; a sleep takes
  -- its time.
  pub record Steady : Type 0 where
    pub answer : Sys h → Bool
    pub after : Sys h → Sys h
    pub answers : (s : Sys h) → run spec.ready s ≡ (some (answer s), after s)
    pub forward : (s : Sys h) → h.now s.world ≤ h.now (after s).world
    pub slept : (n : ℕ) (w : h.World) → h.now w + n ≤ h.now (h.sleep n w)

  module _ (steady : Steady) where
    abbrev asleep : Sys h → Sys h
    asleep s = record s { world = h.sleep spec.poll_interval s.world }

    answered :
        (rest : Prog (Sys h) Bool) (up : Bool) (s : Sys h)
        → run (if up then ret true else (tell (h.sleep spec.poll_interval) >> rest)) s
          ≡ (if up then (some true, s) else run rest (asleep s))
    unfolding run ◌>>=◌
    answered rest true s = refl
    answered rest false s = refl

    poll_round :
        (fuel deadline : ℕ) (s : Sys h)
        → run (poll_ready (suc fuel) spec deadline) s ≡ (
            if ltb (h.now s.world) deadline
            then (if steady.answer s
                then (some true, steady.after s)
                else run (poll_ready fuel spec deadline) (asleep (steady.after s)))
            else (some false, s))
    poll_round fuel deadline s =
        poll_step fuel deadline s
        ∙ ap (λ r. if ltb (h.now s.world) deadline then r else (some false, s))
            (run-bind_some spec.ready (if_asleep (poll_ready fuel spec deadline)) s
                (steady.answers s)
              ∙ answered (poll_ready fuel spec deadline) (steady.answer s) (steady.after s))

    poll_enough :
        (fuel more deadline : ℕ) (s : Sys h)
        → deadline ≤ h.now s.world + spec.poll_interval * fuel
        → run (poll_ready (suc fuel) spec deadline) s
          ≡ run (poll_ready (suc (fuel + more)) spec deadline) s
    poll_enough zero more deadline s near =
        ground (arith, poll_round zero deadline s, poll_round more deadline s)
    poll_enough (suc fuel) more deadline s near = ground (
      arith,
      poll_round (suc fuel) deadline s,
      poll_round (suc fuel + more) deadline s,
      poll_enough fuel more deadline (asleep (steady.after s)),
      steady.slept spec.poll_interval (steady.after s).world,
      steady.forward s,
    )

    -- The state at the start of the round with number `k`, if the rounds before it found nothing.
    abbrev pub rounds_on : ℕ → Sys h → Sys h
    rounds_on zero s = s
    rounds_on (suc k) s = rounds_on k (asleep (steady.after s))

    rounds_on-now :
        (k : ℕ) (s : Sys h) → h.now s.world + spec.poll_interval * k ≤ h.now (rounds_on k s).world
    rounds_on-now zero s = omega arith
    rounds_on-now (suc k) s = ground (
      arith,
      rounds_on-now k (asleep (steady.after s)),
      steady.slept spec.poll_interval (steady.after s).world,
      steady.forward s,
    )

    poll_finds :
        (fuel k deadline : ℕ) (s : Sys h)
        → k < fuel
        → h.now (rounds_on k s).world < deadline
        → steady.answer (rounds_on k s) ≡ true
        → (run (poll_ready fuel spec deadline) s).0 ≡ some true
    poll_finds zero k deadline s less early there = elim less [ ]
    poll_finds (suc fuel) zero deadline s less early there =
        ground (arith, poll_round fuel deadline s)
    poll_finds (suc fuel) (suc k) deadline s less early there = ground (
      arith,
      poll_round fuel deadline s,
      rounds_on-now (suc k) s,
      poll_finds fuel k deadline (asleep (steady.after s)),
    )

    -- The wait is long enough and its fuel too: where answers and sleeps do not turn the clock back
    -- and a sleep takes its time, any greater number of rounds gives the same answer and state.
    pub poll_ready_enough :
        (more : ℕ) (s : Sys h)
        → 0 < spec.poll_interval
        → let deadline = h.now s.world + spec.timeout in
          run (poll_ready (rounds spec) spec deadline) s
          ≡ run (poll_ready (suc (suc (spec.timeout / spec.poll_interval) + more)) spec deadline) s
    poll_ready_enough more s some_time =
        poll_enough (suc (spec.timeout / spec.poll_interval)) more _ s
          (omega (arith, covers spec.poll_interval spec.timeout some_time))

    -- A service that would answer in a round before the deadline is found.
    pub poll_ready_finds :
        (k : ℕ) (s : Sys h)
        → 0 < spec.poll_interval
        → h.now (rounds_on k s).world < h.now s.world + spec.timeout
        → steady.answer (rounds_on k s) ≡ true
        → (run (poll_ready (rounds spec) spec (h.now s.world + spec.timeout)) s).0 ≡ some true
    poll_ready_finds k s some_time early there =
        poll_finds (rounds spec) k _ s
          (within spec.poll_interval spec.timeout k some_time
            (omega (arith, early, rounds_on-now k s)))
          early there

go_on_inv :
    {h : Host} (next : Prog (Sys h) (Option String)) (o : Option String) (s : Sys h) {s' : Sys h}
    → run (go_on next o) s ≡ (some none, s')
    → run next s ≡ (some none, s')
unfolding run
go_on_inv next none s e = e
go_on_inv next (some err_text) s e = ground arith

module _ {h : Host} (spec : ContainerSpec h) where
  report_inv :
      (id : String) (up : Bool) (s : Sys h) {s' : Sys h}
      → run (report_ready id spec up) s ≡ (some none, s')
      → (up ≡ true) × (s'.world ≡ s.world)
  unfolding run ◌>>=◌
  report_inv id true s e = (refl, ap (λ r. r.1.world) (sym e))
  report_inv id false s e = ground arith

  poll_out-Answered :
      (id : String) (s : Sys h) {s' : Sys h}
      → run (poll_out id spec) s ≡ (some none, s')
      → (end : Sys h) × Answered spec end × (s'.world ≡ end.world)
  unfolding poll_out
  poll_out-Answered id s e =
      let a =
        run-bind_inv (look h.now)
          (λ now. poll_ready (rounds spec) spec (now + spec.timeout) >>= report_ready id spec) s
          e in
      let b =
        run-bind_inv (poll_ready (rounds spec) spec (a.value + spec.timeout)) (report_ready id spec)
          a.between a.went_on in
      let (up, same) = report_inv id b.value b.between b.went_on in
      (b.between, poll-Answered spec _ _ a.between (rw up at b.ran), same)

  await-Answered :
      (id : String) (s : Sys h) {s' : Sys h}
      → run (await_ready id spec) s ≡ (some none, s')
      → (end : Sys h) × Answered spec end × (s'.world ≡ end.world)
  unfolding await_ready
  await-Answered id s e =
      let a = run-bind_inv (run_after_start id spec spec.after_start) _ s e in
      let b = run-bind_inv (log id _) (λ _. poll_out id spec) a.between a.went_on in
      poll_out-Answered id b.between b.went_on

  -- `ensureDockerContainer` returns no error only after the service answered that it is ready, and
  -- the world that it leaves is the one after that answer.
  pub ensure_docker_container-Answered :
      (tools : Tools h) (id : String) (s : Sys h) {s' : Sys h}
      → run (ensure_docker_container tools id spec) s ≡ (some none, s')
      → (end : Sys h) × Answered spec end × (s'.world ≡ end.world)
  unfolding ensure_docker_container
  ensure_docker_container-Answered tools id s e =
      let a = run-bind_inv (check_docker tools) _ s e in
      let b =
        run-bind_inv (start_or_reuse tools id spec) _ a.between
          (go_on_inv _ a.value a.between a.went_on) in
      await-Answered id b.between (go_on_inv _ b.value b.between b.went_on)
