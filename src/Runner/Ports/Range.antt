-- ===== src/Runner/Ports/Range.antt =====
-- What findAvailablePort of launcher/internal/runner/runner.go returns.
use egovframe_launcher.Base.{
  ℕ, zero, suc, ltb, ap, ◌+◌, ◌≤◌, ◌<◌, ◌≡◌, refl, ◌∙◌, ◌⊎◌, inl, inr, Bool, true, false, some,
  arith, if◌then◌else◌,
}
use egovframe_launcher.Base.Int.{pos, add_ℕ}
use egovframe_launcher.Prog.{ret, run, run-bind_some, ◌>>=◌}
use egovframe_launcher.Runner.Host.{Host}
use egovframe_launcher.Runner.Sys.{Sys}
use egovframe_launcher.Runner.Ports.{
  is_port_available, scan_ports, find_available_port, scan_len, max_int,
}

module _ (h : Host) where
  -- The state after the host was asked for the port on the first address, and on both.
  abbrev after4 : ℕ → Sys h → Sys h
  after4 port s = record s { world = (h.listen4 (pos port) s.world).1 }

  abbrev after6 : ℕ → Sys h → Sys h
  after6 port s = record s { world = (h.listen6 (pos port) (after4 port s).world).1 }

  -- What the host says of one port: it is free if both addresses can be had, and the second one is
  -- asked for only after the first.
  pub data Asked (port : ℕ) (s : Sys h) : Bool → Sys h → Type 0 where
    taken4 : (h.listen4 (pos port) s.world).0 ≡ false → Asked port s false (after4 port s)
    taken6 :
        (h.listen4 (pos port) s.world).0 ≡ true
        → (h.listen6 (pos port) (after4 port s).world).0 ≡ false
        → Asked port s false (after6 port s)
    free :
        (h.listen4 (pos port) s.world).0 ≡ true
        → (h.listen6 (pos port) (after4 port s).world).0 ≡ true
        → Asked port s true (after6 port s)

  -- The ports from one up to another, the latter left out, were asked for in turn and are all taken.
  pub data Taken : ℕ → ℕ → Sys h → Sys h → Type 0 where
    no_more : {n : ℕ} {s : Sys h} → Taken n n s s
    and_next : {n m : ℕ} {s t u : Sys h} → Asked n s false t → Taken (suc n) m t u → Taken n m s u

  -- The first free port of the range, or the start where all of them are taken.
  abbrev pub Found : ℕ → ℕ → Sys h → Sys h → Type 0
  Found first k s end =
      ((first ≤ k)
        × (k < first + scan_len)
        × ((t : Sys h) × Taken first k s t × Asked k t true end))
      ⊎ ((k ≡ first) × Taken first (first + scan_len) s end)

  abbrev Told : ℕ → Sys h → Type 0
  Told port s =
      (b : Bool) × (t : Sys h) × (run (is_port_available h (pos port)) s ≡ (some b, t))
      × Asked port s b t

  answer_from :
      (port : ℕ) (s : Sys h) (v4 v6 : Bool)
      → (h.listen4 (pos port) s.world).0 ≡ v4
      → (h.listen6 (pos port) (after4 port s).world).0 ≡ v6
      → Told port s
  unfolding is_port_available run ◌>>=◌
  answer_from port s false v6 e4 e6 = (false, after4 port s, ground (arith, e4), taken4 e4)
  answer_from port s true false e4 e6 = (false, after6 port s, ground (arith, e4, e6), taken6 e4 e6)
  answer_from port s true true e4 e6 = (true, after6 port s, ground (arith, e4, e6), free e4 e6)

  available_answers : (port : ℕ) (s : Sys h) → Told port s
  available_answers port s = answer_from port s _ _ refl refl

  abbrev Scanned : ℕ → ℕ → ℕ → Sys h → Type 0
  Scanned left n first s =
      (k : ℕ) × (end : Sys h) × (run (scan_ports h left (pos n) (pos first)) s
        ≡ (some (pos k), end))
      × (((n ≤ k) × (k < n + left) × ((t : Sys h) × Taken n k s t × Asked k t true end))
          ⊎ ((k ≡ first) × Taken n (n + left) s end))

  passed :
      (left n first k : ℕ) (s t end : Sys h)
      → Asked n s false t
      → ((suc n ≤ k)
          × (k < suc n + left)
          × ((u : Sys h) × Taken (suc n) k t u × Asked k u true end))
        ⊎ ((k ≡ first) × Taken (suc n) (suc n + left) t end)
      → ((n ≤ k) × (k < n + suc left) × ((u : Sys h) × Taken n k s u × Asked k u true end))
        ⊎ ((k ≡ first) × Taken n (n + suc left) s end)
  passed left n first k s t end a (inl (le, lt, (u, taken, got))) =
      inl (omega arith, omega arith, (u, and_next a taken, got))
  passed left n first k s t end a (inr (e, taken)) =
      let sum : suc n + left ≡ n + suc left = omega arith in inr (e, and_next a (rw sum at taken))

  scan_step :
      (left n first : ℕ) (s : Sys h) (b : Bool) (s' : Sys h)
      → run (is_port_available h (pos n)) s ≡ (some b, s')
      → Asked n s b s'
      → Scanned left (n + 1) first s'
      → Scanned (suc left) n first s
  unfolding scan_ports run add_ℕ
  scan_step left n first s true s' ran asked rest = (
    n,
    s',
    run-bind_some (is_port_available h (pos n)) _ s ran,
    inl (omega arith, omega arith, (s, no_more, asked)),
  )
  scan_step left n first s false s' ran asked (k, end, scanned, ok) =
      let one_more : n + 1 ≡ suc n = omega arith in
      (
        k,
        end,
        run-bind_some (is_port_available h (pos n)) _ s ran ∙ scanned,
        passed left n first k s s' end asked (rw one_more at ok),
      )

  scan_lem : (left n first : ℕ) (s : Sys h) → Scanned left n first s
  unfolding scan_ports run
  scan_lem zero n first s =
      let sum : n + 0 ≡ n = omega arith in (first, s, refl, inr (refl, rw sum no_more))
  scan_lem (suc left) n first s =
      let (b, s', ran, asked) = available_answers n s in
      scan_step left n first s b s' ran asked (scan_lem left (n + 1) first s')

  roomy-scan :
      (first : ℕ)
      → first + scan_len ≤ max_int
      → find_available_port h (pos first) ≡ scan_ports h scan_len (pos first) (pos first)
  unfolding find_available_port
  roomy-scan first room =
      let roomy : ltb max_int (first + scan_len) ≡ false = ground arith in
      ap (λ b. if b then ret (pos first) else scan_ports h scan_len (pos first) (pos first)) roomy

  -- From a start that leaves room for a hundred ports below the largest int, the scan asks for the
  -- ports in turn, each on both addresses, and ends with the first one that is free; it ends with
  -- the start where all the hundred are taken.
  pub find_available_port_lem :
      (first : ℕ) (s : Sys h)
      → first + scan_len ≤ max_int
      → (k : ℕ) × (end : Sys h) × (run (find_available_port h (pos first)) s ≡ (some (pos k), end))
        × Found first k s end
  unfolding find_available_port
  find_available_port_lem first s room =
      let (k, end, scanned, ok) = scan_lem scan_len first first s in
      (k, end, ap (λ m. run m s) (roomy-scan first room) ∙ scanned, ok)
