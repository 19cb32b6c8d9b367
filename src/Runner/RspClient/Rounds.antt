-- ===== src/Runner/RspClient/Rounds.antt =====
-- The two loops of readMsg in launcher/internal/runner/rsp_client.go have rounds enough, on a
-- connection that gives finitely many bytes before a deadline.
use egovframe_launcher.Base.{
  ℕ, zero, suc, ◌+◌, ◌≤◌, ◌<◌, ◌≡◌, refl, sym, ap, ◌∙◌, String, str_eq, Option, none, some,
  Bool-cases, inl, inr, arith,
}
use egovframe_launcher.Base.Int.{ℤ, pos, is_pos}
use egovframe_launcher.Base.Outcome.{Outcome, got, fault}
use native.Mathlib.Nat.{suc-add}
use egovframe_launcher.Prog.{◌>>=◌, run, run-bind, continue}
use egovframe_launcher.Prog.Inversion.{run-bind_inv}
use egovframe_launcher.Runner.Host.{Host}
use egovframe_launcher.Runner.Sys.{Sys}
use egovframe_launcher.Runner.RspClient.{
  Msg, Wire, trim_eol, next_length, size_of, frame_of, null_reply, is_call, id_of, on_line,
  read_headers, read_body, reply_body, reply_null, read_frame, on_frame, read_frames, read_msg,
}

abbrev pub Less : {h : Host} → Wire h → ℕ → ℕ → h.World → Outcome String → h.World → Type 0
Less wire conn deadline w (fault e) after =
    wire.pending conn deadline after ≤ wire.pending conn deadline w
Less wire conn deadline w (got line) after =
    wire.pending conn deadline after < wire.pending conn deadline w

-- What is left to be read before a deadline: a line that was read is taken from it, and neither a
-- failed read nor a write adds to it.
pub record Finite (h : Host) (wire : Wire h) : Type 0 where
  pub line_less :
      (conn deadline : ℕ) (w : h.World)
      → let r = wire.read_line conn deadline w in Less wire conn deadline w r.0 r.1
  pub body_le :
      (conn deadline n : ℕ) (w : h.World)
      → wire.pending conn deadline (wire.read_full conn deadline n w).1
        ≤ wire.pending conn deadline w
  pub write_le :
      (conn deadline : ℕ) (s : String) (w : h.World)
      → wire.pending conn deadline (wire.write conn s w).1 ≤ wire.pending conn deadline w

module _ {h : Host} (wire : Wire h) (finite : Finite h wire) where
  abbrev left : ℕ → ℕ → Sys h → ℕ
  left conn deadline s = wire.pending conn deadline s.world

  on_line_enough :
      (fuel more conn deadline : ℕ) (length : ℤ) (o : Outcome String) (before s : Sys h)
      → ((l : ℤ) (r : Sys h)
          → left conn deadline r < fuel
          → run (read_headers wire fuel conn deadline l) r
            ≡ run (read_headers wire (fuel + more) conn deadline l) r)
      → Less wire conn deadline before.world o s.world
      → left conn deadline before < suc fuel
      → run (on_line wire (read_headers wire fuel conn deadline) length o) s
        ≡ run (on_line wire (read_headers wire (fuel + more) conn deadline) length o) s
  on_line_enough fuel more conn deadline length (fault e) before s ih less few = refl
  on_line_enough fuel more conn deadline length (got line) before s ih less few =
      elim (Bool-cases (str_eq (trim_eol line) "")) [
        | inl last ↦ rw last refl
        | inr other ↦
            rw other (ih (next_length (trim_eol line) length) s (omega (arith, less, few)))
      ]

  headers_enough :
      (fuel more conn deadline : ℕ) (length : ℤ) (s : Sys h)
      → left conn deadline s < fuel
      → run (read_headers wire fuel conn deadline length) s
        ≡ run (read_headers wire (fuel + more) conn deadline length) s
  unfolding read_headers run ◌>>=◌
  headers_enough zero more conn deadline length s few = elim few [ ]
  headers_enough (suc fuel) more conn deadline length s few = rw (suc-add fuel more) (
      on_line_enough fuel more conn deadline length _ s _
        (λ l r. headers_enough fuel more conn deadline l r) (finite.line_less conn deadline s.world)
        few)

  line_drop :
      (fuel conn deadline : ℕ) (length n : ℤ) (o : Outcome String) (before s : Sys h) {s' : Sys h}
      → ((l : ℤ) (r : Sys h)
          → run (read_headers wire fuel conn deadline l) r ≡ (some (got n), s')
          → left conn deadline s' ≤ left conn deadline r)
      → Less wire conn deadline before.world o s.world
      → run (on_line wire (read_headers wire fuel conn deadline) length o) s ≡ (some (got n), s')
      → left conn deadline s' < left conn deadline before
  unfolding run
  line_drop fuel conn deadline length n (fault e) before s ih less went = ground arith
  line_drop fuel conn deadline length n (got line) before s ih less went =
      elim (Bool-cases (str_eq (trim_eol line) "")) [
        | inl last ↦
            let same = ap (λ r. left conn deadline r.1) (rw last at went) in
            omega (arith, same, less)
        | inr other ↦
            let lower = ih (next_length (trim_eol line) length) s (rw other at went) in
            omega (arith, lower, less)
      ]

  headers_drop :
      (fuel conn deadline : ℕ) (length n : ℤ) (s : Sys h) {s' : Sys h}
      → run (read_headers wire fuel conn deadline length) s ≡ (some (got n), s')
      → left conn deadline s' < left conn deadline s
  unfolding read_headers run ◌>>=◌
  headers_drop zero conn deadline length n s went = ground arith
  headers_drop (suc fuel) conn deadline length n s went =
      line_drop fuel conn deadline length n _ s _
        (λ l r e. let lower = headers_drop fuel conn deadline l n r e in omega (arith, lower))
        (finite.line_less conn deadline s.world) went

  body_drop :
      (conn deadline : ℕ) (o : Outcome ℤ) (s : Sys h) {msg : Msg} {s' : Sys h}
      → run (read_body wire conn deadline o) s ≡ (some (got msg), s')
      → (n : ℤ) × (o ≡ got n) × (left conn deadline s' ≤ left conn deadline s)
  unfolding run ◌>>=◌
  body_drop conn deadline (fault e) s went = ground arith
  body_drop conn deadline (got n) s went = elim (Bool-cases (is_pos n)) [
    | inl more ↦
        let same = ap (λ r. left conn deadline r.1) (rw more at went) in
        let lower = finite.body_le conn deadline (size_of n) s.world in
        (n, refl, omega (arith, same, lower))
    | inr none_left ↦ absurd (ground (arith, rw none_left at went))
  ]

  frame_drop :
      (conn deadline : ℕ) (s : Sys h) {msg : Msg} {s' : Sys h}
      → run (read_frame wire conn deadline) s ≡ (some (got msg), s')
      → left conn deadline s' < left conn deadline s
  unfolding read_frame run ◌>>=◌
  frame_drop conn deadline s went =
      let fuel = suc (left conn deadline s) in
      let parts =
        run-bind_inv (read_headers wire fuel conn deadline (pos 0)) (read_body wire conn deadline) s
          went in
      let (n, same, lower) = body_drop conn deadline parts.value parts.between parts.went_on in
      let less =
        headers_drop fuel conn deadline (pos 0) n s
          (parts.ran ∙ ap (λ o. (some o, parts.between)) same) in
      omega (arith, lower, less)

  reply_body_le :
      (conn deadline : ℕ) (o : Outcome String) (s : Sys h)
      → left conn deadline (run (reply_body wire conn o) s).1 ≤ left conn deadline s
  unfolding run ◌>>=◌
  reply_body_le conn deadline (fault e) s = omega arith
  reply_body_le conn deadline (got body) s =
      let first = finite.write_le conn deadline (frame_of body) s.world in
      let second = finite.write_le conn deadline body (wire.write conn (frame_of body) s.world).1 in
      omega (arith, first, second)

  reply_le :
      (conn deadline : ℕ) (id : ℤ) (s : Sys h)
      → left conn deadline (run (reply_null wire conn id) s).1 ≤ left conn deadline s
  unfolding reply_null run ◌>>=◌
  reply_le conn deadline id s = reply_body_le conn deadline (wire.marshal (null_reply id)) s

  after_reply :
      (fuel more conn deadline : ℕ) (o : Option (Unit {0})) (s : Sys h)
      → ((r : Sys h)
          → left conn deadline r < fuel
          → run (read_frames wire fuel conn deadline) r
            ≡ run (read_frames wire (fuel + more) conn deadline) r)
      → left conn deadline s < fuel
      → continue o (λ _. read_frames wire fuel conn deadline) s
        ≡ continue o (λ _. read_frames wire (fuel + more) conn deadline) s
  unfolding continue
  after_reply fuel more conn deadline none s ih few = refl
  after_reply fuel more conn deadline (some u) s ih few = ih s few

  on_frame_enough :
      (fuel more conn deadline : ℕ) (o : Outcome Msg) (s : Sys h)
      → ((r : Sys h)
          → left conn deadline r < fuel
          → run (read_frames wire fuel conn deadline) r
            ≡ run (read_frames wire (fuel + more) conn deadline) r)
      → left conn deadline s < fuel
      → run (on_frame wire (read_frames wire fuel conn deadline) conn o) s
        ≡ run (on_frame wire (read_frames wire (fuel + more) conn deadline) conn o) s
  on_frame_enough fuel more conn deadline (fault e) s ih few = refl
  on_frame_enough fuel more conn deadline (got m) s ih few = elim (Bool-cases (is_call m)) [
    | inr plain ↦ rw plain refl
    | inl asks ↦ rw asks (
        run-bind (reply_null wire conn (id_of m.id)) (λ _. read_frames wire fuel conn deadline) s
        ∙ after_reply fuel more conn deadline (run (reply_null wire conn (id_of m.id)) s).0 _ ih
            (let lower = reply_le conn deadline (id_of m.id) s in omega (arith, lower, few))
        ∙ sym (
            run-bind (reply_null wire conn (id_of m.id))
              (λ _. read_frames wire (fuel + more) conn deadline) s))
  ]

  after_frame :
      (fuel more conn deadline : ℕ) (o : Option (Outcome Msg)) (before s : Sys h)
      → ((r : Sys h)
          → left conn deadline r < fuel
          → run (read_frames wire fuel conn deadline) r
            ≡ run (read_frames wire (fuel + more) conn deadline) r)
      → ((m : Msg) → o ≡ some (got m) → left conn deadline s < fuel)
      → continue o (on_frame wire (read_frames wire fuel conn deadline) conn) s
        ≡ continue o (on_frame wire (read_frames wire (fuel + more) conn deadline) conn) s
  unfolding continue
  after_frame fuel more conn deadline none before s ih few = refl
  after_frame fuel more conn deadline (some (fault e)) before s ih few = refl
  after_frame fuel more conn deadline (some (got m)) before s ih few =
      on_frame_enough fuel more conn deadline (got m) s ih (few m refl)

  frames_enough :
      (fuel more conn deadline : ℕ) (s : Sys h)
      → left conn deadline s < fuel
      → run (read_frames wire fuel conn deadline) s
        ≡ run (read_frames wire (fuel + more) conn deadline) s
  unfolding read_frames
  frames_enough zero more conn deadline s few = elim few [ ]
  frames_enough (suc fuel) more conn deadline s few =
      let m = read_frame wire conn deadline in
      rw (suc-add fuel more) (
        run-bind m (on_frame wire (read_frames wire fuel conn deadline) conn) s
        ∙ after_frame fuel more conn deadline (run m s).0 s (run m s).1
            (λ r. frames_enough fuel more conn deadline r)
            (λ msg e.
              let less =
                frame_drop conn deadline s {msg = msg} {s' = (run m s).1}
                  (ap (λ o. (o, (run m s).1)) e) in
              omega (arith, less, few))
        ∙ sym (run-bind m (on_frame wire (read_frames wire (fuel + more) conn deadline) conn) s))

  -- The rounds of `readMsg` are enough: on a connection that has only so many bytes to give before
  -- the deadline, where each line that is read is taken from them, more rounds give the same result
  -- and state.
  pub read_msg_enough :
      (more conn deadline : ℕ) (s : Sys h)
      → run (read_msg wire conn deadline) s
        ≡ run (read_frames wire (suc (left conn deadline s) + more) conn deadline) s
  unfolding read_msg run ◌>>=◌
  read_msg_enough more conn deadline s =
      frames_enough (suc (left conn deadline s)) more conn deadline s (omega arith)
