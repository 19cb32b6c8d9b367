-- ===== src/Runner/RspClient/Laws.antt =====
-- What a caller gets of the messages that the backend sends:
-- launcher/internal/runner/rsp_client.go.
use egovframe_launcher.Base.{
  str_eq, ◌≢◌, ◌⊎◌, ◌↔◌, eq_iff, ==_iff, ℕ, zero, suc, ◌+◌, ◌≡◌, refl, sym, ap, ◌∙◌, String, Bool,
  true, false, Option, none, some, Bool-cases, inl, inr, arith,
}
use egovframe_launcher.Base.Int.{ℤ, pos, negsuc}
use egovframe_launcher.Base.Outcome.{Outcome, got, fault}
use egovframe_launcher.Prog.{Prog, ret, ◌>>=◌, run}
use egovframe_launcher.Prog.Inversion.{run-bind_inv}
use egovframe_launcher.Runner.Host.{Host}
use egovframe_launcher.Runner.Sys.{Sys, look}
use egovframe_launcher.Runner.RspClient.{
  Json, Msg, Wire, Client, is_call, id_of, reply_null, read_frame, on_frame, read_frames, read_msg,
  answer_of, is_id, is_answer, on_msg, await_answer, await_id, send, call,
}
use egovframe_launcher.Runner.RspClient.Sending.{Sent, send_inv, send_client, send-Sent}

abbrev has_call : Option (Outcome Msg) → Bool
has_call none = false
has_call (some (fault e)) = false
has_call (some (got msg)) = is_call msg

abbrev outcome_or : Option (Outcome String) → Outcome String
outcome_or none = fault ""
outcome_or (some o) = o

abbrev client_in : Client → Option (Client × Outcome String) → Client
client_in other none = other
client_in other (some (c, o)) = c

abbrev answer_in : Option (Client × Outcome String) → Outcome String
answer_in none = fault ""
answer_in (some (c, o)) = o

module _ {h : Host} (wire : Wire h) where
  on_frame_inv :
      (rest : Prog (Sys h) (Outcome Msg)) (conn : ℕ) (o : Outcome Msg) (s : Sys h) {msg : Msg}
      {s' : Sys h}
      → ((r : Sys h) → run rest r ≡ (some (got msg), s') → is_call msg ≡ false)
      → run (on_frame wire rest conn o) s ≡ (some (got msg), s')
      → is_call msg ≡ false
  unfolding run
  on_frame_inv rest conn (fault e) s ih went = ground arith
  on_frame_inv rest conn (got m) s ih went = elim (Bool-cases (is_call m)) [
    | inl asks ↦
        let parts =
          run-bind_inv (reply_null wire conn (id_of m.id)) (λ _. rest) s (rw asks at went) in
        ih parts.between parts.went_on
    | inr plain ↦ sym (ap (λ r. has_call r.0) (rw plain at went)) ∙ plain
  ]

  frames_inv :
      (fuel conn deadline : ℕ) (s : Sys h) {msg : Msg} {s' : Sys h}
      → run (read_frames wire fuel conn deadline) s ≡ (some (got msg), s')
      → is_call msg ≡ false
  unfolding read_frames run
  frames_inv zero conn deadline s went = ground arith
  frames_inv (suc fuel) conn deadline s went =
      let parts =
        run-bind_inv (read_frame wire conn deadline)
          (on_frame wire (read_frames wire fuel conn deadline) conn) s went in
      on_frame_inv (read_frames wire fuel conn deadline) conn parts.value parts.between
        (λ r e. frames_inv fuel conn deadline r e) parts.went_on

  -- A caller of `readMsg` never sees a request of the backend: a message that it gets has no method
  -- or no id.
  pub read_msg_lem :
      (conn deadline : ℕ) (s : Sys h) {msg : Msg} {s' : Sys h}
      → run (read_msg wire conn deadline) s ≡ (some (got msg), s')
      → is_call msg ≡ false
  unfolding read_msg
  read_msg_lem conn deadline s went =
      let parts =
        run-bind_inv (look (wire.pending conn deadline))
          (λ left. read_frames wire (suc left) conn deadline) s went in
      frames_inv (suc parts.value) conn deadline parts.between parts.went_on

  -- The messages that are read one after the other from one state up to another, while none of them
  -- answers the id: each has a method, or another id, or none.
  pub data Skipped (id conn deadline : ℕ) : Sys h → Sys h → Type 0 where
    no_more : {s : Sys h} → Skipped id conn deadline s s
    and_next :
        {s t u : Sys h} (msg : Msg)
        → run (read_msg wire conn deadline) s ≡ (some (got msg), t)
        → (msg.method ≢ "") ⊎ (msg.id ≢ some (pos id))
        → Skipped id conn deadline t u
        → Skipped id conn deadline s u

  -- From the one state to the other, the first message that answers the id was read last; it reports
  -- no error, and its result is the one.
  pub record Answered (id conn deadline : ℕ) (s end : Sys h) (res : String) : Type 0 where
    pub msg : Msg
    pub asked : Sys h
    pub skipped : Skipped id conn deadline s asked
    pub read : run (read_msg wire conn deadline) asked ≡ (some (got msg), end)
    pub no_method : msg.method ≡ ""
    pub own_id : msg.id ≡ some (pos id)
    pub no_error : (msg.err_text ≡ "") ⊎ (msg.err_text ≡ "null")
    pub result : msg.result ≡ res

  is_id_iff : (o : Option ℤ) (id : ℕ) → (is_id wire o id ≡ true) ↔ (o ≡ some (pos id))
  is_id_iff none id = ground arith
  is_id_iff (some (pos i)) id = ground (arith, ==_iff i id)
  is_id_iff (some (negsuc i)) id = ground arith

  is_answer_inv :
      (id : ℕ) (m : Msg) → is_answer wire id m ≡ true → (m.method ≡ "") × (m.id ≡ some (pos id))
  is_answer_inv id m e = ground (arith, eq_iff m.method "", is_id_iff m.id id)

  other_inv :
      (id : ℕ) (m : Msg) → is_answer wire id m ≡ false → (m.method ≢ "") ⊎ (m.id ≢ some (pos id))
  other_inv id m e = elim (Bool-cases (str_eq m.method "")) [
    | inl plain ↦ inr (λ own. ground (arith, e, plain, (is_id_iff m.id id).1 own))
    | inr named ↦ inl (λ plain. ground (arith, named, (eq_iff m.method "").1 plain))
  ]

  answer_inv :
      (method : String) (m : Msg) (res : String)
      → answer_of wire method m ≡ got res
      → ((m.err_text ≡ "") ⊎ (m.err_text ≡ "null")) × (m.result ≡ res)
  answer_inv method m res e = ground (arith, e, eq_iff m.err_text "", eq_iff m.err_text "null")

  on_msg_inv :
      (rest : Prog (Sys h) (Outcome String)) (method : String) (id conn deadline : ℕ)
      (o : Outcome Msg) (asked s : Sys h) {res : String} {s' : Sys h}
      → run (read_msg wire conn deadline) asked ≡ (some o, s)
      → ((r : Sys h) → run rest r ≡ (some (got res), s') → Answered id conn deadline r s' res)
      → run (on_msg wire rest method id o) s ≡ (some (got res), s')
      → Answered id conn deadline asked s' res
  unfolding run
  on_msg_inv rest method id conn deadline (fault e) asked s read ih went = ground arith
  on_msg_inv rest method id conn deadline (got m) asked s {res} {s'} read ih went =
      elim (Bool-cases (is_answer wire id m)) [
        | inl mine ↦
            let done = rw mine at went in
            let (no_method, own_id) = is_answer_inv id m mine in
            let (no_error, result) = answer_inv method m res (ap (λ r. outcome_or r.0) done) in
            let same : s ≡ s' = ap (λ r. r.1) done in
            record {
              msg = m;
              asked = asked;
              skipped = no_more;
              read = read ∙ ap (λ t. (some (got m), t)) same;
              no_method = no_method;
              own_id = own_id;
              no_error = no_error;
              result = result;
            }
        | inr other ↦
            let later = ih s (rw other at went) in
            record {
              msg = later.msg;
              asked = later.asked;
              skipped = and_next m read (other_inv id m other) later.skipped;
              read = later.read;
              no_method = later.no_method;
              own_id = later.own_id;
              no_error = later.no_error;
              result = later.result;
            }
      ]

  await_inv :
      (fuel : ℕ) (method : String) (id conn deadline : ℕ) (s : Sys h) {res : String} {s' : Sys h}
      → run (await_answer wire fuel method id conn deadline) s ≡ (some (got res), s')
      → Answered id conn deadline s s' res
  unfolding await_answer run
  await_inv zero method id conn deadline s went = ground arith
  await_inv (suc fuel) method id conn deadline s went =
      let parts =
        run-bind_inv (read_msg wire conn deadline)
          (on_msg wire (await_answer wire fuel method id conn deadline) method id) s went in
      on_msg_inv (await_answer wire fuel method id conn deadline) method id conn deadline
        parts.value s parts.between parts.ran (λ r e. await_inv fuel method id conn deadline r e)
        parts.went_on

  -- What a call that was sent goes on with: the deadline is the timeout from now, and the answer is
  -- the first one that is read.
  await_id_inv :
      (method : String) (timeout conn id : ℕ) (o : Outcome ℕ) (s : Sys h) {res : String}
      {s' : Sys h}
      → ((i : ℕ) → o ≡ got i → i ≡ id)
      → run (await_id wire method timeout conn o) s ≡ (some (got res), s')
      → (o ≡ got id) × Answered id conn (h.now s.world + timeout) s s' res
  unfolding await_id run
  await_id_inv method timeout conn id (fault x) s same went = ground arith
  await_id_inv method timeout conn id (got i) s same went =
      let deadline = h.now s.world + timeout in
      (
        ap got (same i refl),
        rw (same i refl) at
            (await_inv (suc (wire.pending conn deadline s.world)) method i conn deadline s went),
      )

  -- Whenever a call returns a result without an error: it wrote a request with the method, the
  -- parameters and the next id of the client, without an error; from then on it read messages, with
  -- the deadline of the timeout, and passed over those with a method or without that id; and the
  -- last message that it read has no method and that id, reports no error, and has the result.
  pub call_lem :
      (method : String) (params : Json) (timeout : ℕ) (c c' : Client) (s : Sys h) {res : String}
      {s' : Sys h}
      → run (call wire method params timeout c) s ≡ (some (c', got res), s')
      → let id = suc c.next_id in
        (c' ≡ record c { next_id = id })
        × (t : Sys h) × Sent wire method params id c.conn s t
        × Answered id c.conn (h.now t.world + timeout) t s' res
  unfolding call run
  call_lem method params timeout c c' s {res} {s'} went =
      let a =
        run-bind_inv (send wire method params c)
          (λ sent. await_id wire method timeout c.conn sent.1 >>= λ answer. ret (sent.0, answer)) s
          went in
      let b =
        run-bind_inv (await_id wire method timeout c.conn a.value.1)
          (λ answer. ret (a.value.0, answer)) a.between a.went_on in
      let same : b.value ≡ got res = ap (λ r. answer_in r.0) b.went_on in
      let id = suc c.next_id in
      let client : a.value.0 ≡ c' = ap (λ r. client_in c r.0) b.went_on in
      let end : b.between ≡ s' = ap (λ r. r.1) b.went_on in
      let (own, answered) =
        await_id_inv method timeout c.conn id a.value.1 a.between
          (λ i e. send_inv wire method params c i a.value s a.ran e)
          (b.ran ∙ ap (λ o. (some o, b.between)) same) in
      let whole : a.value ≡ (c', got id) =
        ap (λ x. (x, a.value.1)) client ∙ ap (λ y. (c', y)) own in
      (
        sym client ∙ send_client wire method params c a.value s a.ran,
        a.between,
        send-Sent wire method params c c' s (a.ran ∙ ap (λ v. (some v, a.between)) whole),
        rw end at answered,
      )
