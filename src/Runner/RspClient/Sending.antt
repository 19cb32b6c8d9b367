-- ===== src/Runner/RspClient/Sending.antt =====
-- What rspClient.send in launcher/internal/runner/rsp_client.go has written where it reports no
-- error.
use egovframe_launcher.Base.{
  ◌<>◌, ℕ, suc, ◌≡◌, refl, sym, ap, ◌∙◌, String, Option, none, some, arith,
}
use egovframe_launcher.Base.Int.{pos}
use egovframe_launcher.Base.Text.{itoa}
use Prim.Native.String.{len}
use egovframe_launcher.Base.Outcome.{Outcome, got, fault}
use egovframe_launcher.Prog.{ret, ◌>>=◌, run}
use egovframe_launcher.Prog.Inversion.{run-bind_inv}
use egovframe_launcher.Runner.Host.{Host}
use egovframe_launcher.Runner.Sys.{Sys}
use egovframe_launcher.Runner.RspClient.{
  object, member, none_more, text, number, frame_of, write_body, numbered, send_body, write_frame,
  request, Json, Wire, Client, send,
}

abbrev second : Option (Client × Outcome ℕ) → Outcome ℕ
second none = fault ""
second (some (c, o)) = o

abbrev client_of : Client → Option (Client × Outcome ℕ) → Client
client_of other none = other
client_of other (some (c, o)) = c

module _ {h : Host} (wire : Wire h) where
  numbered_inv :
      (id i : ℕ) (failed : Option String) (v : Outcome ℕ) (s : Sys h) {s' : Sys h}
      → run (ret (numbered wire id failed)) s ≡ (some v, s')
      → v ≡ got i
      → i ≡ id
  unfolding run
  numbered_inv id i none v s went e = ground (arith, went, e)
  numbered_inv id i (some x) v s went e = ground (arith, went, e)

  send_body_inv :
      (conn id i : ℕ) (o : Outcome String) (v : Outcome ℕ) (s : Sys h) {s' : Sys h}
      → run (send_body wire conn id o) s ≡ (some v, s')
      → v ≡ got i
      → i ≡ id
  unfolding run
  send_body_inv conn id i (fault x) v s went e = ground (arith, went, e)
  send_body_inv conn id i (got body) v s went e =
      let parts =
        run-bind_inv (write_frame wire conn body) (λ failed. ret (numbered wire id failed)) s
          went in
      numbered_inv id i parts.value v parts.between parts.went_on e

  pub send_inv :
      (method : String) (params : Json) (c : Client) (i : ℕ) (v : Client × Outcome ℕ) (s : Sys h)
      {s' : Sys h}
      → run (send wire method params c) s ≡ (some v, s')
      → v.1 ≡ got i
      → i ≡ suc c.next_id
  unfolding send run
  send_inv method params c i v s went e =
      let id = suc c.next_id in
      let body = wire.marshal (request id method params) in
      let parts =
        run-bind_inv (send_body wire c.conn id body) (λ sent. ret (record c { next_id = id }, sent))
          s went in
      send_body_inv c.conn id i body parts.value s parts.ran
        (ap (λ r. second r.0) parts.went_on ∙ e)

  -- From the one state to the other, a request with the id was encoded, and written in a frame
  -- without an error: the header with the length of the body, and the body.
  pub record Sent (method : String) (params : Json) (id conn : ℕ) (s t : Sys h) : Type 0 where
    pub body : String
    pub encoded :
        wire.marshal (
          object (
            member "jsonrpc" (text "2.0") (
              member "id"
                (number (pos id))
                (member "method" (text method) (member "params" params none_more)))))
        ≡ got body
    pub middle : h.World
    pub header :
        wire.write conn ("Content-Length: " <> itoa (pos (len body)) <> "\r\n\r\n") s.world
        ≡ (none, middle)
    pub rest : wire.write conn body middle ≡ (none, t.world)

  body_inv :
      (conn id i : ℕ) (w : h.World) (s : Sys h) (o : Option String) {t : Sys h}
      → run (ret (numbered wire id o)) (record s { world = w }) ≡ (some (got i), t)
      → (o ≡ none) × (w ≡ t.world)
  unfolding run
  body_inv conn id i w s (some x) went = ground (arith, went)
  body_inv conn id i w s none went = (refl, ap (λ r. r.1.world) went)

  header_inv :
      (method : String) (params : Json) (conn id i : ℕ) (body : String) (s : Sys h) (w : h.World)
      (o : Option String) {t : Sys h}
      → wire.marshal (request id method params) ≡ got body
      → wire.write conn (frame_of body) s.world ≡ (o, w)
      → run
          (write_body wire conn body o >>= λ failed. ret (numbered wire id failed))
          (record s { world = w })
        ≡ (some (got i), t)
      → Sent method params id conn s t
  unfolding run ◌>>=◌
  header_inv method params conn id i body s w (some x) encoded wrote went = ground (arith, went)
  header_inv method params conn id i body s w none encoded wrote went =
      let (failed, after) = wire.write conn body w in
      let (fine, end) = body_inv conn id i after s failed went in
      record {
        body = body;
        encoded = encoded;
        middle = w;
        header = wrote;
        rest = ap (λ o. (o, after)) fine ∙ ap (λ v. (none, v)) end;
      }

  frame-Sent :
      (method : String) (params : Json) (conn id i : ℕ) (o : Outcome String) (s : Sys h) {t : Sys h}
      → wire.marshal (request id method params) ≡ o
      → run (send_body wire conn id o) s ≡ (some (got i), t)
      → Sent method params id conn s t
  unfolding run ◌>>=◌ write_frame
  frame-Sent method params conn id i (fault x) s encoded went = ground (arith, went)
  frame-Sent method params conn id i (got body) s encoded went =
      let wrote = wire.write conn (frame_of body) s.world in
      header_inv method params conn id i body s wrote.1 wrote.0 encoded refl went

  pub send-Sent :
      (method : String) (params : Json) (c c' : Client) (s : Sys h) {i : ℕ} {t : Sys h}
      → run (send wire method params c) s ≡ (some (c', got i), t)
      → Sent method params (suc c.next_id) c.conn s t
  unfolding send run
  send-Sent method params c c' s {i} went =
      let id = suc c.next_id in
      let body = wire.marshal (request id method params) in
      let parts =
        run-bind_inv (send_body wire c.conn id body) (λ sent. ret (record c { next_id = id }, sent))
          s went in
      let same : parts.value ≡ got i = ap (λ r. second r.0) parts.went_on in
      let end = ap (λ r. r.1) parts.went_on in
      rw end at (
        frame-Sent method params c.conn id i body s refl
          (parts.ran ∙ ap (λ o. (some o, parts.between)) same))

  pub send_client :
      (method : String) (params : Json) (c : Client) (v : Client × Outcome ℕ) (s : Sys h)
      {t : Sys h}
      → run (send wire method params c) s ≡ (some v, t)
      → v.0 ≡ record c { next_id = suc c.next_id }
  unfolding send run
  send_client method params c v s went =
      let id = suc c.next_id in
      let parts =
        run-bind_inv (send_body wire c.conn id (wire.marshal (request id method params)))
          (λ sent. ret (record c { next_id = id }, sent)) s went in
      sym (ap (λ r. client_of c r.0) parts.went_on)
