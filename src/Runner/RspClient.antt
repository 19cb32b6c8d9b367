-- ===== src/Runner/RspClient.antt =====
-- The JSON-RPC client of launcher/internal/runner/rsp_client.go: frames, calls and notifications.
-- A loop over what the peer sends has one round for each byte that can still be read before its
-- deadline, and one more.
pub mod Servers
pub mod Deploy
pub mod Sending
pub mod Laws
pub mod Rounds
pub mod Tests
use egovframe_launcher.Base.{
  ℕ, zero, suc, ◌+◌, ◌-◌, String, ◌<>◌, str_eq, starts_with, Bool, true, false, not, ◌&&◌, ◌||◌,
  ◌==◌, Option, none, some, List, [], ◌∷◌, if◌then◌else◌,
}
use egovframe_launcher.Base.Atoi.{atoi}
use egovframe_launcher.Base.Int.{ℤ, pos, negsuc, is_pos, eq_ℤ}
use egovframe_launcher.Base.Outcome.{Outcome, got, fault}
use egovframe_launcher.Base.Text.{itoa}
use Prim.Native.String.{len, slice}
use Prim.Native.Char.{code}
use egovframe_launcher.Prog.{Prog, ret, step, ◌>>=◌, ◌>>◌, skip}
use egovframe_launcher.Runner.Host.{Host}
use egovframe_launcher.Runner.Sys.{Sys, ask, look}

-- The values that the client encodes.
mutual
  pub data Json : Type 0 where
    null : Json
    truth : Bool → Json
    number : ℤ → Json
    text : String → Json
    object : Members → Json

  pub data Members : Type 0 where
    none_more : Members
    member : String → Json → Members → Members

-- `rspMsg`; the fields that are decoded later are texts, and an absent one is empty.
pub record Msg : Type 0 where
  pub id : Option ℤ
  pub method : String
  pub result : String
  pub params : String
  pub err_text : String

-- The connection and encoding/json. A text is a sequence of bytes, and a connection a handle.
pub record Wire (h : Host) : Type 0 where
  -- `net.DialTimeout` to 127.0.0.1, with the timeout in milliseconds.
  pub connect : ℤ → ℕ → h.World → Outcome ℕ × h.World
  pub write : ℕ → String → h.World → Option String × h.World
  -- `ReadString('\n')` and `io.ReadFull`, each with the deadline that was set before.
  pub read_line : ℕ → ℕ → h.World → Outcome String × h.World
  pub read_full : ℕ → ℕ → ℕ → h.World → Outcome String × h.World
  pub close : ℕ → h.World → h.World
  -- How many bytes the connection can still give before the deadline.
  pub pending : ℕ → ℕ → h.World → ℕ
  pub marshal : Json → Outcome String
  pub decode_msg : String → Outcome Msg

-- `rspClient`
pub record Client : Type 0 where
  pub conn : ℕ
  pub next_id : ℕ

abbrev pub request : ℕ → String → Json → Json
request id method params = object (
    member "jsonrpc" (text "2.0") (
      member "id" (number (pos id))
        (member "method" (text method) (member "params" params none_more))))

abbrev pub null_reply : ℤ → Json
null_reply id =
    object
      (member "jsonrpc" (text "2.0") (member "id" (number id) (member "result" null none_more)))

abbrev pub frame_of : String → String
frame_of body = "Content-Length: " <> itoa (pos (len body)) <> "\r\n\r\n"

abbrev pub is_eol : ℕ → Bool
is_eol c = c == 13 || c == 10

abbrev pub put_unless_eol : String → String → Bool → String
put_unless_eol c rest eol = if eol && str_eq rest "" then "" else c <> rest

-- `strings.TrimRight(line, "\r\n")`
unfoldable pub trim_eol : String → String
trim_eol String.[] = ""
trim_eol (String.◌∷◌ c s) = put_unless_eol (String.◌∷◌ c "") (trim_eol s) (is_eol (code c))

abbrev pub length_header : String
length_header = "Content-Length: "

abbrev pub next_length : String → ℤ → ℤ
next_length line length =
    if starts_with line length_header
    then (atoi (slice line (len length_header) (len line))).0
    else length

abbrev pub size_of : ℤ → ℕ
size_of (pos n) = n
size_of (negsuc n) = 0

abbrev pub has_id : Option ℤ → Bool
has_id none = false
has_id (some i) = true

abbrev pub is_call : Msg → Bool
is_call msg = not (str_eq msg.method "") && has_id msg.id

abbrev pub id_of : Option ℤ → ℤ
id_of none = pos 0
id_of (some i) = i

module _ {h : Host} (wire : Wire h) where
  abbrev pub write_body : ℕ → String → Option String → Prog (Sys h) (Option String)
  write_body conn body none = ask (wire.write conn body)
  write_body conn body (some e) = ret (some e)

  -- The header, and the body unless the header failed.
  unfoldable pub write_frame : ℕ → String → Prog (Sys h) (Option String)
  unfolding ◌>>=◌
  write_frame conn body = do
    failed ← ask (wire.write conn (frame_of body))
    write_body conn body failed

  abbrev pub numbered : ℕ → Option String → Outcome ℕ
  numbered id none = got id
  numbered id (some e) = fault e

  abbrev pub send_body : ℕ → ℕ → Outcome String → Prog (Sys h) (Outcome ℕ)
  send_body conn id (fault e) = ret (fault e)
  send_body conn id (got body) = write_frame conn body >>= λ failed. ret (numbered id failed)

  -- `rspClient.send`, with the client after it.
  unfoldable pub send : String → Json → Client → Prog (Sys h) (Client × Outcome ℕ)
  unfolding ◌>>=◌
  send method params c = do
    let id = suc c.next_id
    sent ← send_body c.conn id (wire.marshal (request id method params))
    ret (record c { next_id = id }, sent)

  abbrev pub reply_body : ℕ → Outcome String → Prog (Sys h) (Unit {0})
  reply_body conn (fault e) = skip
  reply_body conn (got body) =
      ask (wire.write conn (frame_of body)) >>= λ _. ask (wire.write conn body) >>= λ _. skip

  -- `rspClient.replyNull`, which drops its errors.
  unfoldable pub reply_null : ℕ → ℤ → Prog (Sys h) (Unit {0})
  reply_null conn id = reply_body conn (wire.marshal (null_reply id))

  abbrev pub on_line :
      (ℤ → Prog (Sys h) (Outcome ℤ)) → ℤ → Outcome String → Prog (Sys h) (Outcome ℤ)
  on_line rest length (fault e) = ret (fault e)
  on_line rest length (got line) =
      if str_eq (trim_eol line) ""
      then ret (got length)
      else rest (next_length (trim_eol line) length)

  -- The lines up to the empty one, and the length that they name.
  unfoldable pub read_headers : ℕ → ℕ → ℕ → ℤ → Prog (Sys h) (Outcome ℤ)
  unfolding ◌>>=◌
  read_headers zero conn deadline length = ret (fault "")
  read_headers (suc fuel) conn deadline length = do
    line ← ask (wire.read_line conn deadline)
    on_line (read_headers fuel conn deadline) length line

  abbrev pub decoded : Outcome String → Outcome Msg
  decoded (fault e) = fault e
  decoded (got body) = wire.decode_msg body

  abbrev pub read_body : ℕ → ℕ → Outcome ℤ → Prog (Sys h) (Outcome Msg)
  read_body conn deadline (fault e) = ret (fault e)
  read_body conn deadline (got length) =
      if is_pos length
      then (ask (wire.read_full conn deadline (size_of length)) >>= λ body. ret (decoded body))
      else ret (fault "rsp: missing or zero Content-Length")

  -- One frame.
  unfoldable pub read_frame : ℕ → ℕ → Prog (Sys h) (Outcome Msg)
  unfolding ◌>>=◌
  read_frame conn deadline = do
    left ← look (wire.pending conn deadline)
    length ← read_headers (suc left) conn deadline (pos 0)
    read_body conn deadline length

  abbrev pub on_frame : Prog (Sys h) (Outcome Msg) → ℕ → Outcome Msg → Prog (Sys h) (Outcome Msg)
  on_frame rest conn (fault e) = ret (fault e)
  on_frame rest conn (got msg) =
      if is_call msg then (reply_null conn (id_of msg.id) >> rest) else ret (got msg)

  unfoldable pub read_frames : ℕ → ℕ → ℕ → Prog (Sys h) (Outcome Msg)
  unfolding ◌>>=◌
  read_frames zero conn deadline = ret (fault "")
  read_frames (suc fuel) conn deadline = do
    msg ← read_frame conn deadline
    on_frame (read_frames fuel conn deadline) conn msg

  -- `rspClient.readMsg`
  unfoldable pub read_msg : ℕ → ℕ → Prog (Sys h) (Outcome Msg)
  unfolding ◌>>=◌
  read_msg conn deadline = do
    left ← look (wire.pending conn deadline)
    read_frames (suc left) conn deadline

  abbrev pub is_error_text : String → Bool
  is_error_text e = not (str_eq e "") && not (str_eq e "null")

  abbrev pub answer_of : String → Msg → Outcome String
  answer_of method msg =
      if is_error_text msg.err_text
      then fault ("rsp " <> method <> " error: " <> msg.err_text)
      else got msg.result

  abbrev pub is_id : Option ℤ → ℕ → Bool
  is_id none id = false
  is_id (some i) id = eq_ℤ i (pos id)

  abbrev pub is_answer : ℕ → Msg → Bool
  is_answer id msg = str_eq msg.method "" && is_id msg.id id

  abbrev pub on_msg :
      Prog (Sys h) (Outcome String) → String → ℕ → Outcome Msg → Prog (Sys h) (Outcome String)
  on_msg rest method id (fault e) = ret (fault ("rsp call " <> method <> ": " <> e))
  on_msg rest method id (got msg) = if is_answer id msg then ret (answer_of method msg) else rest

  -- The loop of `call`, which passes over notifications and other answers.
  unfoldable pub await_answer : ℕ → String → ℕ → ℕ → ℕ → Prog (Sys h) (Outcome String)
  unfolding ◌>>=◌
  await_answer zero method id conn deadline = ret (fault "")
  await_answer (suc fuel) method id conn deadline = do
    msg ← read_msg conn deadline
    on_msg (await_answer fuel method id conn deadline) method id msg

  unfoldable pub await_id : String → ℕ → ℕ → Outcome ℕ → Prog (Sys h) (Outcome String)
  unfolding ◌>>=◌
  await_id method timeout conn (fault e) = ret (fault e)
  await_id method timeout conn (got id) = do
    now ← look h.now
    let deadline = now + timeout
    left ← look (wire.pending conn deadline)
    await_answer (suc left) method id conn deadline

  -- `rspClient.call`, with the client after it.
  unfoldable pub call : String → Json → ℕ → Client → Prog (Sys h) (Client × Outcome String)
  unfolding ◌>>=◌
  call method params timeout c = do
    sent ← send method params c
    answer ← await_id method timeout c.conn sent.1
    ret (sent.0, answer)
