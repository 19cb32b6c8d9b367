-- ===== src/Runner/RspClient/Servers.antt =====
-- What is asked of the RSP backend: waitState, rspStopServer and rspPublish of
-- launcher/internal/runner/rsp_client.go, and findRSPPort of rsp_unix.go.
use egovframe_launcher.Base.{
  ℕ, zero, suc, ◌+◌, String, ◌<>◌, str_eq, Bool, false, not, ◌||◌, Option, none, some, List, [],
  ◌∷◌, if◌then◌else◌,
}
use egovframe_launcher.Base.Atoi.{atoi}
use egovframe_launcher.Base.Int.{ℤ, pos, is_pos, is_zero, eq_ℤ}
use egovframe_launcher.Base.Outcome.{Outcome, got, fault}
use egovframe_launcher.Base.Text.{itoa, contains}
use egovframe_launcher.Prog.{Prog, ret, ◌>>=◌, ◌>>◌, skip}
use egovframe_launcher.Runner.Host.{Host}
use egovframe_launcher.Runner.Sys.{Sys, ask, look, tell, log}
use egovframe_launcher.Runner.Tools.{Tools, cmd_of}
use egovframe_launcher.Runner.Database.{group}
use egovframe_launcher.Runner.Database.Parse.{split_lines}
use egovframe_launcher.Runner.RspClient.{
  Json, null, truth, number, text, object, Members, none_more, member, Msg, Wire, Client, read_msg,
  call,
}

-- `rspHandle`, with its type reference.
pub record Handle : Type 0 where
  pub id : String
  pub type_id : String
  pub visible_name : String
  pub description : String

-- What the client decodes from the fields of a message.
pub record Decoders : Type 0 where
  -- The server of a state notification, and the state.
  pub state_of : String → String × ℤ
  pub handles_of : String → List Handle
  -- The severity in `status`, and the severity; `none` where the text cannot be decoded.
  pub status_severity : String → Option ℤ
  pub severity : String → Option ℤ
  -- `rspPortRe.FindStringSubmatch`
  pub port_of : String → Option (List String)
  -- `filepath.ToSlash`
  pub to_slash : String → String

abbrev pub bare_handle : String → String → Handle
bare_handle id type_id = record { id = id; type_id = type_id; visible_name = ""; description = "" }

-- The handle of the server, if the backend lists it.
unfoldable pub find_handle : Handle → List Handle → Handle
find_handle other [] = other
find_handle other (h ∷ hs) =
    let rest = find_handle other hs in if str_eq h.id other.id then h else rest

-- A member that is left out where it is empty.
abbrev pub unless_empty : String → String → Members → Members
unless_empty key value rest = if str_eq value "" then rest else member key (text value) rest

abbrev pub json_handle : Handle → Json
json_handle s = object (
    member "id" (text s.id) (
      member "type"
        (object (
          member "id" (text s.type_id) (
            unless_empty "visibleName" s.visible_name
              (unless_empty "description" s.description none_more))))
        none_more))

abbrev pub publish_params : Handle → Json
publish_params s =
    object (member "server" (json_handle s) (member "kind" (number (pos 2)) none_more))

abbrev pub publish_timeout : ℕ
publish_timeout = 120000

abbrev pub call_timeout : ℕ
call_timeout = 15000

abbrev pub stopped_err : String → String
stopped_err id = "server " <> id <> " stopped unexpectedly"

abbrev pub wait_err : ℤ → String → String
wait_err want e = "waitState timeout waiting for state " <> itoa want <> ": " <> e

abbrev pub is_bad : Option ℤ → Bool
is_bad none = false
is_bad (some n) = not (is_zero n)

abbrev pub no_handles : Decoders → Outcome String → List Handle
no_handles d (fault e) = []
no_handles d (got res) = d.handles_of res

abbrev pub error_of : Outcome String → Option String
error_of (fault e) = some e
error_of (got res) = none

abbrev pub prefixed : String → Option String → Option String
prefixed what none = none
prefixed what (some e) = some (what <> e)

-- The line of a process list, and the port of another process that was seen before.
unfoldable pub port_in : Decoders → List String → ℤ → Outcome ℤ
port_in d [] fallback = if is_pos fallback then got fallback else fault "RSP 백엔드 프로세스를 찾을 수 없습니다"
port_in d (line ∷ lines) fallback = elim (d.port_of line) [
  | none ↦ port_in d lines fallback
  | some m ↦
      let port = (atoi (group 1 m)).0 in
      let skipped = port_in d lines fallback in
      let kept = port_in d lines (if is_zero fallback then port else fallback) in
      if not (is_pos port)
      then skipped
      else if contains line "redhat-community-server-connector"
      then got port
      else kept
]

abbrev pub port_from : Decoders → String × Option String → Outcome ℤ
port_from d (out, some e) = fault ("ps failed: " <> e)
port_from d (out, none) = port_in d (split_lines out) (pos 0)

module _ {h : Host} (wire : Wire h) (d : Decoders) where
  abbrev pub on_state :
      Prog (Sys h) (Option String) → String → ℤ → Outcome Msg → Prog (Sys h) (Option String)
  on_state rest id want (fault e) = ret (some (wait_err want e))
  on_state rest id want (got msg) =
      let (server, state) = d.state_of msg.params in
      if not (str_eq msg.method "client/serverStateChanged") || not (str_eq server id)
      then rest
      else if eq_ℤ state want
      then ret none
      else if eq_ℤ state (pos 4)
      then ret (some (stopped_err id))
      else rest

  unfoldable pub await_state : ℕ → String → ℤ → ℕ → ℕ → Prog (Sys h) (Option String)
  unfolding ◌>>=◌
  await_state zero id want conn deadline = ret (some "")
  await_state (suc fuel) id want conn deadline = do
    msg ← read_msg wire conn deadline
    on_state (await_state fuel id want conn deadline) id want msg

  -- `rspClient.waitState`
  unfoldable pub wait_state : String → ℤ → ℕ → ℕ → Prog (Sys h) (Option String)
  unfolding ◌>>=◌
  wait_state id want timeout conn = do
    now ← look h.now
    let deadline = now + timeout
    left ← look (wire.pending conn deadline)
    await_state (suc left) id want conn deadline

  -- `dialRSP`, the body with the client, and the deferred close.
  abbrev pub on_client :
      (Client → Prog (Sys h) (Option String)) → Outcome ℕ → Prog (Sys h) (Option String)
  on_client body (fault e) = ret (some ("RSP 연결 실패: " <> e))
  on_client body (got conn) = body (record { conn = conn; next_id = 0 }) >>= λ result.
      tell (wire.close conn) >>= λ _. ret result

  unfoldable pub with_client :
      ℤ → (Client → Prog (Sys h) (Option String)) → Prog (Sys h) (Option String)
  unfolding ◌>>=◌
  with_client port body = do conn ← ask (wire.connect port 5000); on_client body conn

  abbrev pub warn_call : String → String → String → Outcome String → Prog (Sys h) (Unit {0})
  warn_call id what after (fault e) = log id ("[warn] RSP " <> what <> ": " <> e <> after)
  warn_call id what after (got res) = skip

  abbrev pub stop_params : String → Json
  stop_params server = object (member "id" (text server) (member "force" (truth false) none_more))

  abbrev pub confirm_stop : String → Option String → Prog (Sys h) (Option String)
  confirm_stop id (some e) = ret (some ("RSP 서버 정지 확인 실패: " <> e))
  confirm_stop id none = log id "[success] RSP 서버 STOPPED 확인" >> ret none

  -- `rspStopServer`
  unfoldable pub rsp_stop_server : ℤ → String → String → Prog (Sys h) (Option String)
  unfolding ◌>>=◌
  rsp_stop_server port server id = with_client port (λ c. do
    log id ("[info] RSP stopServerAsync id=" <> server)
    asked ← call wire "server/stopServerAsync" (stop_params server) call_timeout c
    warn_call id "stopServerAsync" " (계속)" asked.1
    failed ← wait_state server (pos 4) 30000 c.conn
    confirm_stop id failed)

  -- `rspPublish`
  unfoldable pub rsp_publish : ℤ → String → String → Prog (Sys h) (Option String)
  unfolding ◌>>=◌
  rsp_publish port server id = with_client port (λ c. do
    listed ← call wire "server/getServerHandles" null call_timeout c
    let handle = find_handle (bare_handle server "") (no_handles d listed.1)
    log id "[info] RSP publish kind=2 (재시도)"
    published ← call wire "server/publish" (publish_params handle) publish_timeout listed.0
    ret (error_of published.1))

module _ {h : Host} (tools : Tools h) (d : Decoders) where
  -- `findRSPPort` on macOS and Linux.
  unfoldable pub find_rsp_port : Prog (Sys h) (Outcome ℤ)
  unfolding ◌>>=◌
  find_rsp_port = do
    listed ← ask (tools.stdout (cmd_of "ps" ("-ax" ∷ "-o" ∷ "command=" ∷ [])))
    ret (port_from d listed)
