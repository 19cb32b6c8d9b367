-- ===== src/Runner/RspClient/Deploy.antt =====
-- The deployment by the RSP backend: rspDeployAndStart of
-- launcher/internal/runner/rsp_client.go, one function for each of its calls.
use egovframe_launcher.Base.{String, ◌<>◌, Option, none, some, if◌then◌else◌}
use egovframe_launcher.Base.Int.{ℤ, pos}
use egovframe_launcher.Base.Outcome.{Outcome, got, fault}
use egovframe_launcher.Base.Text.{itoa}
use egovframe_launcher.Prog.{Prog, ret, ◌>>=◌, ◌>>◌, skip}
use egovframe_launcher.Runner.Host.{Host}
use egovframe_launcher.Runner.Sys.{Sys, log}
use egovframe_launcher.Runner.RspClient.{
  Json, null, text, object, none_more, member, Wire, Client, call,
}
use egovframe_launcher.Runner.RspClient.Servers.{
  Handle, Decoders, bare_handle, find_handle, json_handle, publish_params, publish_timeout,
  call_timeout, is_bad, wait_state, with_client, warn_call,
}

abbrev pub create_params : String → String → String → Json
create_params server type_id home = object (
    member "id" (text server) (
      member "serverType" (text type_id)
        (member "attributes" (object (member "server.home.dir" (text home) none_more)) none_more)))

abbrev pub deployable_params : Handle → String → String → Json
deployable_params handle label path = object (
    member "server" (json_handle handle) (
      member "deployableReference"
        (object (member "label" (text label) (member "path" (text path) none_more))) none_more))

abbrev pub start_params : String → String → Json
start_params server type_id = object (
    member "mode" (text "run") (
      member "params"
        (object (
          member "id" (text server) (
            member "serverType" (text type_id) (member "attributes" (object none_more) none_more))))
        none_more))

abbrev pub severity_line : String → Option ℤ → String
severity_line what none = ""
severity_line what (some n) = "[warn] RSP " <> what <> " severity=" <> itoa n <> " (무시하고 계속)"

module _ {h : Host} (wire : Wire h) (d : Decoders) where
  -- The warnings of a call that may fail: its error, or a severity other than 0.
  abbrev pub warn_result :
      String → String → (String → Option ℤ) → Outcome String → Prog (Sys h) (Unit {0})
  warn_result id what severity (fault e) =
      log id ("[warn] RSP " <> what <> ": " <> e <> " (무시하고 계속)")
  warn_result id what severity (got res) =
      if is_bad (severity res) then log id (severity_line what (severity res)) else skip

  unfoldable pub create_server : String → String → String → String → Client → Prog (Sys h) Client
  unfolding ◌>>=◌
  create_server server type_id home id c = do
    log id ("[info] RSP createServer id=" <> server <> " typeID=" <> type_id)
    made ←
        call wire "server/createServer" (create_params server type_id (d.to_slash home))
          call_timeout c
    warn_result id "createServer" d.status_severity made.1
    ret made.0

  unfoldable pub add_deployable : Handle → String → String → String → Client → Prog (Sys h) Client
  unfolding ◌>>=◌
  add_deployable handle label path id c = do
    log id ("[info] RSP addDeployable label=" <> label <> " path=" <> path)
    added ←
        call wire "server/addDeployable" (deployable_params handle label (d.to_slash path))
          call_timeout c
    warn_result id "addDeployable" d.severity added.1
    ret added.0

  abbrev pub started_line : Option String → String
  started_line none = "[info] RSP 서버 STARTED 확인"
  started_line (some e) = "[info] RSP STARTED 알림 지연 (서버는 정상 기동 중일 수 있음, 계속 진행)"

  unfoldable pub start_server : String → String → String → Client → Prog (Sys h) Client
  unfolding ◌>>=◌
  start_server server type_id id c = do
    log id "[info] RSP startServerAsync"
    begun ← call wire "server/startServerAsync" (start_params server type_id) call_timeout c
    warn_call wire d id "startServerAsync" " (이미 기동 중일 수 있음, 계속)" begun.1
    log id "[info] RSP 서버 기동 대기 중 (최대 45초)..."
    late ← wait_state wire d server (pos 2) 45000 c.conn
    log id (started_line late)
    ret begun.0

  abbrev pub published : String → Outcome String → Prog (Sys h) (Option String)
  published id (fault e) = ret (some ("RSP publish 실패: " <> e))
  published id (got res) = log id "[success] RSP publish 완료" >> ret none

  unfoldable pub publish_full : Handle → String → Client → Prog (Sys h) (Option String)
  unfolding ◌>>=◌
  publish_full handle id c = do
    log id "[info] RSP publish kind=2"
    answer ← call wire "server/publish" (publish_params handle) publish_timeout c
    published id answer.1

  -- With the backend's list of handles: the other calls.
  unfoldable pub deploy_handle :
      String → Handle → String → String → String → Client → Prog (Sys h) (Option String)
  unfolding ◌>>=◌
  deploy_handle server handle label path id c = do
    c1 ← add_deployable handle label path id c
    c2 ← start_server server handle.type_id id c1
    publish_full handle id c2

  abbrev pub on_handles :
      String
      → String
      → String
      → String
      → String
      → Client × Outcome String
      → Prog (Sys h) (Option String)
  on_handles server type_id label path id (c, fault e) = ret (some ("getServerHandles 실패: " <> e))
  on_handles server type_id label path id (c, got res) =
      deploy_handle server (find_handle (bare_handle server type_id) (d.handles_of res)) label path
        id c

  abbrev pub deploy_calls :
      String → String → String → String → String → String → Client → Prog (Sys h) (Option String)
  deploy_calls server type_id home label path id c =
      create_server server type_id home id c >>= λ c1. log id "[info] RSP getServerHandles" >>= λ _.
      call wire "server/getServerHandles" null call_timeout c1 >>= λ listed.
      on_handles server type_id label path id listed

  -- `rspDeployAndStart`
  unfoldable pub rsp_deploy_and_start :
      ℤ → String → String → String → String → String → String → Prog (Sys h) (Option String)
  rsp_deploy_and_start port server type_id home label path id =
      with_client wire d port (deploy_calls server type_id home label path id)
