-- ===== src/Runner/Types.antt =====
-- The types of launcher/internal/runner/runner.go. A process is named by the handle that the
-- operating system gave for it, and a job's log is the buffer of the log component.
use egovframe_launcher.Base.{ℕ, String, Bool, false, Option, none, List, []}
use egovframe_launcher.Base.Int.{ℤ, pos}
use egovframe_launcher.Catalog.{Target}
use egovframe_launcher.LogBuf
use egovframe_launcher.LogBuf.{Buf}

-- `cloned` is not a status of a job: the server shows it in place of `idle`.
pub data Status : Type 0 where
  idle cloning building running done stopped error cloned : Status

-- `State`, what the dashboard sees of a job.
pub record JobView : Type 0 where
  pub id : String
  pub status : Status
  pub port : ℤ
  pub err : String
  pub open_path : String

pub record Job : Type 0 where
  pub target : Target
  pub logs : Buf
  pub status : Status
  pub err : String
  pub stopping : Bool
  pub cmd : Option ℕ
  pub dep_cmds : List ℕ
  pub port : ℤ
  pub open_path : String
  pub rsp_managed : Bool

-- The job that `jobFor` makes on first use.
unfoldable pub new_job : Target → Job
new_job t = record {
  target = t;
  logs = LogBuf.new (pos 2000);
  status = idle;
  err = "";
  stopping = false;
  cmd = none;
  dep_cmds = [];
  port = pos 0;
  open_path = "";
  rsp_managed = false;
}
