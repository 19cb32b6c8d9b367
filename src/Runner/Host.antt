-- ===== src/Runner/Host.antt =====
-- What the runner asks of the operating system and of packages outside the repository: files,
-- environment, processes, sockets, time. A call that may change the world returns the world after
-- it; an error is the text of its `Error()`.
use egovframe_launcher.Base.{ℕ, String, Bool, Option, List}
use egovframe_launcher.Base.Int.{ℤ}
use egovframe_launcher.Persist.{Disk}

-- `exec.Cmd` before it is started; an `env` of `none` is Go's nil and inherits the environment.
pub record Cmd : Type 0 where
  pub name : String
  pub args : List String
  pub dir : String
  pub env : Option (List String)

-- The result of `os.Stat`.
pub data Stat : Type 0 where
  folder regular : Stat
  missing : Stat  -- `os.IsNotExist`
  failed : Stat

-- `cmd.Start`: the handle of the process, or the error.
pub data Started : Type 0 where
  proc : ℕ → Started
  refused : String → Started

-- What a process wrote, line by line, and the error of its end.
pub record Ended : Type 0 where
  pub output : List String
  pub err : Option String

pub record Entry : Type 0 where
  pub name : String
  pub is_dir : Bool

pub record Host : Type 1 where
  pub World : Type 0
  pub disk : Disk
  pub files : World → disk.Files
  pub set_files : disk.Files → World → World
  pub windows : Bool
  pub join : List String → String
  pub is_abs : String → Bool
  pub from_slash : String → String
  pub list_separator : String
  pub environ : World → List String
  pub getenv : String → World → String
  pub stat : String → World → Stat
  pub read_dir : String → World → Option (List Entry)
  -- `filepath.Glob`, `none` on an error, and `filepath.Rel`.
  pub glob : String → World → Option (List String)
  pub rel : String → String → Option String
  pub read_file : String → World → Option String
  pub write_file : String → String → World → Option String × World
  pub remove_all : String → World → Option String × World
  pub mkdir_all : String → World → Option String × World
  pub start : Cmd → World → Started × World
  pub wait : ℕ → World → Ended × World
  -- `CombinedOutput`
  pub output : Cmd → World → Ended × World
  -- `killTree`, which differs by system.
  pub kill : ℕ → World → Option String × World
  -- `net.Listen` on 0.0.0.0 and on [::]; true if there was no error.
  pub listen4 : ℤ → World → Bool × World
  pub listen6 : ℤ → World → Bool × World
  -- `net.DialTimeout` to 127.0.0.1, with the timeout in milliseconds.
  pub dial : ℤ → ℕ → World → Bool × World
  -- Milliseconds.
  pub sleep : ℕ → World → World
  pub now : World → ℕ
