-- ===== src/Lib.antt =====
-- The eGovFrame launcher (launcher/): a local program with a dashboard in the browser that clones,
-- builds, runs and stops the sample projects of the eGovFrame organisation.
--
-- Parts of the program and the files that model them:
--   LogBuf    launcher/internal/logbuf/logbuf.go: a job's log, a buffer of a bounded number of lines
--             with a channel for each subscriber. Each part under the buffer's lock is one
--             function; LogBuf/Steps has the operations as atomic steps, and the sends of `Append`,
--             which follow without the lock, as steps of their own.
--   Catalog   launcher/internal/catalog/catalog.go: every entry of the catalog, and `ByID`.
--   Persist   launcher/internal/persist/persist.go: the settings that survive a restart. The package
--             variables are a record that every function takes and returns.
--   Prog      not a part of the program: handlers as sequences of atomic steps, and pools of
--             goroutines that run them in any interleaving.
--   Runner    launcher/internal/runner/runner.go: the jobs. `Sys` is the state that the handlers share
--             (the struct `Runner`, with the jobs under their ids, the package variables of the
--             settings and the world outside). A step takes a lock once, or asks the operating
--             system once. Command, Ports, Exec, Patch, Steps, Prepare, Chain, Rsp, Stop and Api
--             have one function for each function of the source, or for each stage of a long one
--             (runLongWithPort is Prepare and Chain, Stop is Stop and Rsp); Settings, Tomcat and Digest
--             have the setters, what is read of a Tomcat's folder, the check of an archive, and
--             Install and Install/Unpack the download and the unpacking of Tomcat. ServerXml has
--             patchServerXML, and SharedTomcat the encodings and the HTTP port of the Tomcat that
--             VS Code starts (ensureTomcatHTTPPort).
--             Docker and Database are the containers and the databases of the projects (SetupDB), and
--             RspClient is launcher/internal/runner/rsp_client.go with findRSPPort of rsp_unix.go.
--   Server    launcher/internal/server/server.go: the dispatch of `handleAction`, the settings dialogue
--             (Server/Config) and the stream of a job's log (Server/Events). A request is what
--             net/http and encoding/json make of it.
--   Base      lists, integers, maps and texts that the parts share.
--
-- How they meet: a request reaches `Do`, `DoWithPort`, `DoWithOptions` or `Stop` (Runner/Api,
-- Runner/Stop), which looks the target up in the catalog, makes the job with its log on first use,
-- and starts a goroutine (Runner/Steps, Runner/Chain, Runner/Database/Request) that runs commands,
-- writes to the log and changes the job's status. `Stop` reads the settings for the path of the shared Tomcat.
--
-- The world outside is a parameter: `Host` has what the program asks of the operating system, of
-- the network and of the processes that it starts, `Disk` has the file and the encoding of the
-- settings. Ports are Go's int, which may be negative where they come from a request (Base/Int).
--
-- Fuel: the loop of waitForPort ends by the clock. It has as many rounds as the wait has periods of
-- 300 ms, and two more, since each round sleeps for 300 ms. The scan of findAvailablePort has 100
-- rounds, as its bound has; it is empty where adding 100 passes the largest int. The wait for a
-- container has one round for each interval, and two more. A loop of the RSP client has one round
-- for each byte that the connection can still give before the deadline, and one more: each round
-- reads at least a line.
--
-- `Tools` has the programs that are called for their output, `Reader` the files with their errors,
-- the walk and the regular expressions, and `Wire` the connection to the RSP backend and its
-- encoding. A goroutine that SetupDB starts and waits for runs beside it by turns that are given
-- (Prog/Beside). `Patterns` has the positions of matches, and `Installer` has the downloads, the
-- archives and the digests of files.
--
-- Not modelled: runWAR, which deploys to a Tomcat of the project's own, and patchJDBCScriptEncoding;
-- the RSP setup, the JDK detection and the VS Code integration; the mutex that lets one database be
-- set up at a time; the platform files, which are system calls behind `Host`; the embedded
-- dashboard. The output of a command reaches the log when the command has ended, and that of a
-- dependency service is left out.
pub mod Base
pub mod LogBuf
pub mod Catalog
pub mod Persist
pub mod Prog
pub mod Runner
pub mod Server
