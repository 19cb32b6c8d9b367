-- ===== src/Runner.antt =====
-- launcher/internal/runner: the jobs that clone, build and run the catalog's targets.
pub mod Host
pub mod Settings
pub mod Tomcat
pub mod Digest
pub mod Types
pub mod Sys
pub mod Command
pub mod Ports
pub mod Exec
pub mod Patch
pub mod Steps
pub mod Prepare
pub mod Chain
pub mod Rsp
pub mod Stop
pub mod Tools
pub mod RspClient
pub mod WorldEnds
pub mod Install
pub mod ServerXml
pub mod SharedTomcat
pub mod Docker
pub mod Database
pub mod Api
pub mod Requests
pub mod Safety
pub mod Tests
