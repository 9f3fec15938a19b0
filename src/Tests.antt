-- ===== src/Tests.antt =====
-- Runs at concrete inputs, and the instances of the theorems at inputs where their hypotheses hold.
mod Resp
mod Rdb
mod Start
mod Command
mod Dispatcher
mod Database
mod Connection
mod Disk
mod Files
mod Server
