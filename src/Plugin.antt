-- ===== src/Plugin.antt =====
-- src/ats_fastcgi.cc, and the set-up of a thread of src/server.cc.
pub mod Thread
pub mod Hook
pub mod SetUp
pub mod Serving
pub mod Decisions
pub mod Init
pub mod Starts
