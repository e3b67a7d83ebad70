-- ===== src/Posix.antt =====
-- headers/sppc/platform/posix.h: what it builds itself where a platform lacks a call.
pub mod Copy
pub mod Once
pub mod Poll
