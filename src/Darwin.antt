-- ===== src/Darwin.antt =====
-- headers/sppc/platform/darwin.h: what it builds where Darwin lacks a call.
pub mod Dontneed
pub mod Locks
