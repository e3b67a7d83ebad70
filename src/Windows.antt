-- ===== src/Windows.antt =====
-- headers/sppc/platform/windows.h: the POSIX interfaces on Windows.
pub mod Mutex
pub mod Barrier
pub mod Heap
pub mod Keys
pub mod Poll
pub mod Select
pub mod Rwlock
pub mod Sleep
pub mod Threads
pub mod Views
pub mod Console
mod Examples
pub mod Fds
pub mod Errors

-- What a pthread call returns: 0, or the C library's constant of that name.
pub data Code : Type 0 where
  ok ebusy edeadlk eagain eperm einval enomem etimedout : Code
