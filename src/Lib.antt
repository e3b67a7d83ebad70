-- ===== src/Lib.antt =====
-- A model of sppc, the C runtime layer of S++, and of what makes its parts correct.
--
-- sppc is a library of headers (headers/sppc), instantiated once in sources/sppc/sppc.c. It offers a
-- POSIX-like interface on every platform and a green-thread runtime on top. These parts are modelled.
--
-- The green-thread runtime (headers/sppc/async), one per thread of the system, in Async.antt and the
-- files under Async/. Its state is the record Runtime; a task is the index of its slot.
-- - Async.antt: the records of async/runtime.h.
-- - Async/Queue.antt: the run queue, `_gt_rq_push`, `_gt_rq_pop`, `_gt_rq_remove` (async/sched.h).
-- - Async/Slots.antt: `_gt_slot_alloc`, `_gt_slot_free`, `_gt_reap`.
-- - Async/Stacks.antt: the POSIX stacks of async/vmem.h and `_gt_set_stack_size`.
-- - Async/Handle.antt: `_gt_handle`, `_gt_resolve`.
-- - Async/Idle.antt: `_gt_pick`, `_gt_block`, `_gt_has_other_work`, `_gt_step`; what each poll of the
--   i/o backend finds finished is an argument, a round of `_gt_pick` for each.
-- - Async/Locks.antt: `_gt_lock_wait_add`, `_gt_lock_wait_remove`, `_gt_lock_released`, `_gt_lock_until`
--   and the unlocks; what the C library's lock answers, and what other tasks do until the waiting one
--   runs again, are arguments.
-- - Async/Conditions.antt: `_gt_cond_wait_until`, from one switch to the next.
-- - Async/Tasks.antt: `_gt_switch_to`, `_gt_yield`, `_gt_spawn`, `_gt_task_run`, `_gt_await`,
--   `_gt_detach`. Where the source switches to another task, the function ends with that task current,
--   and what runs once the task is switched back to is a function of its own.
-- Memory, the kernel's mappings and the completions of the i/o backend are arguments. Pointers are
-- options of numbers. A loop over a list runs on rounds, and gives
-- `none` when they run out; each round goes on by one member, so one round more than the list has
-- members is enough.
--
-- The POSIX interfaces on Windows (headers/sppc/platform/windows.h), in Windows.antt and the files
-- under Windows/.
-- - Windows/Errors.antt: `_sppc_errno_win32`, `_sppc_errno_wsa`.
-- - Windows/Mutex.antt: the mutex calls, each with no other thread in it; Windows/Mutex/Steps.antt: the
--   atomic operations of a normal mutex's lock, trylock and unlock by any number of threads.
-- - Windows/Barrier.antt: the barrier calls, each wait as its two atomic parts; Windows/Barrier/Rounds.antt:
--   their interleavings.
-- - Windows/Rwlock.antt: the read-write lock calls; Windows/Keys.antt: the keys of thread-specific values.
-- - Windows/Threads.antt: a thread's object, its creation, join, detach and end; Windows/Threads/Steps.antt:
--   any number of callers beside the thread.
-- - Windows/Sleep.antt: `_sppc_clock_gettime`, `_sppc_clock_nanosleep`, a reading of the clock for each look;
--   a sleep is a day at most, so as many looks as there are days up to the deadline, and one more, are enough.
-- - Windows/Views.antt: the list of views and `_sppc_win_map_view`; Windows/Views/Mmap.antt: `_sppc_win_mmap`.
-- - Windows/Poll.antt: `_sppc_win_ready`, `sppc_poll`, whose loop has a round for each look; with a timeout
--   the round that finds it gone is the last. Windows/Select.antt: `sppc_select` on top of it.
-- - Windows/Heap.antt: `sppc_malloc`, `sppc_aligned_alloc`, `sppc_calloc`, `sppc_realloc`, `sppc_free`
--   over the C library's heap, which is an argument.
-- - Windows/Console.antt: `_sppc_console_write` and the UTF-8 it splits. What a console shows is kept as
--   the bytes that it was handed; their conversion to UTF-16 is left out.
-- - Windows/Fds.antt: the fd table, its reference counts, `sppc_close`, `sppc_dup`, `sppc_dup2`. The
--   doubling of the table has fd + 1 rounds, and each doubles a capacity of at
--   least 1, so they are enough to pass fd.
--
-- Failure reports (headers/sppc/backtrace/common.h, and `sppc_check_failed` and `sppc_abort` of
-- headers/sppc/platform/common.h), in Report.antt and the files under Report/, for POSIX on a 64-bit
-- machine.
-- - Report.antt: the buffer, `_sppc_bt_put_n`, `_sppc_bt_put`, `_sppc_bt_put_symbol`, `_sppc_bt_put_hex`,
--   `_sppc_bt_put_dec`, `_sppc_bt_flush`. The loops over digits run on the index into their array, and
--   give `none` for a write before its start.
-- - Report/Backtrace.antt: `_sppc_bt_print`; the unwinder's frames and their names are arguments.
-- - Report/Symbols.antt: `_sppc_bt_resolve` of backtrace/elf.h, over the table of an object's file.
-- - Report/Check.antt: `sppc_check_failed`, `sppc_abort`, `_sppc_bt_fail_end`.
-- The answers of `write` are a list, one for each call.
--
-- What headers/sppc/platform/posix.h builds itself, in Posix.antt and the files under Posix/.
-- - Posix/Copy.antt: `_sppc_copy_range`; the answers of `read` and `write` are arguments.
-- - Posix/Poll.antt: `sppc_poll`, `_sppc_poll_translated`; the system's `poll` is an argument.
-- - Posix/Once.antt: `_sppc_pthread_once` of Darwin and FreeBSD; Posix/Once/Steps.antt: the interleavings
--   of any number of threads.
--
-- What headers/sppc/platform/darwin.h builds itself, in Darwin.antt and the files under Darwin/.
-- - Darwin/Locks.antt: `_sppc_time_left`, the timed locks built from tries and naps, `_sppc_pthread_cond_clockwait`
--   and `_sppc_clock_nanosleep_errno`; the tries, the clock and the naps are arguments.
-- - Darwin/Dontneed.antt: `_sppc_madvise_dontneed` over the kernel's regions. Each goes on by at least a
--   byte, so as many rounds as the range has bytes, and one more, are enough.
--
-- Times: Time.antt models the deadlines of async/sched.h and the waits of windows.h; Searches:
-- Strings.antt models `_sppc_memmem` and `_sppc_strcasestr` of windows.h and `_sppc_strrstr` of
-- platform/common.h, their loops on as many rounds as the haystack has bytes and two more, since each
-- goes on by at least a byte. Addresses.antt models the socket addresses of platform/common.h.
--
-- Translate.antt models the translation of values and flags in headers/sppc/platform/shared.h, for any
-- table. Errors.antt models headers/sppc/errors.h, `_sppc_errno`, for any numbers that a platform has.
-- Errno.antt has the error numbers of types.h, Common.antt and its children what all files share:
-- lists, tests, tables, and the bit operations as arithmetic.
--
-- Not modelled: the i/o backends, the context switch in assembly, the runtime's start and end, the
-- rest of windows.h, posix.h and darwin.h, the tables that platform/shared.h fills, the
-- wrappers that forward to a C library, and the loading of object files, the unwinding and the signals
-- behind a backtrace.
pub mod Addresses
pub mod Async
pub mod Common
pub mod Darwin
pub mod Errno
pub mod Errors
pub mod Posix
pub mod Report
pub mod Strings
pub mod Time
pub mod Translate
pub mod Windows
