-- ===== src/Windows/Threads.antt =====
-- headers/sppc/platform/windows.h, PTHREADS: THREADS: a thread's object, who holds it, and who frees it.
-- What the system and `calloc` answer are arguments. A LONG is its bit pattern.
pub mod Counted
pub mod Freed
pub mod Steps
mod Examples
use sppc.Common.{
  ℕ, ◌+◌, ◌-◌, ◌%◌, ◌^◌, Bool, true, false, not, ◌&&◌, ◌||◌, Option, none, some, ◌==◌, ltb,
  if◌then◌else◌,
}
use sppc.Windows.{Code}

-- `_sppc_win_thread`, less its start and its slots, with how often its handle was closed and it was freed.
pub record Thread : Type 0 where
  pub handle : Bool
  pub retval : ℕ
  pub refs : ℕ
  pub joinable : Bool
  pub closed : ℕ
  pub freed : ℕ

-- `_sppc_pthread_attr_t`.
pub record Attr : Type 0 where
  pub detached : Bool
  pub stacksize : ℕ

-- `_sppc_pthread_attr_init`.
abbrev pub attr_init : Attr
attr_init = record { detached = false; stacksize = 0 }

abbrev pub create_joinable : ℕ
create_joinable = 0

abbrev pub create_detached : ℕ
create_detached = 1

-- `_sppc_pthread_attr_setdetachstate`.
unfoldable pub setdetachstate : ℕ → Attr → Code × Attr
setdetachstate state a =
    if not (state == create_joinable) && not (state == create_detached)
    then (Code.einval, a)
    else (Code.ok, record a { detached = state == create_detached })

-- `_sppc_pthread_attr_setstacksize`, `least` being PTHREAD_STACK_MIN.
unfoldable pub setstacksize : ℕ → ℕ → Attr → Code × Attr
setstacksize least size a =
    if ltb size least || ltb (2 ^ 32 - 1) size
    then (Code.einval, a)
    else (Code.ok, record a { stacksize = size })

-- `_sppc_win_release`.
unfoldable pub release : Thread → Thread
release t =
    let refs = (t.refs + 2 ^ 32 - 1) % 2 ^ 32 in
    if not (refs == 0) then record t { refs = refs } else record t {
      refs = refs;
      closed = t.closed + (if t.handle then 1 else 0);
      freed = t.freed + 1;
    }

-- What a creation comes to: the thread, or EAGAIN with what is left of its object.
pub data Created : Type 0 where
  created : Thread → Created
  eagain : Option Thread → Created

-- The object as `_sppc_pthread_create` fills it.
unfoldable pub made : Bool → Bool → Thread
made detached handle = record {
  handle = handle;
  retval = 0;
  refs = if detached then 1 else 2;
  joinable = not detached;
  closed = 0;
  freed = 0;
}

-- `_sppc_pthread_create`: whether there is memory, a thread is begun, and it resumes.
unfoldable pub create : Option Attr → Bool → Bool → Bool → Created
unfolding made
create attr memory begun resumed =
    let detached : Bool = elim attr [ none ↦ false | some a ↦ a.detached ] in
    if not memory
    then Created.eagain none
    else if not begun
    then Created.eagain (some (record (made detached false) { freed = 1 }))
    else if not resumed
    then Created.eagain (some (record (made detached true) { closed = 1; freed = 1 }))
    else Created.created (made detached true)

-- `_sppc_win_current` of a thread that has no object yet.
unfoldable pub adopt : Bool → Option Thread
adopt memory =
    if not memory
    then none
    else some
        (record { handle = false; retval = 0; refs = 1; joinable = false; closed = 0; freed = 0 })

-- The exchange of `joinable` that starts `_sppc_pthread_join` and `_sppc_pthread_detach`: whether it was
-- owed still.
unfoldable pub take_join : Thread → Bool × Thread
take_join t = (t.joinable, record t { joinable = false })

-- `_sppc_pthread_join` up to its wait: none where it goes on to wait.
unfoldable pub join_start : Bool → Thread → Option Code × Thread
unfolding take_join
join_start is_self t =
    let (owed, q) = take_join t in
    if is_self
    then (some Code.edeadlk, t)
    else if not owed
    then (some Code.einval, q)
    else (none, q)

-- `_sppc_pthread_join` behind its wait: the thread's result.
unfoldable pub join_end : Thread → ℕ × Thread
unfolding release
join_end t = (t.retval, release t)

-- `_sppc_pthread_detach` up to its release: none where it goes on to that.
unfoldable pub detach_start : Thread → Option Code × Thread
unfolding take_join
detach_start t =
    let (owed, q) = take_join t in if not owed then (some Code.einval, q) else (none, q)
