-- ===== src/Windows/Mutex.antt =====
-- headers/sppc/platform/windows.h, PTHREADS: MUTEXES, one call at a time. `me` is the calling
-- thread's id. Where the source sleeps on a held mutex, the functions here stop with `none`; the
-- interleavings of several threads are in the child `Steps`.
pub mod Steps
pub mod Owner
use sppc.Common.{
  ℕ, ◌+◌, ◌-◌, Bool, true, false, not, ◌&&◌, ◌||◌, Option, none, some, ◌==◌, if◌then◌else◌,
}
use sppc.Windows.{Code}

-- `PTHREAD_MUTEX_NORMAL`, `_ERRORCHECK` and `_RECURSIVE`.
pub data Kind : Type 0 where
  normal errorcheck recursive : Kind

abbrev pub is_normal : Kind → Bool
is_normal Kind.normal = true
is_normal _ = false

abbrev pub is_recursive : Kind → Bool
is_recursive Kind.recursive = true
is_recursive _ = false

-- `_sppc_pthread_mutex_t`.
pub record Mutex : Type 0 where
  pub state : ℕ
  pub owner : ℕ
  pub count : ℕ
  pub kind : Kind

abbrev pub uint_max : ℕ
uint_max = 0xFFFFFFFF

-- `_sppc_pthread_mutexattr_settype`: the kind that an `int` stands for.
unfoldable pub settype : ℕ → Kind → Code × Kind
settype n old = if not (n == 0) && not (n == 1) && not (n == 2) then (Code.einval, old) else (
  Code.ok,
  if n == 0 then Kind.normal else if n == 1 then Kind.errorcheck else Kind.recursive,
)

-- `_sppc_pthread_mutex_init`, of attributes or NULL.
unfoldable pub mutex_init : Option Kind → Mutex
mutex_init attr = record {
  state = 0;
  owner = 0;
  count = 0;
  kind = elim attr [ none ↦ Kind.normal | some k ↦ k ];
}

-- `_sppc_pthread_mutex_destroy`.
unfoldable pub mutex_destroy : Mutex → Code
mutex_destroy m = if not (m.state == 0) then Code.ebusy else Code.ok

-- `_sppc_win_mutex_relock`; `none` for -1.
unfoldable pub relock : ℕ → Mutex → Option Code × Mutex
relock me m =
    if is_normal m.kind || not (m.owner == me)
    then (none, m)
    else if not (is_recursive m.kind)
    then (some Code.edeadlk, m)
    else if m.count == uint_max
    then (some Code.eagain, m)
    else (some Code.ok, record m { count = m.count + 1 })

-- `_sppc_win_mutex_acquired`.
unfoldable pub acquired : ℕ → Mutex → Mutex
acquired me m = record m { owner = me; count = 1 }

-- `InterlockedCompareExchange(&mutex->state, 1, 0) != 0`: whether it was held.
unfoldable pub compare_exchange : Mutex → Bool × Mutex
compare_exchange m = if m.state == 0 then (false, record m { state = 1 }) else (true, m)

-- `InterlockedExchange(&mutex->state, value)`: the old value, and the mutex.
unfoldable pub exchange : ℕ → Mutex → ℕ × Mutex
exchange value m = (m.state, record m { state = value })

-- `_sppc_win_mutex_lock` with no other thread between its steps; `none` where it sleeps, with the
-- mutex as it is then.
unfoldable pub mutex_lock : ℕ → Mutex → Option Code × Mutex
unfolding relock acquired compare_exchange exchange
mutex_lock me m =
    let (relocked, a) = relock me m in
    elim relocked [
      | some code ↦ (some code, a)
      | none ↦
          let (held, b) = compare_exchange a in
          if held then (none, (exchange 2 b).1) else (some Code.ok, acquired me b)
    ]

-- `_sppc_pthread_mutex_trylock`.
unfoldable pub mutex_trylock : ℕ → Mutex → Code × Mutex
unfolding relock acquired compare_exchange
mutex_trylock me m =
    if is_recursive m.kind && (m.owner == me)
    then (let (code, a) = relock me m in (elim code [ none ↦ Code.ok | some c ↦ c ], a))
    else let (held, b) = compare_exchange m in
      if held then (Code.ebusy, b) else (Code.ok, acquired me b)

-- The release of `_sppc_pthread_mutex_unlock`: whether it wakes a sleeper, and the mutex.
unfoldable pub release : Mutex → Bool × Mutex
unfolding exchange
release m = let (old, freed) = exchange 0 (record m { owner = 0 }) in (old == 2, freed)

-- `_sppc_pthread_mutex_unlock`: the code, whether it wakes a sleeper, and the mutex. The count is
-- an `unsigned`, which `--` takes from 0 to its largest value.
unfoldable pub mutex_unlock : ℕ → Mutex → Code × Bool × Mutex
unfolding release
mutex_unlock me m =
    if not (is_normal m.kind) && not (m.owner == me)
    then (Code.eperm, false, m)
    else let left = if m.count == 0 then uint_max else m.count - 1 in
      let counted = if is_recursive m.kind then record m { count = left } else m in
      if is_recursive m.kind && not (left == 0)
      then (Code.ok, false, counted)
      else let (wake, freed) = release counted in (Code.ok, wake, freed)
