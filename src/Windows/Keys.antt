-- ===== src/Windows/Keys.antt =====
-- headers/sppc/platform/windows.h, PTHREADS: THREADS: keys and the values that threads keep under
-- them. The keys are shared; `slots` are those of one thread. A pointer is a number, NULL is `none`.
pub mod Renewed
mod Examples
use sppc.Common.{
  ℕ, zero, suc, ◌+◌, ◌-◌, ◌%◌, ◌^◌, Bool, true, false, not, Option, none, some, ◌==◌, leb,
  if◌then◌else◌, update,
}
use sppc.Windows.{Code}

abbrev pub keys_max : ℕ
keys_max = 128

-- `_sppc_win_key`; `seq` is the pattern of a LONG.
pub record Key : Type 0 where
  pub seq : ℕ
  pub destructor : Option ℕ

-- `_sppc_win_slot`.
pub record Value : Type 0 where
  pub value : Option ℕ
  pub seq : ℕ

abbrev pub is_used : Key → Bool
is_used k = k.seq % 2 == 1

-- `InterlockedIncrement`.
abbrev pub increment : ℕ → ℕ
increment n = (n + 1) % 2 ^ 32

-- The first key from `k` on that is not in use, of `n` of them: the loop of `key_create`.
unfoldable pub unused_key : ℕ → ℕ → (ℕ → Key) → Option ℕ
unused_key zero k keys = none
unused_key (suc n) k keys =
    let rest = unused_key n (k + 1) keys in if is_used (keys k) then rest else some k

-- The key taken into use.
abbrev pub use_key : Option ℕ → ℕ → (ℕ → Key) → ℕ → Key
use_key destructor k keys =
    update keys k (record { seq = increment (keys k).seq; destructor = destructor })

-- The body of that loop at the key where it stops, or EAGAIN (`none`) behind it.
unfoldable pub create_at : Option ℕ → Option ℕ → (ℕ → Key) → Option ℕ × (ℕ → Key)
create_at destructor none keys = (none, keys)
create_at destructor (some k) keys = (some k, use_key destructor k keys)

-- `_sppc_pthread_key_create`: the key, or `none` for EAGAIN.
unfoldable pub key_create : Option ℕ → (ℕ → Key) → Option ℕ × (ℕ → Key)
unfolding unused_key create_at
key_create destructor keys = create_at destructor (unused_key keys_max 0 keys) keys

-- `_sppc_pthread_key_delete`.
unfoldable pub key_delete : ℕ → (ℕ → Key) → Code × (ℕ → Key)
key_delete key keys =
    if leb keys_max key
    then (Code.einval, keys)
    else if is_used (keys key)
    then (Code.ok, update keys key (record { seq = increment (keys key).seq; destructor = none }))
    else (Code.einval, keys)

-- `_sppc_pthread_getspecific`, on a thread that has its slots.
unfoldable pub getspecific : ℕ → (ℕ → Key) → (ℕ → Value) → Option ℕ
getspecific key keys slots =
    if leb keys_max key
    then none
    else if (slots key).seq == (keys key).seq
    then (slots key).value
    else none

-- `_sppc_pthread_setspecific`; whether the thread has its slots, or memory for them, is `current`.
unfoldable pub setspecific : Bool → ℕ → Option ℕ → (ℕ → Key) → (ℕ → Value) → Code × (ℕ → Value)
setspecific current key value keys slots =
    let seq = (keys key).seq in
    if leb keys_max key
    then (Code.einval, slots)
    else if not (is_used (keys key))
    then (Code.einval, slots)
    else if not current
    then (Code.enomem, slots)
    else (Code.ok, update slots key (record { value = value; seq = seq }))
