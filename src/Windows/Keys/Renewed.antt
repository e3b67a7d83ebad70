-- ===== src/Windows/Keys/Renewed.antt =====
-- headers/sppc/platform/windows.h: keys that are made again, and the values of a thread.
use sppc.Common.{ℕ, ◌+◌, ◌^◌, ◌≤◌, ◌<◌, ◌≡◌, ◌≢◌, Bool, true, Option, none, some, arith}
use sppc.Windows.{Code}
use sppc.Windows.Keys.{
  Key, Value, keys_max, unused_key, create_at, key_create, key_delete, getspecific, setspecific,
}

-- The keys of the process, and the values of one of its threads.
pub record World : Type 0 where
  pub keys : ℕ → Key
  pub slots : ℕ → Value

-- One call: a key made or deleted on any thread, while its number is below its last, or a value set
-- on this one.
pub data Call : World → World → Type 0 where
  create :
      (destructor : Option ℕ) (w : World)
      → ((k : ℕ) → (w.keys k).seq + 1 < 2 ^ 32)
      → Call w (record w { keys = (key_create destructor w.keys).1 })
  delete :
      (key : ℕ) (w : World)
      → ((k : ℕ) → (w.keys k).seq + 1 < 2 ^ 32)
      → Call w (record w { keys = (key_delete key w.keys).1 })
  assign :
      (current : Bool) (key : ℕ) (value : Option ℕ) (w : World)
      → Call w (record w { slots = (setspecific current key value w.keys w.slots).1 })

pub data Calls : World → World → Type 0 where
  stop : (w : World) → Calls w w
  next : (u v w : World) → Call u v → Calls v w → Calls u w

-- No value is from a later key than the one there is.
abbrev pub IsPast : World → Type 0
IsPast w = (k : ℕ) → (w.slots k).seq ≤ (w.keys k).seq

-- Before any key is made.
abbrev pub start : World
start = record {
  keys = λ k. record { seq = 0; destructor = none };
  slots = λ k. record { value = none; seq = 0 };
}

create_at-seq :
    (d o : Option ℕ) (keys : ℕ → Key) (k : ℕ)
    → (keys k).seq + 1 < 2 ^ 32
    → ((keys k).seq ≤ ((create_at d o keys).1 k).seq)
      × ((create_at d o keys).0 ≡ some k → ((create_at d o keys).1 k).seq ≡ (keys k).seq + 1)
unfolding create_at
create_at-seq d none keys k h = (omega arith, λ o. cc)
create_at-seq d (some j) keys k h = (ground arith, λ o. ground (arith, o))

key_create-seq :
    (d : Option ℕ) (keys : ℕ → Key) (k : ℕ)
    → (keys k).seq + 1 < 2 ^ 32
    → ((keys k).seq ≤ ((key_create d keys).1 k).seq)
      × ((key_create d keys).0 ≡ some k → ((key_create d keys).1 k).seq ≡ (keys k).seq + 1)
unfolding key_create
key_create-seq d keys k h = create_at-seq d (unused_key keys_max 0 keys) keys k h

key_delete-seq :
    (key : ℕ) (keys : ℕ → Key) (k : ℕ)
    → (keys k).seq + 1 < 2 ^ 32
    → (keys k).seq ≤ ((key_delete key keys).1 k).seq
unfolding key_delete
key_delete-seq key keys k h = ground arith

setspecific-seq :
    (b : Bool) (key : ℕ) (v : Option ℕ) (keys : ℕ → Key) (slots : ℕ → Value) (k : ℕ)
    → (slots k).seq ≤ (keys k).seq
    → ((setspecific b key v keys slots).1 k).seq ≤ (keys k).seq
unfolding setspecific
setspecific-seq b key v keys slots k h = ground arith

Call-IsPast : (w v : World) → Call w v → IsPast w → IsPast v
Call-IsPast _ _ (Call.create d w n) p k = omega (arith, p k, (key_create-seq d w.keys k (n k)).0)
Call-IsPast _ _ (Call.delete key w n) p k = omega (arith, p k, key_delete-seq key w.keys k (n k))
Call-IsPast _ _ (Call.assign b key v w) p k = setspecific-seq b key v w.keys w.slots k (p k)

Calls-IsPast : (w v : World) → Calls w v → IsPast w → IsPast v
Calls-IsPast _ _ (Calls.stop w) p = p
Calls-IsPast _ _ (Calls.next u v w c cs) p = Calls-IsPast v w cs (Call-IsPast u v c p)

getspecific-other :
    (k : ℕ) (keys : ℕ → Key) (slots : ℕ → Value)
    → (slots k).seq ≢ (keys k).seq
    → getspecific k keys slots ≡ none
unfolding getspecific
getspecific-other k keys slots h = ground arith

set-get :
    (k : ℕ) (v : Option ℕ) (keys : ℕ → Key) (slots : ℕ → Value)
    → (setspecific true k v keys slots).0 ≡ Code.ok
    → getspecific k keys (setspecific true k v keys slots).1 ≡ v
unfolding setspecific getspecific
set-get k v keys slots h = ground arith

-- After any sequence of calls that make and delete keys and set values, no number being used up: a
-- key that is then made shows NULL, whatever was set under the same key before; and a value that is
-- set with success is the one that is shown.
pub key_create-renews :
    (w : World) (d v : Option ℕ) (k : ℕ)
    → Calls start w
    → (w.keys k).seq + 1 < 2 ^ 32
    → ((key_create d w.keys).0 ≡ some k → getspecific k (key_create d w.keys).1 w.slots ≡ none)
      × ((setspecific true k v w.keys w.slots).0 ≡ Code.ok
          → getspecific k w.keys (setspecific true k v w.keys w.slots).1 ≡ v)
key_create-renews w d v k c n =
    let past = Calls-IsPast start w c (λ j. omega arith) k in
    (
      λ o.
          getspecific-other k (key_create d w.keys).1 w.slots
            (λ e. absurd (omega (arith, past, e, (key_create-seq d w.keys k n).1 o))),
      λ o. set-get k v w.keys w.slots o,
    )
