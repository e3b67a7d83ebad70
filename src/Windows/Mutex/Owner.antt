-- ===== src/Windows/Mutex/Owner.antt =====
-- headers/sppc/platform/windows.h: who may take and release a mutex, and how often.
use sppc.Common.{ℕ, zero, suc, ◌+◌, ◌<◌, ◌≡◌, ◌≢◌, refl, ap, sym, ◌∙◌, false, some, arith, ◌==◌}
use sppc.Windows.{Code}
use sppc.Windows.Mutex.{
  Kind, Mutex, is_normal, relock, acquired, compare_exchange, mutex_lock, mutex_trylock,
  mutex_unlock, release, uint_max,
}

-- The mutex when `me` has taken it `n + 1` times.
abbrev pub held_by : ℕ → ℕ → ℕ → Mutex
held_by state me n = record { state = state; owner = me; count = n + 1; kind = Kind.recursive }

-- `n` calls of `pthread_mutex_lock` by `me`, and `n` of `pthread_mutex_unlock`.
abbrev pub lock_many : ℕ → ℕ → Mutex → Mutex
lock_many zero me m = m
lock_many (suc n) me m = lock_many n me (mutex_lock me m).1

abbrev pub unlock_many : ℕ → ℕ → Mutex → Mutex
unlock_many zero me m = m
unlock_many (suc n) me m = unlock_many n me (mutex_unlock me m).2

lock_first :
    (me : ℕ) (m : Mutex)
    → m.state ≡ 0
    → (m.owner == me) ≡ false
    → m.kind ≡ Kind.recursive
    → mutex_lock me m ≡ (some Code.ok, held_by 1 me 0)
unfolding mutex_lock relock compare_exchange acquired
lock_first me m free other k = ground arith

lock_again :
    (state me n : ℕ)
    → n + 1 < uint_max
    → mutex_lock me (held_by state me n) ≡ (some Code.ok, held_by state me (n + 1))
unfolding mutex_lock relock
lock_again state me n h = ground arith

unlock_again :
    (state me n : ℕ)
    → n + 1 < uint_max
    → mutex_unlock me (held_by state me (n + 1)) ≡ (Code.ok, false, held_by state me n)
unfolding mutex_unlock
unlock_again state me n h = ground arith

unlock_last :
    (state me : ℕ)
    → mutex_unlock me (held_by state me 0)
      ≡ (Code.ok, state == 2, record { state = 0; owner = 0; count = 0; kind = Kind.recursive })
unfolding mutex_unlock release
unlock_last state me = ground arith

lock_many-held :
    (n state me k : ℕ)
    → k + n < uint_max
    → lock_many n me (held_by state me k) ≡ held_by state me (k + n)
lock_many-held zero state me k h = ap (λ c. held_by state me c) (omega arith)
lock_many-held (suc n) state me k h =
    ap (λ r. lock_many n me r.1) (lock_again state me k (omega arith))
    ∙ lock_many-held n state me (k + 1) (omega arith)
    ∙ ap (λ c. held_by state me c) (omega arith)

unlock_many-held :
    (n state me k : ℕ)
    → k + n < uint_max
    → unlock_many n me (held_by state me (k + n)) ≡ held_by state me k
unlock_many-held zero state me k h = ap (λ c. held_by state me c) (omega arith)
unlock_many-held (suc n) state me k h =
    ap (λ c. unlock_many (suc n) me (held_by state me c)) (omega arith)
    ∙ ap (λ r. unlock_many n me r.2) (unlock_again state me (k + n) (omega arith))
    ∙ unlock_many-held n state me k (omega arith)

-- A free recursive mutex that `me` locks `n + 1` times (below the limit of an `unsigned`): it is held
-- with that count, `n` unlocks leave it held by `me`, and the next one frees it. Its word `state` may
-- have become `s` through threads that wait; that unlock wakes one of them when it is 2.
pub recursive-balance :
    (me n s : ℕ) (m : Mutex)
    → m.state ≡ 0
    → (m.owner == me) ≡ false
    → m.kind ≡ Kind.recursive
    → n + 1 < uint_max
    → (lock_many (n + 1) me m ≡ held_by 1 me n)
      × (unlock_many n me (held_by s me n) ≡ held_by s me 0)
      × (mutex_unlock me (unlock_many n me (held_by s me n))
          ≡ (Code.ok, s == 2, record { state = 0; owner = 0; count = 0; kind = Kind.recursive }))
recursive-balance me n s m free other k h =
    let none_more : 0 + n ≡ n = omega arith in
    let down : unlock_many n me (held_by s me n) ≡ held_by s me 0 =
      ap (λ c. unlock_many n me (held_by s me c)) (sym none_more)
      ∙ unlock_many-held n s me 0 (omega arith) in
    let one : n + 1 ≡ suc n = omega arith in
    (
      ap (λ c. lock_many c me m) one
          ∙ ap (λ r. lock_many n me r.1) (lock_first me m free other k)
          ∙ lock_many-held n 1 me 0 (omega arith)
          ∙ ap (λ c. held_by 1 me c) none_more,
      down,
      ap (mutex_unlock me) down ∙ unlock_last s me,
    )

not_normal : (k : Kind) → k ≢ Kind.normal → is_normal k ≡ false
not_normal Kind.normal h = absurd (h refl)
not_normal Kind.errorcheck h = refl
not_normal Kind.recursive h = refl

-- An error-checking or recursive mutex that another thread holds: this thread's unlock is refused
-- with EPERM and its trylock with EBUSY, and neither changes the mutex; an error-checking mutex that
-- this thread holds refuses its lock with EDEADLK and stays as it is.
pub mutex-refusals :
    (me : ℕ) (m : Mutex)
    → m.kind ≢ Kind.normal
    → 0 < m.state
    → (m.owner ≢ me
        → (mutex_unlock me m ≡ (Code.eperm, false, m)) × (mutex_trylock me m ≡ (Code.ebusy, m)))
      × (m.owner ≡ me → m.kind ≡ Kind.errorcheck → mutex_lock me m ≡ (some Code.edeadlk, m))
unfolding mutex_unlock mutex_trylock mutex_lock relock compare_exchange
mutex-refusals me m k h =
    let n = not_normal m.kind k in
    (λ o. (ground (arith, n), ground (arith, n)), λ o e. ground (arith, n))
