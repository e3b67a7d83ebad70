-- ===== src/Windows/Rwlock/Holders.antt =====
-- headers/sppc/platform/windows.h: who holds a read-write lock, through any sequence of calls.
use sppc.Common.{
  ℕ, ◌+◌, ◌≡◌, ◌≢◌, refl, ap, sym, subst, ◌∙◌, true, not, Option, none, some, List, [], ◌∷◌, arith,
  ◌==◌, if◌then◌else◌, length, Bool-cases, if-either, inl, inr,
}
use sppc.Async.Chain.{has}
use sppc.Async.Queue.Remove.{erase}
use sppc.Windows.{Code}
use sppc.Windows.Rwlock.{
  Word, Rwlock, is_busy, rwlock_init, rwlock_tryrdlock, rwlock_trywrlock, rwlock_rdlock,
  rwlock_wrlock, rwlock_unlock,
}

-- The lock, the threads that hold it for reading (once for each time), and the one that writes.
pub record World : Type 0 where
  pub lock : Rwlock
  pub reading : List ℕ
  pub writing : Option ℕ

-- One call, that succeeds or is refused; `refused` is also a call that goes to sleep, and asks again when it wakes. A thread
-- whose unlock is taken holds the lock.
pub data Call : World → World → Type 0 where
  read :
      (me : ℕ) (w : World)
      → (rwlock_tryrdlock w.lock).0 ≡ Code.ok
      → Call w (record w { lock = (rwlock_tryrdlock w.lock).1; reading = me ∷ w.reading })
  read_wait :
      (me : ℕ) (w : World)
      → (rwlock_rdlock me w.lock).0 ≡ some Code.ok
      → Call w (record w { lock = (rwlock_rdlock me w.lock).1; reading = me ∷ w.reading })
  write :
      (me : ℕ) (w : World)
      → (rwlock_trywrlock me w.lock).0 ≡ Code.ok
      → Call w (record w { lock = (rwlock_trywrlock me w.lock).1; writing = some me })
  write_wait :
      (me : ℕ) (w : World)
      → (rwlock_wrlock me w.lock).0 ≡ some Code.ok
      → Call w (record w { lock = (rwlock_wrlock me w.lock).1; writing = some me })
  unlock_read :
      (me : ℕ) (w : World)
      → has me w.reading ≡ true
      → Call w (record w { lock = (rwlock_unlock me w.lock).2; reading = erase me w.reading })
  unlock_write :
      (me : ℕ) (w : World)
      → w.writing ≡ some me
      → Call w (record w { lock = (rwlock_unlock me w.lock).2; writing = none })
  read_refused :
      (w : World)
      → (rwlock_tryrdlock w.lock).0 ≢ Code.ok
      → Call w (record w { lock = (rwlock_tryrdlock w.lock).1 })
  read_wait_refused :
      (me : ℕ) (w : World)
      → (rwlock_rdlock me w.lock).0 ≢ some Code.ok
      → Call w (record w { lock = (rwlock_rdlock me w.lock).1 })
  write_refused :
      (me : ℕ) (w : World)
      → (rwlock_trywrlock me w.lock).0 ≢ Code.ok
      → Call w (record w { lock = (rwlock_trywrlock me w.lock).1 })
  write_wait_refused :
      (me : ℕ) (w : World)
      → (rwlock_wrlock me w.lock).0 ≢ some Code.ok
      → Call w (record w { lock = (rwlock_wrlock me w.lock).1 })
  unlock_refused :
      (me : ℕ) (w : World)
      → (rwlock_unlock me w.lock).0 ≢ Code.ok
      → Call w (record w { lock = (rwlock_unlock me w.lock).2 })

pub data Calls : World → World → Type 0 where
  stop : (w : World) → Calls w w
  next : (u v w : World) → Call u v → Calls v w → Calls u w

-- The lock says who holds it: one writer and no reader, or as many readers as it counts.
abbrev pub Says : Rwlock → List ℕ → Option ℕ → Type 0
Says l rs (some t) = (l.state ≡ Word.writing) × (l.writer ≡ t) × (rs ≡ [])
Says l rs none = (l.state ≡ Word.readers (length rs)) × (l.writer ≡ 0)

length-erase : (t : ℕ) (xs : List ℕ) → has t xs ≡ true → length (erase t xs) + 1 ≡ length xs
length-erase t [] h = cc
length-erase t (x ∷ xs) h = elim (Bool-cases (x == t)) [
  | inl e ↦ ground (arith, e)
  | inr e ↦ ground (arith, e, length-erase t xs (ground (arith, e)))
]

read-Says :
    (l : Rwlock) (me : ℕ) (rs : List ℕ) (o : Option ℕ)
    → Says l rs o
    → (rwlock_tryrdlock l).0 ≡ Code.ok
    → Says (rwlock_tryrdlock l).1 (me ∷ rs) o
unfolding rwlock_tryrdlock
read-Says l me rs none s h = (ground (arith, s.0, h), ground (arith, s.0, s.1, h))
read-Says l me rs (some t) s h = absurd (ground (arith, s.0, h))

no_readers : (rs : List ℕ) → length rs ≡ 0 → rs ≡ []
no_readers [] h = refl
no_readers (r ∷ rs) h = absurd (omega arith)

write-Says :
    (l : Rwlock) (me : ℕ) (rs : List ℕ) (o : Option ℕ)
    → Says l rs o
    → (rwlock_trywrlock me l).0 ≡ Code.ok
    → Says (rwlock_trywrlock me l).1 rs (some me)
unfolding rwlock_trywrlock
write-Says l me rs none s h =
    (ground (arith, s.0, h), ground (arith, s.0, h), no_readers rs (ground (arith, s.0, h)))
write-Says l me rs (some t) s h = absurd (ground (arith, s.0, h))

-- The blocking calls do as the others.
rdlock-lock : (l : Rwlock) (me : ℕ) → (rwlock_rdlock me l).1 ≡ (rwlock_tryrdlock l).1
unfolding rwlock_rdlock
rdlock-lock l me =
    let r = rwlock_tryrdlock l in
    if-either (λ (q : Option Code × Rwlock). q.1 ≡ r.1) (not (is_busy r.0)) (some r.0, r.1)
      (if r.1.writer == me then (some Code.edeadlk, r.1) else (none, r.1)) (λ y. refl)
      (λ y.
        if-either (λ (q : Option Code × Rwlock). q.1 ≡ r.1) (r.1.writer == me)
          (some Code.edeadlk, r.1) (none, r.1) (λ z. refl) (λ z. refl))

rdlock-ok :
    (l : Rwlock) (me : ℕ) → (rwlock_rdlock me l).0 ≡ some Code.ok → (rwlock_tryrdlock l).0 ≡ Code.ok
unfolding rwlock_rdlock
rdlock-ok l me h = ground (arith, h)

wrlock-Says :
    (l : Rwlock) (me : ℕ) (rs : List ℕ) (o : Option ℕ)
    → Says l rs o
    → (rwlock_wrlock me l).0 ≡ some Code.ok
    → Says (rwlock_wrlock me l).1 rs (some me)
unfolding rwlock_wrlock rwlock_trywrlock
wrlock-Says l me rs none s h =
    (ground (arith, s.0, h), ground (arith, s.0, h), no_readers rs (ground (arith, s.0, h)))
wrlock-Says l me rs (some t) s h = absurd (ground (arith, s.0, h))

unlock_read-Says :
    (l : Rwlock) (me : ℕ) (rs : List ℕ) (o : Option ℕ)
    → Says l rs o
    → has me rs ≡ true
    → Says (rwlock_unlock me l).2 (erase me rs) o
unfolding rwlock_unlock
unlock_read-Says l me rs none s h =
    let n = length-erase me rs h in (ground (arith, s.0, n), ground (arith, s.0, s.1, n))
unlock_read-Says l me rs (some t) s h = absurd (nobody rs s.2 h)
  where
    nobody : (xs : List ℕ) → xs ≡ [] → has me xs ≡ true → ⊥
    nobody [] e m = cc
    nobody (x ∷ xs) e m = cc

unlock_write-Says :
    (l : Rwlock) (me : ℕ) (rs : List ℕ) (o : Option ℕ)
    → Says l rs o
    → o ≡ some me
    → Says (rwlock_unlock me l).2 rs none
unfolding rwlock_unlock
unlock_write-Says l me rs none s h = cc
unlock_write-Says l me rs (some t) s h =
    let none_left : length rs ≡ 0 = ap (λ xs. length xs) s.2 in
    (ground (arith, s.0, s.1, h, none_left), ground (arith, s.0, s.1, h))

-- A call that is refused leaves the lock as it was.
tryrdlock-refused : (l : Rwlock) → (rwlock_tryrdlock l).0 ≢ Code.ok → (rwlock_tryrdlock l).1 ≡ l
unfolding rwlock_tryrdlock
tryrdlock-refused l h = ground (arith, h)

trywrlock-refused :
    (me : ℕ) (l : Rwlock) → (rwlock_trywrlock me l).0 ≢ Code.ok → (rwlock_trywrlock me l).1 ≡ l
unfolding rwlock_trywrlock
trywrlock-refused me l h = ground (arith, h)

rdlock-refused :
    (me : ℕ) (l : Rwlock) → (rwlock_rdlock me l).0 ≢ some Code.ok → (rwlock_rdlock me l).1 ≡ l
unfolding rwlock_rdlock
rdlock-refused me l h =
    let tried : (rwlock_tryrdlock l).0 ≢ Code.ok = λ e. h (ground (arith, e)) in
    rdlock-lock l me ∙ tryrdlock-refused l tried

wrlock-refused :
    (me : ℕ) (l : Rwlock) → (rwlock_wrlock me l).0 ≢ some Code.ok → (rwlock_wrlock me l).1 ≡ l
unfolding rwlock_wrlock
wrlock-refused me l h = ground (arith, h, trywrlock-refused me l)

unlock-refused :
    (me : ℕ) (l : Rwlock) → (rwlock_unlock me l).0 ≢ Code.ok → (rwlock_unlock me l).2 ≡ l
unfolding rwlock_unlock
unlock-refused me l h = ground (arith, h)

Call-Says :
    (w v : World) → Call w v → Says w.lock w.reading w.writing → Says v.lock v.reading v.writing
Call-Says _ _ (Call.read me w h) s = read-Says w.lock me w.reading w.writing s h
Call-Says _ _ (Call.read_wait me w h) s =
    subst (λ l. Says l (me ∷ w.reading) w.writing) (sym (rdlock-lock w.lock me))
      (read-Says w.lock me w.reading w.writing s (rdlock-ok w.lock me h))
Call-Says _ _ (Call.write me w h) s = write-Says w.lock me w.reading w.writing s h
Call-Says _ _ (Call.write_wait me w h) s = wrlock-Says w.lock me w.reading w.writing s h
Call-Says _ _ (Call.unlock_read me w h) s = unlock_read-Says w.lock me w.reading w.writing s h
Call-Says _ _ (Call.unlock_write me w h) s = unlock_write-Says w.lock me w.reading w.writing s h
Call-Says _ _ (Call.read_refused w h) s =
    subst (λ l. Says l w.reading w.writing) (sym (tryrdlock-refused w.lock h)) s
Call-Says _ _ (Call.read_wait_refused me w h) s =
    subst (λ l. Says l w.reading w.writing) (sym (rdlock-refused me w.lock h)) s
Call-Says _ _ (Call.write_refused me w h) s =
    subst (λ l. Says l w.reading w.writing) (sym (trywrlock-refused me w.lock h)) s
Call-Says _ _ (Call.write_wait_refused me w h) s =
    subst (λ l. Says l w.reading w.writing) (sym (wrlock-refused me w.lock h)) s
Call-Says _ _ (Call.unlock_refused me w h) s =
    subst (λ l. Says l w.reading w.writing) (sym (unlock-refused me w.lock h)) s

Calls-Says :
    (w v : World) → Calls w v → Says w.lock w.reading w.writing → Says v.lock v.reading v.writing
Calls-Says _ _ (Calls.stop w) s = s
Calls-Says _ _ (Calls.next u v w c cs) s = Calls-Says v w cs (Call-Says u v c s)

abbrev pub start : World
start = record { lock = rwlock_init; reading = []; writing = none }

-- Through any sequence of calls on a new lock, refused ones too, by threads whose unlocks are refused or are of what they
-- hold: while a thread writes, no thread reads, the lock's word is -1 and names the writer; while none writes, the
-- word is the number of read locks that are held, and names nobody.
pub rwlock-holders : (w : World) → Calls start w → Says w.lock w.reading w.writing
rwlock-holders w c = Calls-Says start w c (refl, refl)
