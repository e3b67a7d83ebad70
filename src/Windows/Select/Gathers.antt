-- ===== src/Windows/Select/Gathers.antt =====
-- What `sppc_select` of windows.h asks of `sppc_poll`, and that what the entries report was asked for.
use sppc.Common.{
  ◌<◌, ℕ, zero, suc, ◌+◌, ◌≤◌, ◌≡◌, refl, ap, sym, ◌∙◌, Bool, true, false, ◌&&◌, Option, some, List,
  [], ◌∷◌, ◌==◌, inl, inr, arith, if-either, Bool-cases, map,
}
use sppc.Windows.Poll.{Entry, pollin, pollout}
use sppc.Windows.Poll.Rounds.{asked}
use sppc.Windows.Select.{has, Sets, any_of, events_of, gather, pollpri}
use sppc.Windows.Select.Marks.{Which, of, ask_of, meet_of, names, meets, told}

-- Entries of the descriptors that the sets name, each past the one before, from `lo` and below `n`.
abbrev pub Gathered : Sets → ℕ → ℕ → List (Option ℕ × ℕ) → Type 0
Gathered s lo n [] = Unit
Gathered s lo n ((o, events) ∷ rest) =
    (fd : ℕ) × (o ≡ some fd)
    × (lo ≤ fd)
    × (fd < n)
    × (events ≡ events_of (has s.reads fd) (has s.writes fd) (has s.excepts fd))
    × Gathered s (fd + 1) n rest

pub gather-Gathered :
    (s : Sets) (lo n fd left : ℕ)
    → lo ≤ fd
    → fd + left ≡ n
    → Gathered s lo n (map asked (gather s fd left))
unfolding gather
gather-Gathered s lo n fd zero le h = tt
gather-Gathered s lo n fd (suc left) le h =
    if-either (λ es. Gathered s lo n (map asked es))
      (events_of (has s.reads fd) (has s.writes fd) (has s.excepts fd) == 0) _ _
      (λ _. gather-Gathered s lo n (fd + 1) left (omega (arith, le)) (omega (arith, h)))
      λ _. (
        fd,
        refl,
        le,
        omega (arith, h),
        refl,
        gather-Gathered s (fd + 1) n (fd + 1) left (omega arith) (omega (arith, h)),
      )

-- The events of a descriptor ask what the sets do.
events_of-asks :
    (r w x : Bool)
    → (any_of (events_of r w x) pollin ≡ r)
      × (any_of (events_of r w x) pollout ≡ w)
      × (any_of (events_of r w x) pollpri ≡ x)
unfolding events_of
events_of-asks true true true = (refl, refl, refl)
events_of-asks true true false = (refl, refl, refl)
events_of-asks true false true = (refl, refl, refl)
events_of-asks true false false = (refl, refl, refl)
events_of-asks false true true = (refl, refl, refl)
events_of-asks false true false = (refl, refl, refl)
events_of-asks false false true = (refl, refl, refl)
events_of-asks false false false = (refl, refl, refl)

asks-has :
    (w : Which) (s : Sets) (fd : ℕ)
    → any_of (events_of (has s.reads fd) (has s.writes fd) (has s.excepts fd)) (ask_of w)
      ≡ has (of w s) fd
asks-has Which.reading s fd =
    (events_of-asks (has s.reads fd) (has s.writes fd) (has s.excepts fd)).0
asks-has Which.writing s fd =
    (events_of-asks (has s.reads fd) (has s.writes fd) (has s.excepts fd)).1
asks-has Which.exceptional s fd =
    (events_of-asks (has s.reads fd) (has s.writes fd) (has s.excepts fd)).2

all_true : (a b c : Bool) → ((a && b) && c) ≡ true → (a ≡ true) × (c ≡ true)
all_true true true c h = (refl, h)
all_true true false c h = (refl, cc)
all_true false b c h = cc

-- What the entries report was asked for.
pub told-has :
    (w : Which) (s : Sets) (lo n : ℕ) (es : List Entry) (x : ℕ)
    → Gathered s lo n (map asked es)
    → told (ask_of w) (meet_of w) es x ≡ true
    → has (of w s) x ≡ true
told-has w s lo n [] x g h = cc
told-has w s lo n (e ∷ es) x (fd, at, _, _, events, g) h =
    elim (Bool-cases (meets (ask_of w) (meet_of w) e && names e.fd x)) [
      | inr no_mark ↦
          let later : told (ask_of w) (meet_of w) es x ≡ true = (rw no_mark at h) in
          told-has w s (fd + 1) n es x g later
      | inl mark ↦
          let (asks, named) =
            all_true (any_of e.events (ask_of w)) (any_of e.revents (meet_of w)) (names e.fd x)
              mark in
          let here : (x == fd) ≡ true = sym (ap (λ o. names o x) at) ∙ named in
          let same : x ≡ fd = ground (arith, here) in
          ap (has (of w s)) same
          ∙ sym (asks-has w s fd)
          ∙ ap (λ k. any_of k (ask_of w)) (sym events)
          ∙ asks
    ]
