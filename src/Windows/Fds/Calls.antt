-- ===== src/Windows/Fds/Calls.antt =====
-- headers/sppc/platform/windows.h: the calls on fds, and the reference counts.
use sppc.Common.{
  ℕ, zero, suc, ◌-◌, ◌≤◌, ◌<◌, ◌≡◌, refl, sym, ◌∙◌, subst, Bool, false, Option, none, some, arith,
  List, [], ◌∷◌, ◌==◌, leb, if◌then◌else◌, length, if-either,
}
use sppc.Errno.{ebadf, enomem}
use sppc.Windows.Fds.{
  Slot, Fds, Installed, ofd_retain, ofd_release, named, fd_get, fds_reserve, fds_set, fd_max,
  lowest_free, install_at, fd_install, get_named, close_named, close, dup_got, dup, dup2_onto,
  dup2_got, dup2,
}
use sppc.Windows.Fds.Count.{
  IsCounted, plus, uses, retain-IsCounted, release-IsCounted, set-IsCounted,
}
use sppc.Windows.Fds.Lowest.{reserve-Frames, reserve-room, lowest_free-some}

-- A table of a size that the source makes: at least one slot, at most 65536.
abbrev pub IsSized : Fds → Type 0
IsSized s = (0 < length s.slots) × (length s.slots ≤ fd_max)

plus_none :
    (o : Option ℕ) (s : Fds) (held : ℕ → ℕ)
    → o ≡ none
    → IsCounted s (plus o held)
    → IsCounted s held
plus_none none s held e c = record {
  exact = λ d. omega (arith, c.exact d);
  gone = λ d m. c.gone d m;
}
plus_none (some x) s held e c = cc

install_at-IsCounted :
    (ok : Bool) (d : ℕ) (b : Bool) (o : Option ℕ) (s : Fds) (held : ℕ → ℕ)
    → IsSized s
    → ((x : ℕ) → o ≡ some x → (x < fd_max) × (named s.slots x ≡ none))
    → IsCounted s (plus (some d) held)
    → IsCounted (install_at ok d b o s).1 held
unfolding install_at
install_at-IsCounted ok d b none s held z free c = release-IsCounted (some d) s held c
install_at-IsCounted ok d b (some x) s held z free c =
    let f = free x refl in
    let r = fds_reserve ok x s in
    let frame = reserve-Frames ok x s in
    let t : IsCounted r.1 (plus (some d) held) = frame.counted (plus (some d) held) c in
    if-either (λ (p : Installed × Fds). IsCounted p.1 held) r.0
      (Installed.at x, (fds_set x (some d) b r.1).1)
      (Installed.failed enomem, ofd_release (some d) r.1)
      (λ y.
        plus_none (named r.1.slots x) (fds_set x (some d) b r.1).1 held (frame.same x ∙ f.1)
          (set-IsCounted x (some d) b r.1 held ((reserve-room ok x s f.0 z.0 z.1).0 y) t))
      (λ y. release-IsCounted (some d) r.1 held t)

pub fd_install-IsCounted :
    (ok : Bool) (d lowest : ℕ) (b : Bool) (s : Fds) (held : ℕ → ℕ)
    → IsSized s
    → IsCounted s (plus (some d) held)
    → IsCounted (fd_install ok d lowest b s).1 held
unfolding fd_install
fd_install-IsCounted ok d lowest b s held z c =
    install_at-IsCounted ok d b (lowest_free (fd_max - lowest) lowest s.slots) s held z
      (λ x e.
        let f = lowest_free-some (fd_max - lowest) lowest x s.slots e in (omega (arith, f), f.0))
      c

uses-named : (d fd : ℕ) (slots : List Slot) → named slots fd ≡ some d → 0 < uses d slots
uses-named d fd [] e = cc
uses-named d zero (x ∷ xs) e = ground (arith, e)
uses-named d (suc fd) (x ∷ xs) e = omega (arith, uses-named d fd xs e)

named-below : (d fd : ℕ) (slots : List Slot) → named slots fd ≡ some d → fd < length slots
named-below d fd [] e = cc
named-below d zero (x ∷ xs) e = omega arith
named-below d (suc fd) (x ∷ xs) e = omega (arith, named-below d fd xs e)

close_named-IsCounted :
    (fd : ℕ) (o : Option ℕ) (s : Fds) (held : ℕ → ℕ)
    → named s.slots fd ≡ o
    → IsCounted s held
    → IsCounted (close_named fd o s).1 held
unfolding close_named
close_named-IsCounted fd none s held e c = c
close_named-IsCounted fd (some d) s held e c =
    let more : IsCounted s (plus none held) = record {
      exact = λ x. omega (arith, c.exact x);
      gone = λ x m. c.gone x m;
    } in
    let t = fds_set fd none false s in
    release-IsCounted t.0 t.1 held
      (set-IsCounted fd none false s held (named-below d fd s.slots e) more)

get_named-IsCounted :
    (fd : ℕ) (o : Option ℕ) (s : Fds) (held : ℕ → ℕ)
    → named s.slots fd ≡ o
    → IsCounted s held
    → IsCounted (get_named o s).1 (plus (get_named o s).0 held)
unfolding get_named
get_named-IsCounted fd none s held e c = record {
  exact = λ d. omega (arith, c.exact d);
  gone = λ d m. c.gone d m;
}
get_named-IsCounted fd (some d) s held e c =
    retain-IsCounted d s held c (omega (arith, c.exact d, uses-named d fd s.slots e))

get_named-slots : (o : Option ℕ) (s : Fds) → (get_named o s).1.slots ≡ s.slots
unfolding get_named ofd_retain
get_named-slots none s = refl
get_named-slots (some d) s = refl

dup_got-IsCounted :
    (ok : Bool) (o : Option ℕ) (s : Fds) (held : ℕ → ℕ)
    → IsSized s
    → IsCounted s (plus o held)
    → IsCounted (dup_got ok o s).1 held
unfolding dup_got
dup_got-IsCounted ok none s held z c = plus_none none s held refl c
dup_got-IsCounted ok (some d) s held z c = fd_install-IsCounted ok d 0 false s held z c

dup2_onto-IsCounted :
    (ok : Bool) (d x : ℕ) (s : Fds) (held : ℕ → ℕ)
    → IsSized s
    → x < fd_max
    → IsCounted s (plus (some d) held)
    → IsCounted (dup2_onto ok d x s).1 held
unfolding dup2_onto
dup2_onto-IsCounted ok d x s held z small c =
    let r = fds_reserve ok x s in
    let t = (reserve-Frames ok x s).counted (plus (some d) held) c in
    let u = fds_set x (some d) false r.1 in
    if-either (λ (p : ℕ × Fds). IsCounted p.1 held) r.0 (0, ofd_release u.0 u.1)
      (enomem, ofd_release (some d) r.1)
      (λ y.
        release-IsCounted u.0 u.1 held
          (set-IsCounted x (some d) false r.1 held ((reserve-room ok x s small z.0 z.1).0 y) t))
      (λ y. release-IsCounted (some d) r.1 held t)

dup2_got-IsCounted :
    (ok : Bool) (fd : ℕ) (target o : Option ℕ) (s : Fds) (held : ℕ → ℕ)
    → IsSized s
    → IsCounted s (plus o held)
    → IsCounted (dup2_got ok fd target o s).1 held
unfolding dup2_got
dup2_got-IsCounted ok fd target none s held z c = plus_none none s held refl c
dup2_got-IsCounted ok fd none (some d) s held z c = release-IsCounted (some d) s held c
dup2_got-IsCounted ok fd (some x) (some d) s held z c =
    let back = release-IsCounted (some d) s held c in
    if-either (λ (p : ℕ × Fds). IsCounted p.1 held) (leb fd_max x) (ebadf, ofd_release (some d) s)
      (if x == fd then (0, ofd_release (some d) s) else dup2_onto ok d x s) (λ y. back)
      (λ y.
        if-either (λ (p : ℕ × Fds). IsCounted p.1 held) (x == fd) (0, ofd_release (some d) s)
          (dup2_onto ok d x s) (λ q. back)
          (λ q. dup2_onto-IsCounted ok d x s held z (ground arith) c))

-- On a table of 1 to 65536 slots, with `held` references of other calls: closing, duplicating or
-- duplicating onto any fds, with memory or without, each outcome included, leaves every reference
-- count that of the fds that name the description and of `held`, and no description whose handle was
-- closed with a reference.
pub calls-IsCounted :
    (ok : Bool) (fd : ℕ) (target : Option ℕ) (s : Fds) (held : ℕ → ℕ)
    → IsSized s
    → IsCounted s held
    → IsCounted (close fd s).1 held
      × IsCounted (dup ok (some fd) s).1 held
      × IsCounted (dup2 ok fd target s).1 held
unfolding close dup dup2 fd_get
calls-IsCounted ok fd target s held z c =
    let o = named s.slots fd in
    let g = get_named o s in
    let got = get_named-IsCounted fd o s held refl c in
    let sized : IsSized g.1 =
      subst (λ (xs : List Slot). (0 < length xs) × (length xs ≤ fd_max)) (sym (get_named-slots o s))
        z in
    (
      close_named-IsCounted fd o s held refl c,
      dup_got-IsCounted ok g.0 g.1 held sized got,
      dup2_got-IsCounted ok fd target g.0 g.1 held sized got,
    )
