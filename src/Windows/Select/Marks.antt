-- ===== src/Windows/Select/Marks.antt =====
-- Which descriptors the marks of `sppc_select` of windows.h leave in the sets.
use sppc.Common.{
  ℕ, ◌+◌, ◌≡◌, refl, ap, sym, ◌∙◌, Bool, true, false, ◌&&◌, ◌||◌, Option, none, some, List, [], ◌∷◌,
  ◌==◌, inl, inr, if◌then◌else◌, Bool-cases,
}
use sppc.Windows.Poll.{Entry, pollin, pollout}
use sppc.Windows.Select.{
  FdSet, has, Sets, any_of, with_fd, mark_one, mark_entry, mark_loop, pollpri, read_events,
  write_events, except_events,
}

abbrev pub is_set : Option FdSet → Bool
is_set none = false
is_set (some f) = true

-- The descriptor of an entry.
abbrev pub names : Option ℕ → ℕ → Bool
names none x = false
names (some fd) x = x == fd

abbrev pub meets : ℕ → ℕ → Entry → Bool
meets ask meet e = any_of e.events ask && any_of e.revents meet

-- Whether the entries report such events of a descriptor.
abbrev pub told : ℕ → ℕ → List Entry → ℕ → Bool
told ask meet [] x = false
told ask meet (e ∷ es) x = (meets ask meet e && names e.fd x) || told ask meet es x

or_if : (a b : Bool) → (if b then true else a) ≡ (a || b)
or_if true true = refl
or_if true false = refl
or_if false true = refl
or_if false false = refl

or_false : (a : Bool) → (a || false) ≡ a
or_false true = refl
or_false false = refl

or_assoc : (a b c : Bool) → ((a || b) || c) ≡ (a || (b || c))
or_assoc true b c = refl
or_assoc false b c = refl

with_fd-has : (o : Option ℕ) (f : FdSet) (x : ℕ) → with_fd o f x ≡ (f x || names o x)
unfolding with_fd
with_fd-has none f x = sym (or_false (f x))
with_fd-has (some fd) f x = or_if (f x) (x == fd)

-- What a set names by one mark.
mark_one-names :
    (ask meet : ℕ) (e : Entry) (o : Option FdSet) (x : ℕ)
    → has (mark_one ask meet e o).0 x
      ≡ (has o x || (is_set o && (meets ask meet e && names e.fd x)))
unfolding mark_one
mark_one-names ask meet e none x = refl
mark_one-names ask meet e (some f) x = elim (Bool-cases (meets ask meet e)) [
  | inl yes_meets ↦ rw yes_meets (with_fd-has e.fd f x)
  | inr no_meets ↦ rw no_meets (sym (or_false (f x)))
]

mark_one-is_set :
    (ask meet : ℕ) (e : Entry) (o : Option FdSet) → is_set (mark_one ask meet e o).0 ≡ is_set o
unfolding mark_one
mark_one-is_set ask meet e none = refl
mark_one-is_set ask meet e (some f) = elim (Bool-cases (meets ask meet e)) [
  | inl yes_meets ↦ rw yes_meets refl
  | inr no_meets ↦ rw no_meets refl
]

-- One of the three sets, with what it asks and what it takes.
pub data Which : Type 0 where
  reading writing exceptional : Which

abbrev pub of : Which → Sets → Option FdSet
of Which.reading s = s.reads
of Which.writing s = s.writes
of Which.exceptional s = s.excepts

abbrev pub ask_of : Which → ℕ
ask_of Which.reading = pollin
ask_of Which.writing = pollout
ask_of Which.exceptional = pollpri

abbrev pub meet_of : Which → ℕ
meet_of Which.reading = read_events
meet_of Which.writing = write_events
meet_of Which.exceptional = except_events

abbrev pub marked : Which → Entry → Sets → Option FdSet
marked w e s = (mark_one (ask_of w) (meet_of w) e (of w s)).0

mark_entry-of : (w : Which) (e : Entry) (s : Sets) → of w (mark_entry e s).0 ≡ marked w e s
unfolding mark_entry
mark_entry-of Which.reading e s = refl
mark_entry-of Which.writing e s = refl
mark_entry-of Which.exceptional e s = refl

chain :
    (old here : Bool) (given now rest end : Bool)
    → now ≡ (old || (given && here))
    → end ≡ (now || (given && rest))
    → end ≡ (old || (given && (here || rest)))
chain old here true now rest end h k = k ∙ ap (λ b. b || rest) h ∙ or_assoc old here rest
chain old here false now rest end h k = k ∙ or_false now ∙ h

pub mark_loop-names :
    (w : Which) (es : List Entry) (s : Sets) (total x : ℕ)
    → has (of w (mark_loop es s total).0) x
      ≡ (has (of w s) x || (is_set (of w s) && told (ask_of w) (meet_of w) es x))
unfolding mark_loop
mark_loop-names w [] s total x = nothing (has (of w s) x) (is_set (of w s))
  where
    nothing : (a b : Bool) → a ≡ (a || (b && false))
    nothing a true = sym (or_false a)
    nothing a false = sym (or_false a)
mark_loop-names w (e ∷ es) s total x =
    let t = (mark_entry e s).0 in
    let rest = mark_loop-names w es t (total + (mark_entry e s).1) x in
    let same = mark_entry-of w e s in
    let set : is_set (of w t) ≡ is_set (of w s) =
      ap is_set same ∙ mark_one-is_set (ask_of w) (meet_of w) e (of w s) in
    let own : has (of w t) x ≡ (
        has (of w s) x || (is_set (of w s) && (meets (ask_of w) (meet_of w) e && names e.fd x))) =
      ap (λ o. has o x) same ∙ mark_one-names (ask_of w) (meet_of w) e (of w s) x in
    chain (has (of w s) x) (meets (ask_of w) (meet_of w) e && names e.fd x) (is_set (of w s))
      (has (of w t) x) (told (ask_of w) (meet_of w) es x) _ own
      (rest ∙ ap (λ b. has (of w t) x || (b && told (ask_of w) (meet_of w) es x)) set)
