-- ===== src/Windows/Fds/Install.antt =====
-- headers/sppc/platform/windows.h, `_sppc_fd_install`: the fd that it gives, or why it gives none.
use sppc.Common.{
  ℕ, ◌-◌, ◌≤◌, ◌<◌, ◌≡◌, ◌≢◌, refl, ap, sym, ◌∙◌, subst, Bool, true, false, Option, none, some,
  arith, length, get_elem?-set_self, Bool-cases, inl, inr, ◌⊎◌,
}
use sppc.Errno.{emfile, enomem}
use sppc.Windows.Fds.{
  Fds, Installed, named, fds_reserve, fds_set, fd_max, lowest_free, install_at, fd_install,
}
use sppc.Windows.Fds.Lowest.{reserve-room, lowest_free-some, lowest_free-none}
use sppc.Windows.Fds.Calls.{IsSized}

at_fd : {y x : ℕ} → Installed.at y ≡ Installed.at x → y ≡ x
at_fd h = cc

module _ (ok : Bool) (d : ℕ) (b : Bool) (s : Fds) where
  install_at-full : (x : ℕ) → (install_at ok d b none s).0 ≢ Installed.at x
  unfolding install_at
  install_at-full x h = cc

  install_at-taken :
      (y : ℕ)
      → (fds_reserve ok y s).0 ≡ true
      → install_at ok d b (some y) s
        ≡ (Installed.at y, (fds_set y (some d) b (fds_reserve ok y s).1).1)
  unfolding install_at
  install_at-taken y e = rw e refl

  install_at-refused :
      (y x : ℕ) → (fds_reserve ok y s).0 ≡ false → (install_at ok d b (some y) s).0 ≢ Installed.at x
  unfolding install_at
  install_at-refused y x e h = ground (arith, h, e)

  install_at-at :
      (o : Option ℕ) (x : ℕ)
      → (install_at ok d b o s).0 ≡ Installed.at x
      → (o ≡ some x)
        × ((fds_reserve ok x s).0 ≡ true)
        × ((install_at ok d b o s).1 ≡ (fds_set x (some d) b (fds_reserve ok x s).1).1)
  install_at-at none x h = absurd (install_at-full x h)
  install_at-at (some y) x h = elim (Bool-cases (fds_reserve ok y s).0) [
    | inl room ↦
        let taken = install_at-taken y room in
        let same : y ≡ x = at_fd (sym (ap (λ (p : Installed × Fds). p.0) taken) ∙ h) in
        subst
          (λ w.
            (some y ≡ some w)
            × ((fds_reserve ok w s).0 ≡ true)
            × ((install_at ok d b (some y) s).1 ≡ (fds_set w (some d) b (fds_reserve ok w s).1).1))
          same (refl, room, ap (λ (p : Installed × Fds). p.1) taken)
    | inr other ↦ absurd (install_at-refused y x other h)
  ]

  install_at-failed :
      (o : Option ℕ) (e : ℕ)
      → (install_at ok d b o s).0 ≡ Installed.failed e
      → ((o ≡ none) × (e ≡ emfile))
        ⊎ ((x : ℕ) × (o ≡ some x) × ((fds_reserve ok x s).0 ≡ false) × (e ≡ enomem))
  unfolding install_at
  install_at-failed none e h = inl (refl, ground (arith, h))
  install_at-failed (some y) e h = inr (y, refl, ground (arith, h), ground (arith, h))

  fds_set-named :
      (x : ℕ) (t : Fds) → x < length t.slots → named (fds_set x (some d) b t).1.slots x ≡ some d
  unfolding fds_set
  fds_set-named x t h =
      ground (arith, get_elem?-set_self t.slots x (record { ofd = some d; cloexec = b }) h)

-- Installing a description on a table of 1 to 65536 slots: an fd that it gives is below 65536, at
-- least the lowest asked for, named nothing before while every one below it did, and names the
-- description now; it fails with EMFILE only when every fd from the lowest to 65535 names something,
-- and with ENOMEM only when `realloc` found no memory.
pub fd_install-lowest :
    (ok : Bool) (d lowest : ℕ) (b : Bool) (s : Fds)
    → IsSized s
    → ((x : ℕ)
        → (fd_install ok d lowest b s).0 ≡ Installed.at x
        → (lowest ≤ x)
          × (x < fd_max)
          × (named s.slots x ≡ none)
          × ((y : ℕ) → lowest ≤ y → y < x → named s.slots y ≢ none)
          × (named (fd_install ok d lowest b s).1.slots x ≡ some d))
      × ((e : ℕ)
          → (fd_install ok d lowest b s).0 ≡ Installed.failed e
          → ((e ≡ emfile) × ((y : ℕ) → lowest ≤ y → y < fd_max → named s.slots y ≢ none))
            ⊎ ((e ≡ enomem) × (ok ≡ false)))
unfolding fd_install
fd_install-lowest ok d lowest b s z = (
  λ x h.
      let (o, room, out) =
        install_at-at ok d b s (lowest_free (fd_max - lowest) lowest s.slots) x h in
      let f = lowest_free-some (fd_max - lowest) lowest x s.slots o in
      let small : x < fd_max = omega (arith, f) in
      (
        f.1,
        small,
        f.0,
        f.3,
        ap (λ (t : Fds). named t.slots x) out
            ∙ fds_set-named ok d b s x (fds_reserve ok x s).1
                ((reserve-room ok x s small z.0 z.1).0 room),
      ),
  λ e h. elim (install_at-failed ok d b s (lowest_free (fd_max - lowest) lowest s.slots) e h) [
    | inl (o, v) ↦
        inl (v, λ y l m. lowest_free-none (fd_max - lowest) lowest y s.slots o l (omega arith))
    | inr (x, o, room, v) ↦
        let f = lowest_free-some (fd_max - lowest) lowest x s.slots o in
        inr (v, (reserve-room ok x s (omega (arith, f)) z.0 z.1).1 room)
  ],
)
