-- ===== src/Windows/Views/Handles.antt =====
-- The handles of a mapping of a file, by each of the ways to get one.
use sppc.Common.{
  ℕ, ◌+◌, ◌-◌, ◌%◌, ◌≡◌, ◌≢◌, refl, ap, ◌∙◌, Bool, true, false, ◌&&◌, Option, none, some, ◌∷◌, ◌==◌,
  inl, inr, arith, Bool-cases, Option-cases,
}
use sppc.Windows.Views.{
  View, Memory, holds, System, Ask, ask_of, view_add, list_view, map_view, executes,
}
use sppc.Windows.Views.Mmap.{Ofd, Given, is_handle, kept, map_by, map_part}

-- The memory with the mapping `p` in a view at `base`.
abbrev with_view : Memory → ℕ → ℕ → Option ℕ → Memory
with_view m base p keep = record m {
  views = record { base = base; start = p; file = keep } ∷ m.views;
  mapped = m.mapped + 1;
}

-- A view that keeps a handle which is open: the handle goes with the view, or is closed.
abbrev Viewed : Memory → Option ℕ → Option ℕ × Memory → Type 0
Viewed m keep (none, q) = q ≡ record m { handles = m.handles - holds keep }
Viewed m keep (some p, q) = (base : ℕ) × (q ≡ with_view m base p keep)

list_view-Viewed :
    (sys : System) (ask : Ask) (keep : Option ℕ) (at base : ℕ) (m : Memory)
    → Viewed m keep (list_view sys ask keep at base m)
unfolding list_view view_add
list_view-Viewed sys ask keep at base m = elim (Bool-cases (sys.protects ask)) [
  | inr bad ↦ rw bad back
  | inl good ↦ elim (Bool-cases sys.room) [
    | inr full ↦ rw (good, full) back
    | inl room ↦ rw (good, room) (base, refl)
  ]
]
  where
    back :
        record m { mapped = m.mapped + 1 - 1; handles = m.handles - holds keep }
        ≡ record m { handles = m.handles - holds keep }
    back =
        let same : m.mapped + 1 - 1 ≡ m.mapped = omega arith in
        ap (λ n. record m { mapped = n; handles = m.handles - holds keep }) same

map_view-Viewed :
    (sys : System) (file : Option ℕ) (shared writes : Bool) (prot offset length : ℕ)
    (keep : Option ℕ) (m : Memory)
    → Viewed m keep (map_view sys file shared writes prot offset length keep m)
unfolding map_view
map_view-Viewed sys file shared writes prot offset length keep m =
    elim (Option-cases (sys.view (ask_of sys file shared writes prot offset length))) [
      | inl e ↦ rw (e, map_view) refl
      | inr (base, e) ↦
          rw (e, map_view)
            (list_view-Viewed sys (ask_of sys file shared writes prot offset length) keep
              (offset % sys.granularity) base m)
    ]

-- A mapping that fails leaves the memory as it was; one that is made is the first of the list, and only what that keeps
-- stays open.
abbrev pub Mapped : Memory → Option ℕ × Memory → Type 0
Mapped m (none, q) = q ≡ m
Mapped m (some p, q) =
    (v : View) × (v.start ≡ p)
    × (q ≡ record m {
      views = v ∷ m.views;
      mapped = m.mapped + 1;
      handles = m.handles + holds v.file;
    })

-- A view by handles that are all accounted for, the last of them closed behind it.
closed-Mapped :
    (m : Memory) (n closed : ℕ) (keep : Option ℕ) (x : Option ℕ × Memory)
    → n ≡ m.handles + holds keep + closed
    → Viewed (record m { handles = n }) keep x
    → Mapped m (x.0, record x.1 { handles = (x.1).handles - closed })
closed-Mapped m n closed keep (none, q) total viewed =
    let same : n - holds keep - closed ≡ m.handles = omega (arith, total) in
    ap (λ (r : Memory). record r { handles = r.handles - closed }) viewed
    ∙ ap (λ k. record m { handles = k }) same
closed-Mapped m n closed keep (some p, q) total (base, viewed) =
    let same : n - closed ≡ m.handles + holds keep = omega (arith, total) in
    (
      record { base = base; start = p; file = keep },
      refl,
      ap (λ (r : Memory). record r { handles = r.handles - closed }) viewed
          ∙ ap
              (λ k. record m {
                views = record { base = base; start = p; file = keep } ∷ m.views;
                mapped = m.mapped + 1;
                handles = k;
              })
              same,
    )

is_handle_self : (h : ℕ) → is_handle h (some h) ≡ true
is_handle_self h = ground arith

module _ (sys : System) (g : Given) (o : Ofd) (shared : Bool) (prot at in_file : ℕ)
    (m : Memory) where
  -- By the description's own handle.
  map_by_own-Mapped : Mapped m (map_by sys g o shared prot at in_file o.handle m)
  unfolding map_by kept
  map_by_own-Mapped =
      let own : (o.handle == o.handle) ≡ true = ground arith in
      elim (Bool-cases (shared && o.writes)) [
        | inr reads ↦
            rw (own, reads)
              (closed-Mapped m (m.handles + 0) 0 none _ (omega arith) (
                map_view-Viewed sys (some o.handle) shared false prot at in_file none
                  (record m { handles = m.handles + 0 })))
        | inl writes ↦ elim (Option-cases g.duplicate) [
          | inl none_left ↦
              let same : m.handles + 0 - 0 ≡ m.handles = omega arith in
              rw (own, writes, none_left) (ap (λ k. record m { handles = k }) same)
          | inr (h, copy) ↦
              rw (own, writes, copy)
                (closed-Mapped m (m.handles + 1) 0 (some h) _ (omega arith) (
                  map_view-Viewed sys (some o.handle) shared true prot at in_file (some h)
                    (record m { handles = m.handles + 1 })))
        ]
      ]

  -- By one that was opened for it.
  map_by_new-Mapped :
      (file : ℕ)
      → file ≢ o.handle
      → Mapped m (map_by sys g o shared prot at in_file file (record m { handles = m.handles + 1 }))
  unfolding map_by kept
  map_by_new-Mapped file fresh =
      let other : (file == o.handle) ≡ false = ground arith in
      elim (Bool-cases (shared && o.writes)) [
        | inr reads ↦
            rw (other, reads)
              (closed-Mapped m (m.handles + 1 + 0) 1 none _ (omega arith) (
                map_view-Viewed sys (some file) shared false prot at in_file none
                  (record m { handles = m.handles + 1 + 0 })))
        | inl writes ↦
            rw (other, writes, is_handle_self file)
              (closed-Mapped m (m.handles + 1 + 0) 0 (some file) _ (omega arith) (
                map_view-Viewed sys (some file) shared true prot at in_file (some file)
                  (record m { handles = m.handles + 1 + 0 })))
      ]

  pub map_part-Mapped :
      ((file : ℕ) → g.reopened ≡ some file → file ≢ o.handle)
      → Mapped m (map_part sys g o shared prot at in_file m)
  unfolding map_part
  map_part-Mapped fresh = elim (Bool-cases (executes prot)) [
    | inr plain ↦ rw (plain, map_part) map_by_own-Mapped
    | inl exec ↦ elim (Option-cases g.reopened) [
      | inl e ↦ rw (exec, e, map_part) refl
      | inr (file, e) ↦ rw (exec, e, map_part) (map_by_new-Mapped file (fresh file e))
    ]
  ]
