-- ===== src/Windows/Views/Whole.antt =====
-- What a mapping leaves open, mapped and listed.
use Prim.Native.Nat.{min}
use sppc.Common.{
  ℕ, ◌+◌, ◌-◌, ◌≤◌, ◌<◌, ◌≡◌, ◌≢◌, ◌⊎◌, refl, ap, ◌∙◌, Bool, ◌&&◌, Option, none, some, ◌∷◌, inl,
  inr, arith, ltb, leb, Bool-cases, Option-cases,
}
use sppc.Windows.Views.{Memory, holds, System}
use sppc.Windows.Views.Handles.{Mapped, map_part-Mapped}
use sppc.Windows.Views.Mmap.{Ofd, Given, mappable, pages_of, mmap_file}

-- The description is let go of again.
let_go-Mapped :
    (m : Memory) (x : Option ℕ × Memory)
    → Mapped (record m { held = m.held + 1 }) x
    → Mapped m (x.0, record x.1 { held = (x.1).held - 1 })
let_go-Mapped m (none, q) same =
    let back : m.held + 1 - 1 ≡ m.held = omega arith in
    ap (λ (r : Memory). record r { held = r.held - 1 }) same ∙ ap (λ k. record m { held = k }) back
let_go-Mapped m (some p, q) (v, start, same) =
    let back : m.held + 1 - 1 ≡ m.held = omega arith in
    (
      v,
      start,
      ap (λ (r : Memory). record r { held = r.held - 1 }) same
          ∙ ap
              (λ k. record m {
                views = v ∷ m.views;
                mapped = m.mapped + 1;
                handles = m.handles + holds v.file;
                held = k;
              })
              back,
    )

-- The mapping lies in the pages of a file of a disk that starts before its end.
abbrev pub InFile : ℕ → Option Ofd → ℕ → ℕ → Type 0
InFile page ofd at length =
    (o : Ofd) × (bytes : ℕ) × (ofd ≡ some o)
    × (o.size ≡ some bytes)
    × (at < bytes)
    × (length ≤ pages_of page bytes - at)

mappable-size :
    (o : Ofd) (shared : Bool) (prot bytes : ℕ)
    → mappable o shared prot ≡ some bytes
    → o.size ≡ some bytes
unfolding mappable
mappable-size o shared prot bytes e = ground (arith, e)

-- Whatever the system answers, as long as a handle that it opens is not the description's: a mapping of a file that fails
-- leaves the list, the views, the handles and the descriptions held as they were; one that is made lies in the file's
-- pages, is listed first with where it starts, and leaves open only the handle that its view keeps.
pub mmap_file-Mapped :
    (sys : System) (g : Given) (page : ℕ) (ofd : Option Ofd) (length prot : ℕ) (shared : Bool)
    (at : ℕ) (m : Memory)
    → ((o : Ofd) (file : ℕ) → ofd ≡ some o → g.reopened ≡ some file → file ≢ o.handle)
    → Mapped m (mmap_file sys g page ofd length prot shared at m)
      × (((mmap_file sys g page ofd length prot shared at m).0 ≡ none) ⊎ InFile page ofd at length)
unfolding mmap_file
mmap_file-Mapped sys g page none length prot shared at m fresh = (refl, inl refl)
mmap_file-Mapped sys g page (some o) length prot shared at m fresh =
    elim (Option-cases (mappable o shared prot)) [
      | inl e ↦
          rw (e, mmap_file) (let_go-Mapped m (none, record m { held = m.held + 1 }) refl, inl refl)
      | inr (bytes, e) ↦ elim (Bool-cases (ltb at bytes && leb length (pages_of page bytes - at))) [
        | inr out ↦
            rw (e, out, mmap_file)
              (let_go-Mapped m (none, record m { held = m.held + 1 }) refl, inl refl)
        | inl fits ↦
            rw (e, fits, mmap_file)
              (
                let_go-Mapped m _ (
                    map_part-Mapped sys g o shared prot at (min (bytes - at) length)
                      (record m { held = m.held + 1 }) (λ file k. fresh o file refl k)),
                inr (
                  o,
                  bytes,
                  refl,
                  mappable-size o shared prot bytes e,
                  ground (arith, fits),
                  ground (arith, fits),
                ),
              )
      ]
    ]
