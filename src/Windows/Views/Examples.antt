-- ===== src/Windows/Views/Examples.antt =====
-- A shared mapping of a file of 5000 bytes that is written to, by pages of 4096 bytes.
use sppc.Common.{ℕ, ◌≡◌, ◌≢◌, ◌⊎◌, refl, true, none, some, [], ◌∷◌, arith}
use sppc.Windows.Views.{View, Memory, System, view_start, view_forget, view_flush_file}
use sppc.Windows.Views.Handles.{Mapped}
use sppc.Windows.Views.Mmap.{Ofd, Given, mmap_file, Mapping, mmap}
use sppc.Windows.Views.Whole.{InFile, mmap_file-Mapped}

abbrev system : System
system = record { granularity = 65536; view = λ a. some 1048576; protects = λ a. true; room = true }

abbrev file : Ofd
file = record { is_disk = true; reads = true; writes = true; handle = 4; size = some 5000 }

abbrev given : Given
given = record { reopened = some 8; duplicate = some 12 }

abbrev nothing_mapped : Memory
nothing_mapped = record { views = []; mapped = 0; handles = 3; held = 0 }

abbrev first_view : View
first_view = record { base = 1048576; start = 1052672; file = some 8 }

abbrev one_mapped : Memory
one_mapped = record { views = first_view ∷ []; mapped = 1; handles = 4; held = 0 }

maps :
    mmap system given 4096 (some file) 4096 7 1 4096 nothing_mapped
    ≡ (Mapping.view (some 1052672), one_mapped)
unfolding mmap
maps = refl

past_end :
    (mmap system given 4096 (some file) 4097 3 1 4096 nothing_mapped)
    ≡ (Mapping.view none, nothing_mapped)
unfolding mmap
past_end = refl

no_sharing :
    mmap system given 4096 (some file) 1 3 3 0 nothing_mapped ≡ (Mapping.refused, nothing_mapped)
unfolding mmap
no_sharing = refl

starts : view_start 1048576 one_mapped.views ≡ 1052672
unfolding view_start
starts = refl

flushes : view_flush_file (λ h. h) 1048576 one_mapped.views ≡ 8
unfolding view_flush_file
flushes = refl

forgets : view_forget 1048576 one_mapped ≡ record one_mapped { views = []; handles = 3 }
unfolding view_forget
forgets = refl

mmap_file-Mapped_example :
    Mapped nothing_mapped (mmap_file system given 4096 (some file) 4096 7 true 4096 nothing_mapped)
    × (((mmap_file system given 4096 (some file) 4096 7 true 4096 nothing_mapped).0 ≡ none)
        ⊎ InFile 4096 (some file) 4096 4096)
mmap_file-Mapped_example =
    mmap_file-Mapped system given 4096 (some file) 4096 7 true 4096 nothing_mapped fresh
  where
    fresh : (o : Ofd) (h : ℕ) → some file ≡ some o → given.reopened ≡ some h → h ≢ o.handle
    fresh o h e k = ground (arith, e, k)
