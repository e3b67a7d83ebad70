-- ===== src/Async/Stacks/Guard.antt =====
-- headers/sppc/async/vmem.h: what is handed back to the kernel, with the guard page and without it.
use sppc.Common.{ℕ, ◌+◌, ◌-◌, ◌<◌, ◌≡◌, true, false, none, some, arith, [], ◌∷◌, if◌then◌else◌}
use sppc.Async.{Runtime}
use sppc.Async.Stacks.{Kernel, map_stack, stack_unmap, set_guard_pages, flush_cache, load_page}

-- The length of a mapping for `size` usable bytes.
abbrev pub mapping : Runtime → ℕ → ℕ
mapping r size = if r.guard then size + r.page else size

-- The page size is known and the kernel maps at `p`: then a stack that is obtained and handed back
-- unmaps the range that was mapped, all of it and no more, guard page included; and when the
-- mapping's protection cannot be set, the mapping is handed back and there is no stack.
pub stack_unmap-map :
    (k l : Kernel) (p size : ℕ) (r : Runtime)
    → 0 < r.page
    → k.mmap ≡ some p
    → ((u : ℕ)
        → (map_stack k size r).0 ≡ some u
        → (stack_unmap l u size (map_stack k size r).1).unmapped ≡ (p, mapping r size) ∷ r.unmapped)
      × ((map_stack k size r).0 ≡ none
          → (map_stack k size r).1.unmapped ≡ (p, mapping r size) ∷ r.unmapped)
unfolding map_stack stack_unmap load_page
stack_unmap-map k l p size r h e = (λ u o. ground arith, λ o. ground arith)

-- A stack that was mapped at `p` with no guard page, when guard pages are then switched on and no
-- stack is cached: handing it back asks for `size` bytes and a page more, from a page below `p` on.
pub guard-flip_unmaps :
    (k l : Kernel) (p size : ℕ) (r : Runtime)
    → 0 < r.page
    → r.guard ≡ false
    → r.stack_cache ≡ []
    → k.mmap ≡ some p
    → ((map_stack k size r).0 ≡ some p)
      × ((stack_unmap l p size (set_guard_pages l true (map_stack k size r).1)).unmapped
          ≡ (p - r.page, size + r.page) ∷ r.unmapped)
unfolding map_stack stack_unmap load_page set_guard_pages flush_cache
guard-flip_unmaps k l p size r h g c e = (ground arith, ground arith)
