-- ===== src/Async/Stacks/Examples.antt =====
-- The stacks of headers/sppc/async/vmem.h on a runtime with one cached stack.
use sppc.Common.{◌≡◌, refl, true, false, none, some, [], ◌∷◌, arith}
use sppc.Async.{Runtime}
use sppc.Async.Slots.{blank}
use sppc.Async.Stacks.{Kernel, map_stack, stack_unmap, set_guard_pages}
use sppc.Async.Stacks.Guard.{guard-flip_unmaps}

abbrev kernel : Kernel
kernel = record { page_size = 4096; mmap = some 65536; mprotect_ok = true }

abbrev cached : Runtime
cached = record {
  current = 0;
  rq_head = none;
  rq_tail = none;
  free_slots = none;
  zombies = none;
  task = λ i. blank 1;
  nslots = 1;
  cslots = 64;
  live = 1;
  stack_size = 65536;
  page = 4096;
  guard = true;
  stack_cache = 1048576 ∷ [];
  cached_size = 65536;
  inflight = 0;
  unsafe_stack_ptr = none;
  unmapped = [];
}

abbrev bare : Runtime
bare = record cached { stack_cache = []; guard = false }

guard-flip_unmaps_example :
    ((map_stack kernel 65536 bare).0 ≡ some 65536)
    × ((stack_unmap kernel 65536 65536
          (set_guard_pages kernel true (map_stack kernel 65536 bare).1)).unmapped
        ≡ (61440, 69632) ∷ [])
guard-flip_unmaps_example =
    guard-flip_unmaps kernel kernel 65536 65536 bare (omega arith) refl refl refl
