-- ===== src/Darwin/Dontneed/Examples.antt =====
-- A private region of two pages and a shared one behind it, of a page of four bytes each.
use sppc.Common.{ℕ, ◌≡◌, ltb, if◌then◌else◌, refl, true, false, none, some, [], ◌∷◌, arith}
use sppc.Errno.{enomem}
use sppc.Darwin.Dontneed.{
  Inheritance, ShareMode, Basic, Kernel, Region, region_at, Calls, page_end, madvise_dontneed,
}
use sppc.Darwin.Dontneed.Passes.{Answers}
use sppc.Darwin.Dontneed.Fresh.{Dropped, madvise_dontneed-Dropped}

abbrev basic_from : ℕ → Inheritance → Basic
basic_from start inheritance = record {
  start = start;
  protection = 3;
  max_protection = 7;
  inheritance = inheritance;
  user_wired_count = 0;
}

abbrev space : Kernel
space = record {
  basic = λ a.
      if ltb a 16
      then some (basic_from 8 Inheritance.inherit_copy)
      else if ltb a 24
      then some (basic_from 16 Inheritance.inherit_share)
      else none;
  extended = λ a. some (record {
    start = a;
    size = 8;
    external_pager = false;
    share_mode = ShareMode.sm_private;
    user_tag = 0;
  });
}

abbrev calls : Calls
calls = record { mmap = λ a. 0; protect = λ a. true; inherit = λ a. true }

space-Answers : Answers space
space-Answers a b x e f = ground (arith, e, f)

abbrev old : Region
old = record {
  start = 8;
  end = 16;
  basic = basic_from 8 Inheritance.inherit_copy;
  extended = record {
    start = 8;
    size = 8;
    external_pager = false;
    share_mode = ShareMode.sm_private;
    user_tag = 0;
  };
  replace = true;
}

maps_part :
    madvise_dontneed 4 0 space space calls 12 7
    ≡ some (0, record { from = 12; len = 4; old = old } ∷ [])
unfolding madvise_dontneed region_at
maps_part = refl

in_a_hole : madvise_dontneed 4 0 space space calls 20 8 ≡ some (enomem, [])
unfolding madvise_dontneed region_at
in_a_hole = refl

madvise_dontneed-Dropped_example :
    Dropped space calls 12 (page_end 4 12 7) (madvise_dontneed 4 0 space space calls 12 7)
madvise_dontneed-Dropped_example =
    madvise_dontneed-Dropped 4 0 space space calls 12 7 space-Answers space-Answers (omega arith)
