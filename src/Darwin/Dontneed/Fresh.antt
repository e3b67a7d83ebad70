-- ===== src/Darwin/Dontneed/Fresh.antt =====
-- What Darwin's DONTNEED maps anew, and when it maps nothing.
use sppc.Common.{
  ℕ, suc, ◌-◌, ◌%◌, ◌≤◌, ◌<◌, ◌≡◌, ◌≢◌, refl, not, Option, some, List, [], ◌==◌, arith, leb,
  if-either, All, ◌⊎◌, inl, inr, zero,
}
use sppc.Errno.{einval}
use sppc.Darwin.Dontneed.{
  Kernel, Mapped, Calls, replace_loop, passed, hinted, page_end, madvise_dontneed,
}
use sppc.Darwin.Dontneed.Passes.{
  Answers, Inside, Fails, Covered, replace_loop-Replaced, check_loop-ends,
}

-- What a call leaves: it has mapped anew only memory to be replaced, in the pages of the range; EINVAL with anything mapped
-- is that of a mapping of the second pass; and success has mapped all that was to be replaced.
abbrev pub Dropped : Kernel → Calls → ℕ → ℕ → Option (ℕ × List Mapped) → Type 0
Dropped k c start end o =
    (e : ℕ) × (log : List Mapped) × (o ≡ some (e, log))
    × (e ≡ einval → (log ≡ []) ⊎ Fails c start end)
    × All (Inside k start end) log
    × (e ≡ 0 → (x : ℕ) → start ≤ x → x < end → Covered k log x)

nothing : (k : Kernel) (c : Calls) (start end e : ℕ) → e ≢ 0 → Dropped k c start end (some (e, []))
nothing k c start end e bad = (e, [], refl, (λ _. inl refl), tt, λ h. absurd (bad h))

passed-Dropped :
    (k : Kernel) (c : Calls) (start end e : ℕ)
    → Answers k
    → Dropped k c start end (passed (replace_loop (suc (end - start)) k c start end) e)
passed-Dropped k c start end zero ok =
    let (e, log, ran, valid, all, whole) =
      replace_loop-Replaced (suc (end - start)) k c start end ok (omega arith) in
    (e, log, ran, (λ h. inr (valid h)), all, whole)
passed-Dropped k c start end (suc e) ok = nothing k c start end (suc e) λ h. omega (arith, h)

hinted-Dropped :
    (k : Kernel) (c : Calls) (start end hint : ℕ) (o : Option (ℕ × List Mapped))
    → Dropped k c start end o
    → Dropped k c start end (hinted hint o)
hinted-Dropped k c start end zero o d = d
hinted-Dropped k c start end (suc e) o d = nothing k c start end (suc e) λ h. omega (arith, h)

-- A call for at least a byte ends, where the kernel answers with the region of an address or one behind it: it has mapped
-- anew only memory to be replaced, in the pages of the range; with EINVAL it has mapped nothing, unless a mapping of the
-- second pass was itself refused with EINVAL; and success has mapped anew all that was to be replaced.
pub madvise_dontneed-Dropped :
    (page hint : ℕ) (first second : Kernel) (c : Calls) (start length : ℕ)
    → Answers first
    → Answers second
    → 0 < length
    → Dropped second c start
        (page_end page start length)
        (madvise_dontneed page hint first second c start length)
unfolding madvise_dontneed
madvise_dontneed-Dropped page hint first second c start length ok1 ok2 some_bytes =
    let end = page_end page start length in
    let D = Dropped second c start end in
    let (e, checked) = check_loop-ends (suc (end - start)) first start end ok1 (omega arith) in
    if-either D (not (start % page == 0)) _ _
      (λ _. nothing second c start end einval λ h. omega (arith, h))
      λ _.
        if-either D (length == 0) _ _ (λ z. absurd (ground (arith, z)))
          λ _.
            if-either D (leb end start) _ _
              (λ _. nothing second c start end einval λ h. omega (arith, h))
              λ _.
                hinted-Dropped second c start end hint _
                  (rw checked (passed-Dropped second c start end e ok2))
