-- ===== src/Strings.antt =====
-- Searches in memory and in strings: `_sppc_memmem` and `_sppc_strcasestr` of headers/sppc/platform/
-- windows.h, `_sppc_strrstr` and the calls on them of headers/sppc/platform/common.h. Memory is a list
-- of bytes, a C string the list of the bytes before its NUL, and a pointer into one the offset.
pub mod Last
pub mod Memory
mod Examples
use sppc.Common.{
  ℕ, zero, suc, ◌+◌, ◌-◌, Bool, true, false, ◌&&◌, Option, none, some, List, [], ◌∷◌, ◌==◌, leb,
  ltb, if◌then◌else◌, length, take, drop, get_or, Bytes, ◌>>=◌,
}
use sppc.Errno.{enoent}

-- `memchr`.
unfoldable pub memchr : Bytes → ℕ → Option ℕ
memchr [] c = none
memchr (x ∷ xs) c =
    let later = memchr xs c >>= λ i. some (suc i) in if x == c then some 0 else later

-- Whether a text begins with another: `memcmp` with as many bytes as that has.
abbrev pub is_prefix : Bytes → Bytes → Bool
is_prefix [] ys = true
is_prefix (x ∷ xs) [] = false
is_prefix (x ∷ xs) (y ∷ ys) = (x == y) && is_prefix xs ys

-- Whether the needle stands at the offset `i` of the haystack.
abbrev pub is_at : Bytes → Bytes → ℕ → Bool
is_at needle hay i = is_prefix needle (drop i hay)

-- The loop of `_sppc_memmem` from the offset `h` on, with `first` the needle's first byte; the outer
-- `none` where the rounds run out, the inner one for NULL.
unfoldable pub memmem_loop : ℕ → ℕ → ℕ → ℕ → Bytes → Bytes → Option (Option ℕ)
unfolding memchr
memmem_loop zero h last first hay needle = none
memmem_loop (suc k) h last first hay needle =
    let found : Option (Option ℕ) = elim (memchr (take (last - h + 1) (drop h hay)) first) [
      | none ↦ some none
      | some i ↦
          let rest = memmem_loop k (h + i + 1) last first hay needle in
          if is_at needle hay (h + i) then some (some (h + i)) else rest
    ] in
    if leb h last then found else some none

-- `_sppc_memmem`, with a round for each byte of the haystack and one more.
unfoldable pub memmem : Bytes → Bytes → Option (Option ℕ)
unfolding memmem_loop
memmem hay needle =
    if length needle == 0
    then some (some 0)
    else if ltb (length hay) (length needle)
    then some none
    else memmem_loop (length hay + 2) 0 (length hay - length needle) (get_or needle 0 0) hay needle

-- The out index and the status of a search: `sppc_memmem`, `sppc_strchr`, `sppc_strrchr`, `sppc_strstr`,
-- `sppc_strrstr`, `sppc_strcasestr` and `sppc_strpbrk` end with it. The index is left as it was where
-- there is nothing to find.
unfoldable pub return_found : Option ℕ → ℕ → ℕ × ℕ
return_found none out = (enoent, out)
return_found (some i) out = (0, i)

-- `strstr` from the offset `i` on: the first place where the needle stands.
unfoldable pub strstr : Bytes → Bytes → ℕ → Option ℕ
strstr [] needle i = if is_prefix needle [] then some i else none
strstr (c ∷ cs) needle i =
    let later = strstr cs needle (i + 1) in if is_prefix needle (c ∷ cs) then some i else later

-- The loop of `_sppc_strrstr` from the offset `p` on, with the last match so far.
unfoldable pub strrstr_loop : ℕ → ℕ → Option ℕ → Bytes → Bytes → Option (Option ℕ)
unfolding strstr
strrstr_loop zero p last hay needle = none
strrstr_loop (suc k) p last hay needle = elim (strstr (drop p hay) needle p) [
  | none ↦ some last
  | some i ↦ strrstr_loop k (i + 1) (some i) hay needle
]

-- `_sppc_strrstr`, with a round for each byte of the haystack and two more.
unfoldable pub strrstr : Bytes → Bytes → Option (Option ℕ)
unfolding strrstr_loop
strrstr hay [] = some (some (length hay))
strrstr hay (c ∷ cs) = strrstr_loop (length hay + 2) 0 none hay (c ∷ cs)

-- `_strnicmp` with as many bytes as the needle has; `lower` folds the case of a byte.
abbrev pub is_prefix_folded : (ℕ → ℕ) → Bytes → Bytes → Bool
is_prefix_folded lower [] ys = true
is_prefix_folded lower (x ∷ xs) [] = false
is_prefix_folded lower (x ∷ xs) (y ∷ ys) = (lower x == lower y) && is_prefix_folded lower xs ys

-- `_sppc_strcasestr`, from the offset `i` on.
unfoldable pub strcasestr : (ℕ → ℕ) → Bytes → Bytes → ℕ → Option ℕ
strcasestr lower [] needle i = if is_prefix_folded lower needle [] then some i else none
strcasestr lower (c ∷ cs) needle i =
    let later = strcasestr lower cs needle (i + 1) in
    if is_prefix_folded lower needle (c ∷ cs) then some i else later
