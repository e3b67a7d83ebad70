-- ===== src/Strings/Examples.antt =====
-- Searches in short texts.
use sppc.Common.{ℕ, ◌+◌, ◌≤◌, ◌<◌, ◌≡◌, refl, Option, none, some, codes, leb, if◌then◌else◌}
use sppc.Strings.{memmem, memmem_loop, memchr, strrstr, strrstr_loop, strstr, strcasestr}
use sppc.Strings.Memory.{IsFirst, memmem-IsFirst}
use sppc.Strings.Last.{IsLast, strrstr-IsLast}

memmem-IsFirst_example :
    (o : Option ℕ) × (memmem (codes "abcabd") (codes "abd") ≡ some o)
    × ((3 ≤ 6 → IsFirst (codes "abd") (codes "abcabd") 3 o) × (6 < 3 → o ≡ none))
memmem-IsFirst_example = memmem-IsFirst (codes "abcabd") (codes "abd")

strrstr-IsLast_example :
    (o : Option ℕ) × (strrstr (codes "ababab") (codes "aba") ≡ some o)
    × IsLast (codes "aba") (codes "ababab") 7 o
strrstr-IsLast_example = strrstr-IsLast (codes "ababab") (codes "aba")

found :
    (memmem (codes "abcabd") (codes "abd") ≡ some (some 3))
    × (strrstr (codes "ababab") (codes "aba") ≡ some (some 2))
    × (strcasestr (λ c. if leb c b'Z' then c + 32 else c) (codes "a Bus") (codes "bu") 0 ≡ some 2)
unfolding memmem memmem_loop memchr strrstr strrstr_loop strstr strcasestr
found = (refl, refl, refl)
