-- ===== src/Windows/Console.antt =====
-- headers/sppc/platform/windows.h, FD TABLE: CONSOLES: writes of UTF-8 to a console, which may end
-- part-way through a character. Bytes are numbers below 256; whether the console takes what it is
-- handed is an argument, once for each of the two calls of `_sppc_console_put`.
pub mod Parts
pub mod Conserve
use Prim.Native.Nat.{bit_and}
use sppc.Common.{
  ℕ, zero, suc, ◌+◌, ◌-◌, ◌%◌, ◌^◌, Bool, true, false, ◌&&◌, ◌||◌, not, List, [], ◌∷◌, ◌++◌, ◌==◌,
  ltb, leb, if◌then◌else◌, length, get_or, take, drop,
}

-- `_sppc_utf8_len`.
unfoldable pub utf8_len : ℕ → ℕ
utf8_len lead =
    if leb 0xF0 lead && leb lead 0xF7
    then 4
    else if leb 0xE0 lead
    then (if leb lead 0xEF then 3 else 1)
    else if leb 0xC0 lead
    then 2
    else 1

-- `(c & 0xC0) == 0x80`.
abbrev pub is_continuation : ℕ → Bool
is_continuation c = bit_and c 0xC0 == 0x80

-- The loop of `_sppc_utf8_whole`, from `back` on, with `rounds` values of it left.
unfoldable pub whole_from : ℕ → ℕ → List ℕ → ℕ
unfolding utf8_len
whole_from zero back bytes = length bytes
whole_from (suc rounds) back bytes =
    let rest = whole_from rounds (back + 1) bytes in
    let c = get_or bytes (length bytes - back) 0 in
    if ltb (length bytes) back
    then length bytes
    else if is_continuation c
    then rest
    else if ltb back (utf8_len c)
    then length bytes - back
    else length bytes

-- `_sppc_utf8_whole`.
unfoldable pub utf8_whole : List ℕ → ℕ
unfolding whole_from
utf8_whole bytes = whole_from 3 1 bytes

-- What a console has shown, as the bytes it was handed, and the bytes of `pending`, `npending` of them. The conversion to
-- UTF-16 and back again is left out. For a count below 0 `MultiByteToWideChar` finds the end itself: which bytes it
-- takes then is `until_nul`, of those it is pointed at.
pub record Console : Type 0 where
  pub shown : List ℕ
  pub pending : List ℕ
  pub until_nul : List ℕ → List ℕ

-- `_sppc_console_put`: its success, and the console. It hands nothing over when there is nothing; the count is an `int`, and
-- one of 0 is refused.
unfoldable pub console_put : Bool → List ℕ → Console → Bool × Console
console_put takes [] s = (true, s)
console_put takes (c ∷ cs) s =
    let n = length (c ∷ cs) % 2 ^ 32 in
    let handed = if leb (2 ^ 31) n then s.until_nul (c ∷ cs) else take n (c ∷ cs) in
    if n == 0
    then (false, s)
    else (takes, if takes then record s { shown = s.shown ++ handed } else s)

-- The loop that finishes the pending character: the character, and the bytes left.
unfoldable pub finish_char : ℕ → List ℕ → List ℕ → List ℕ × List ℕ
finish_char want pending [] = (pending, [])
finish_char want pending (c ∷ cs) =
    let rest = finish_char want (pending ++ c ∷ []) cs in
    if ltb (length pending) want && is_continuation c then rest else (pending, c ∷ cs)

abbrev pub is_nil : List ℕ → Bool
is_nil [] = true
is_nil (_ ∷ _) = false

-- The first part of `_sppc_console_write`: the character that the last write began is finished, and
-- put when it is whole or cut short.
unfoldable pub resume : Bool → List ℕ → Console → (Bool × Console) × List ℕ
unfolding finish_char console_put utf8_len
resume takes bytes s =
    let want = utf8_len (get_or s.pending 0 0) in
    let (char, left) = finish_char want s.pending bytes in
    if is_nil s.pending || is_nil bytes
    then ((true, s), bytes)
    else if length char == want || not (is_nil left)
    then (let (ok, t) = console_put takes char s in ((ok, record t { pending = [] }), left))
    else ((true, record s { pending = char }), left)

-- The second part: the whole characters are put, and the rest kept.
unfoldable pub write_whole : Bool → List ℕ → Console → Bool × Console
unfolding utf8_whole console_put
write_whole takes bytes s =
    let n = utf8_whole bytes in
    let (ok, t) = console_put takes (take n bytes) s in
    (ok, if ok then record t { pending = t.pending ++ drop n bytes } else t)

-- `_sppc_console_write`: whether it took the bytes, all of them then, and the console.
unfoldable pub console_write : Bool → Bool → List ℕ → Console → Bool × Console
unfolding resume write_whole
console_write takes1 takes2 bytes s =
    let ((ok, t), left) = resume takes1 bytes s in
    if ok then write_whole takes2 left t else (false, t)
