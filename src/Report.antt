-- ===== src/Report.antt =====
-- headers/sppc/backtrace/common.h, OUTPUT: the report buffer and the formatting that fills it. The
-- buffer is the list of its first `_sppc_bt_len` bytes; a C string is the list of the bytes before
-- its NUL. Written for a 64-bit platform.
pub mod Backtrace
pub mod Check
pub mod Contents
pub mod Examples
pub mod Flush
pub mod Numbers
pub mod Speaks
pub mod Symbols
use Prim.Native.Nat.{bit_and, min}
use sppc.Common.{
  ℕ, zero, suc, ◌+◌, ◌-◌, ◌/◌, ◌%◌, ◌^◌, Bool, true, false, ◌&&◌, ◌||◌, Option, none, some, List,
  [], ◌∷◌, ◌++◌, ◌==◌, leb, if◌then◌else◌, length, take, drop, get_or, Bytes, codes, ◌>>=◌,
}

abbrev pub buf_size : ℕ
buf_size = 65536

-- `_sppc_bt_buf` up to `_sppc_bt_len`, and what the standard error has been given.
pub record Report : Type 0 where
  pub buf : Bytes
  pub err : Bytes

-- `_sppc_bt_put_n`: `room` is a `size_t`.
unfoldable pub put_n : Bytes → ℕ → Report → Report
put_n s n r =
    let room = (buf_size + 2 ^ 64 - length r.buf) % 2 ^ 64 in
    record r { buf = r.buf ++ take (min n room) s }

-- `_sppc_bt_put`.
unfoldable pub put : Bytes → Report → Report
unfolding put_n
put s = put_n s (length s)

abbrev pub is_hex : ℕ → Bool
is_hex c = (leb b'0' c && leb c b'9') || (leb b'a' c && leb c b'f')

-- The loop of `_sppc_bt_put_symbol`, over the rounds left.
unfoldable pub all_hex_loop : ℕ → ℕ → Bytes → Bool → Bool
all_hex_loop zero i name all_hex = all_hex
all_hex_loop (suc k) i name all_hex =
    all_hex_loop k (i + 1) name (all_hex && is_hex (get_or name i 0))

-- The test of `_sppc_bt_put_symbol`: the name ends in "$h" and a hash.
unfoldable pub is_hashed : Bytes → Bool
unfolding all_hex_loop
is_hashed name =
    let n = length name in
    leb 18 n
    && ((get_or name (n - 18) 0 == b'$') && (get_or name (n - 17) 0 == b'h'))
    && all_hex_loop 16 (n - 16) name true

-- `_sppc_bt_put_symbol`.
unfoldable pub put_symbol : Bytes → Report → Report
unfolding put_n put is_hashed
put_symbol name r = if is_hashed name then put_n name (length name - 18) r else put name r

-- What `write` answers: the bytes it took, an interruption by a signal, or another failure.
pub data Wrote : Type 0 where
  took : ℕ → Wrote
  interrupted : Wrote
  refused : Wrote

-- `_sppc_bt_flush` on POSIX, from `done` on; `none` where the answers of `write` run out.
unfoldable pub flush_loop : List Wrote → ℕ → Report → Option Report
flush_loop [] done r = if leb (length r.buf) done then some (record r { buf = [] }) else none
flush_loop (Wrote.interrupted ∷ ws) done r =
    let rest = flush_loop ws done r in
    if leb (length r.buf) done then some (record r { buf = [] }) else rest
flush_loop (Wrote.refused ∷ ws) done r = some (record r { buf = [] })
flush_loop (Wrote.took zero ∷ ws) done r = some (record r { buf = [] })
flush_loop (Wrote.took (suc w) ∷ ws) done r =
    let rest =
      flush_loop ws (done + suc w) (record r { err = r.err ++ take (suc w) (drop done r.buf) }) in
    if leb (length r.buf) done then some (record r { buf = [] }) else rest

unfoldable pub flush : List Wrote → Report → Option Report
unfolding flush_loop
flush ws r = flush_loop ws 0 r

-- "0123456789abcdef"[d].
abbrev pub hex_digit : ℕ → ℕ
hex_digit d = get_or (codes "0123456789abcdef") d 0

-- The loop of `_sppc_bt_put_hex`: `i` is the index into its array, and `none` a write before it.
unfoldable pub hex_loop : ℕ → ℕ → Bytes → Option (ℕ × Bytes)
hex_loop zero v out = none
hex_loop (suc i) v out =
    let next = hex_digit (bit_and v 15) ∷ out in
    let rest = hex_loop i (v / 16) next in if v / 16 == 0 then some (i, next) else rest

-- The "0x" that `_sppc_bt_put_hex` writes before the digits.
unfoldable pub hex_prefix : ℕ × Bytes → Option Bytes
hex_prefix (suc (suc i), out) = some (b'0' ∷ b'x' ∷ out)
hex_prefix (_, out) = none

-- `_sppc_bt_put_hex`: its array has 19 bytes, the last of them the NUL.
unfoldable pub put_hex : ℕ → Report → Option Report
unfolding put hex_loop hex_prefix
put_hex v r = do digits ← hex_loop 18 v []; text ← hex_prefix digits; some (put text r)

-- The loop of `_sppc_bt_put_dec`, as `hex_loop`.
unfoldable pub dec_loop : ℕ → ℕ → Bytes → Option Bytes
dec_loop zero v out = none
dec_loop (suc i) v out =
    let next = (b'0' + v % 10) ∷ out in
    let rest = dec_loop i (v / 10) next in if v / 10 == 0 then some next else rest

-- `_sppc_bt_put_dec`: its array has 21 bytes, the last of them the NUL.
unfoldable pub put_dec : ℕ → Report → Option Report
unfolding put dec_loop
put_dec v r = do text ← dec_loop 20 v []; some (put text r)
