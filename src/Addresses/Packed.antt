-- ===== src/Addresses/Packed.antt =====
-- Addresses read back as they were packed, and how they stand in memory.
pub mod Examples
use mathlib.Core.Path.{ap₂}
use Prim.Native.Nat.{bit_and, bit_or}
use sppc.Common.{
  ℕ, ◌+◌, ◌*◌, ◌/◌, ◌%◌, ◌^◌, ◌<◌, ◌≡◌, refl, ap, ◌∙◌, Bool, true, false, List, [], ◌∷◌, arith, All,
  if◌then◌else◌,
}
use sppc.Common.Bits.{bit_and-low_mask, bit_or-fields}
use sppc.Addresses.{
  net16, SockaddrIn, SockaddrIn6, set_sockaddr_v4, set_sockaddr_v6, segment_bytes, get_sockaddr_v4,
  get_sockaddr_v6, byte_segments,
}

-- A number of 16 bits.
abbrev pub IsWord16 : ℕ → Type 0
IsWord16 v = v < 2 ^ 16

net16-swap : (v : ℕ) → IsWord16 v → net16 false v ≡ v % 2 ^ 8 * 2 ^ 8 + v / 2 ^ 8
unfolding net16
net16-swap v h =
    let e : bit_or (v * 2 ^ 8) (v / 2 ^ 8) ≡ v * 2 ^ 8 + v / 2 ^ 8 =
      bit_or-fields 8 v (v / 2 ^ 8) (omega arith) in
    omega (arith, e)

net16-net16 : (big : Bool) (v : ℕ) → IsWord16 v → net16 big (net16 big v) ≡ v
unfolding net16
net16-net16 true v h = refl
net16-net16 false v h =
    let e = net16-swap v h in
    let small : net16 false v < 2 ^ 16 = omega (arith, e) in
    net16-swap (net16 false v) small ∙ omega (arith, e)

segments_back : (ss : List ℕ) → All IsWord16 ss → byte_segments (segment_bytes ss) ≡ ss
unfolding segment_bytes byte_segments
segments_back [] h = refl
segments_back (s ∷ ss) (w, ws) =
    let low : bit_and s 0xff ≡ s % 2 ^ 8 = bit_and-low_mask 8 s in
    let joined : bit_or (s / 2 ^ 8 % 2 ^ 8 * 2 ^ 8) (bit_and s 0xff)
        ≡ s / 2 ^ 8 % 2 ^ 8 * 2 ^ 8 + bit_and s 0xff =
      bit_or-fields 8 (s / 2 ^ 8 % 2 ^ 8) (bit_and s 0xff) (omega (arith, low)) in
    ap₂ ◌∷◌ (omega (arith, joined, low)) (segments_back ss ws)

-- On a machine of either byte order, the segments and the port of a version 6 address, each of 16 bits, are read back as
-- they were set; and the octets and the port of a version 4 address as well.
pub sockaddr-read_back :
    (big : Bool) (af_inet af_inet6 : ℕ) (octets segments : List ℕ) (port : ℕ)
    → All IsWord16 segments
    → IsWord16 port
    → (get_sockaddr_v6 big (set_sockaddr_v6 big af_inet6 segments port) ≡ (segments, port))
      × (get_sockaddr_v4 big (set_sockaddr_v4 big af_inet octets port) ≡ (octets, port))
unfolding get_sockaddr_v6 set_sockaddr_v6 get_sockaddr_v4 set_sockaddr_v4
sockaddr-read_back big af_inet af_inet6 octets segments port hs hp = (
  (λ i. (segments_back segments hs i, net16-net16 big port hp i)),
  (λ i. (octets, net16-net16 big port hp i)),
)
