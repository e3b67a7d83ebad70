-- ===== src/Addresses.antt =====
-- headers/sppc/platform/common.h, SOCKET ADDRESSES: the platform's addresses packed and read back. An
-- address of version 4 has four octets; one of version 6 has eight segments, which are sixteen bytes.
pub mod Packed
use Prim.Native.Nat.{bit_and, bit_or}
use sppc.Common.{ℕ, ◌*◌, ◌/◌, ◌%◌, ◌^◌, Bool, true, false, List, [], ◌∷◌, if◌then◌else◌, replicate}

-- `_sppc_net16`, on a machine that is big-endian or is not.
unfoldable pub net16 : Bool → ℕ → ℕ
net16 endian_big v = if endian_big then v else bit_or (v * 2 ^ 8) (v / 2 ^ 8) % 2 ^ 16

-- `struct sockaddr_in`.
pub record SockaddrIn : Type 0 where
  pub sin_family : ℕ
  pub sin_port : ℕ
  pub sin_zero : List ℕ
  pub s_addr : List ℕ

-- `struct sockaddr_in6`.
pub record SockaddrIn6 : Type 0 where
  pub sin6_family : ℕ
  pub sin6_port : ℕ
  pub sin6_flowinfo : ℕ
  pub sin6_scope_id : ℕ
  pub s6_addr : List ℕ

-- `sppc_set_sockaddr_v4`; `af_inet` is the platform's number.
unfoldable pub set_sockaddr_v4 : Bool → ℕ → List ℕ → ℕ → SockaddrIn
unfolding net16
set_sockaddr_v4 endian_big af_inet octets port = record {
  sin_family = af_inet;
  sin_port = net16 endian_big port;
  sin_zero = replicate 8 0;
  s_addr = octets;
}

-- The loop of `sppc_set_sockaddr_v6`, over the segments.
unfoldable pub segment_bytes : List ℕ → List ℕ
segment_bytes [] = []
segment_bytes (s ∷ ss) = s / 2 ^ 8 % 2 ^ 8 ∷ bit_and s 0xff ∷ segment_bytes ss

-- `sppc_set_sockaddr_v6`.
unfoldable pub set_sockaddr_v6 : Bool → ℕ → List ℕ → ℕ → SockaddrIn6
unfolding net16 segment_bytes
set_sockaddr_v6 endian_big af_inet6 segments port = record {
  sin6_family = af_inet6;
  sin6_port = net16 endian_big port;
  sin6_flowinfo = 0;
  sin6_scope_id = 0;
  s6_addr = segment_bytes segments;
}

-- `sppc_get_sockaddr_v4`: the octets and the port.
unfoldable pub get_sockaddr_v4 : Bool → SockaddrIn → List ℕ × ℕ
unfolding net16
get_sockaddr_v4 endian_big addr = (addr.s_addr, net16 endian_big addr.sin_port)

-- The loop of `sppc_get_sockaddr_v6`, over the pairs of bytes.
unfoldable pub byte_segments : List ℕ → List ℕ
byte_segments [] = []
byte_segments (b ∷ []) = []
byte_segments (b ∷ c ∷ bs) = bit_or (b * 2 ^ 8) c % 2 ^ 16 ∷ byte_segments bs

-- `sppc_get_sockaddr_v6`: the segments and the port.
unfoldable pub get_sockaddr_v6 : Bool → SockaddrIn6 → List ℕ × ℕ
unfolding net16 byte_segments
get_sockaddr_v6 endian_big addr = (byte_segments addr.s6_addr, net16 endian_big addr.sin6_port)
