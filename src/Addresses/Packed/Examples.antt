-- ===== src/Addresses/Packed/Examples.antt =====
-- An address of each version, packed and read back.
use sppc.Common.{ℕ, ◌≡◌, refl, arith, false, List, [], ◌∷◌}
use sppc.Addresses.{net16, set_sockaddr_v4, set_sockaddr_v6, get_sockaddr_v4, get_sockaddr_v6}
use sppc.Addresses.Packed.{sockaddr-read_back}

abbrev octets : List ℕ
octets = 127 ∷ 0 ∷ 0 ∷ 1 ∷ []

abbrev segments : List ℕ
segments = 0x2001 ∷ 0xdb8 ∷ 0 ∷ 0 ∷ 0 ∷ 0 ∷ 0 ∷ 1 ∷ []

sockaddr-read_back_example :
    (get_sockaddr_v6 false (set_sockaddr_v6 false 10 segments 8080) ≡ (segments, 8080))
    × (get_sockaddr_v4 false (set_sockaddr_v4 false 2 octets 8080) ≡ (octets, 8080))
sockaddr-read_back_example =
    sockaddr-read_back false 2 10 octets segments 8080
      (
        omega arith,
        (
          omega arith,
          (
            omega arith,
            (omega arith, (omega arith, (omega arith, (omega arith, (omega arith, tt))))),
          ),
        ),
      )
      (omega arith)

port_bytes : net16 false 0x1f90 ≡ 0x901f
unfolding net16
port_bytes = refl
