-- ===== src/Topology/Examples.antt =====
-- Two racks, "10.0.1.*" and "10.0.2.*", of one network.
use sector_sphere.Base.{ℕ, ◌≡◌, ℤ, pos, codes, Text, [], ◌∷◌, arith, if◌then◌else◌}
use sector_sphere.Base.Keys.{text_eq}
use sector_sphere.Address.{addr_key}
use sector_sphere.Topology.{Topology, distance}
use sector_sphere.Topology.Distance.{IsValid, distance_laws}

abbrev racks : Topology
racks = record {
  level = 2;
  topo_map =
      record { ip = 167772416; mask = 4294967040; path = 1 ∷ 1 ∷ [] }
      ∷ record { ip = 167772672; mask = 4294967040; path = 1 ∷ 2 ∷ [] }
      ∷ [];
}

-- The addresses of three hosts, whose names are "a", "b" and any other.
abbrev inet_pton : Text → ℤ × ℕ
inet_pton ip = (
  pos 1,
  if text_eq ip (codes "a")
      then 167772417
      else if text_eq ip (codes "b")
      then 167772418
      else 167772673,
)

racks-IsValid : IsValid racks
racks-IsValid = record { paths = ground arith; word = omega arith }

distance_laws_example :
    distance inet_pton (codes "a") (codes "b") racks
    ≡ distance inet_pton (codes "b") (codes "a") racks
distance_laws_example =
    (distance_laws inet_pton (codes "a") (codes "b") (codes "c") racks racks-IsValid).0
