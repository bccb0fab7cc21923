-- ===== src/Topology.antt =====
-- common/topology.h and common/topology.cpp: where the slaves stand in the racks and the networks, and
-- how far apart they are. inet_pton with ntohl, the code and the address it gives, is a parameter.
pub mod Distance
pub mod Nearest
pub mod Wire
pub mod Cluster
mod Examples
use sector_sphere.Base.{
  ℕ, zero, suc, ◌+◌, ◌-◌, ◌*◌, ◌/◌, ◌%◌, ◌^◌, ℤ, pos, negsuc, Text, Set, Bool, true, false, Option,
  none, some, List, [], ◌∷◌, ◌++◌, ◌&&◌, length, if◌then◌else◌, ◌==◌, ltb,
}
use sector_sphere.Base.Sets
use sector_sphere.Base.Keys.{text_eq}
use sector_sphere.Base.Wire.{◌>>=◌}
use sector_sphere.Address.{Address, addr_key}

pub record TopoMap : Type 0 where
  pub ip : ℕ
  pub mask : ℕ
  pub path : List ℕ

pub record Topology : Type 0 where
  pub level : ℕ
  pub topo_map : List TopoMap

-- The operator & on the lowest bits of two words.
unfoldable pub bit_and : ℕ → ℕ → ℕ → ℕ
bit_and zero a b = 0
bit_and (suc n) a b = a % 2 * (b % 2) + 2 * bit_and n (a / 2) (b / 2)

unfoldable pub zeros : ℕ → List ℕ
zeros zero = []
zeros (suc n) = 0 ∷ zeros n

-- The first entry that an address belongs to.
unfoldable pub entry_of : ℕ → List TopoMap → Option TopoMap
entry_of digits [] = none
entry_of digits (i ∷ topo_map) =
    if bit_and 32 digits i.mask == bit_and 32 i.ip i.mask then some i else entry_of digits topo_map

-- The path that is passed in is replaced, or zeros are put behind it.
unfoldable pub lookup : (Text → ℤ × ℕ) → Text → List ℕ → Topology → List ℕ × ℤ
lookup inet_pton ip path t = elim (inet_pton ip).0 [
  | negsuc n ↦ (path, negsuc 0)
  | pos n ↦ elim (entry_of (inet_pton ip).1 t.topo_map) [
    | none ↦ (path ++ zeros t.level, negsuc 0)
    | some i ↦ (i.path, pos 0)
  ]
]

-- The positions before the first difference.
unfoldable pub match : List ℕ → List ℕ → ℕ
match [] p2 = 0
match (x ∷ p1) [] = 0
match (x ∷ p1) (y ∷ p2) = let rest = match p1 p2 in if x == y then suc rest else 0

-- unsigned int a - b + 1
abbrev pub minus_plus_one : ℕ → ℕ → ℕ
minus_plus_one a b = (a + 2 ^ 32 - b + 1) % 2 ^ 32

unfoldable pub distance : (Text → ℤ × ℕ) → Text → Text → Topology → ℕ
distance inet_pton ip1 ip2 t =
    let p1 = (lookup inet_pton ip1 [] t).0 in
    let p2 = (lookup inet_pton ip2 [] t).0 in
    if text_eq ip1 ip2 then 0 else minus_plus_one t.level (match p1 p2)

unfoldable pub nearest : (Text → ℤ × ℕ) → Text → Set Address → ℕ → Topology → ℕ
nearest inet_pton ip [] dist t = dist
nearest inet_pton ip (i ∷ loclist) dist t =
    let d = distance inet_pton ip i.ip t in
    nearest inet_pton ip loclist (if ltb d dist then d else dist) t

-- The overload of distance for a set of addresses.
unfoldable pub distance_to : (Text → ℤ × ℕ) → Address → Set Address → Topology → ℕ
unfolding nearest
distance_to inet_pton addr loclist t =
    if Sets.has addr loclist then 0 else nearest inet_pton addr.ip loclist 1000000000 t

-- The size in bytes of a number of entries, as an int: the low 32 bits.
abbrev pub data_size : ℕ → ℕ → ℕ
data_size n level = (8 + n * (4 + 4 + level * 4 % 2 ^ 32)) % 2 ^ 32

-- A size is less than an int, which may be negative.
abbrev pub less_size : ℕ → ℕ → Bool
less_size size d = ltb d (2 ^ 31) && ltb size d

unfoldable pub get_topo_data_size : Topology → ℕ
get_topo_data_size t = data_size (length t.topo_map) t.level

unfoldable pub put_maps : List TopoMap → List ℕ
put_maps [] = []
put_maps (i ∷ topo_map) = i.ip ∷ i.mask ∷ (i.path ++ put_maps topo_map)

-- The words that are written to a buffer of a size in bytes, and the size that is returned; `none` for -1.
unfoldable pub serialize : ℕ → Topology → Option (List ℕ × ℕ)
unfolding get_topo_data_size put_maps
serialize size t =
    if less_size size (get_topo_data_size t)
    then none
    else some (length t.topo_map ∷ t.level ∷ put_maps t.topo_map, get_topo_data_size t)

-- `none` where the C++ would read behind the buffer.
unfoldable pub get_path : ℕ → List ℕ → Option (List ℕ × List ℕ)
get_path zero p = some ([], p)
get_path (suc n) [] = none
get_path (suc n) (j ∷ p) = do (path, p) ← get_path n p; some (j ∷ path, p)

unfoldable pub get_maps : ℕ → ℕ → List ℕ → Option (List TopoMap)
get_maps zero level p = some []
get_maps (suc n) level (ip ∷ mask ∷ p) = do
  (path, p) ← get_path level p
  topo_map ← get_maps n level p
  some (record { ip = ip; mask = mask; path = path } ∷ topo_map)
get_maps (suc n) level _ = none

-- vector::resize
unfoldable pub resize : ℕ → List TopoMap → List TopoMap
resize zero topo_map = []
resize (suc n) [] = record { ip = 0; mask = 0; path = [] } ∷ resize n []
resize (suc n) (i ∷ topo_map) = i ∷ resize n topo_map

-- The words of a buffer of a size in bytes.
unfoldable pub deserialize : List ℕ → ℕ → Topology → Option (Topology × ℤ)
unfolding resize
deserialize (n ∷ level ∷ p) size t =
    if ltb size 8
    then some (t, negsuc 0)
    else if less_size size (data_size n level)
    then some (record { level = level; topo_map = resize n t.topo_map }, negsuc 0)
    else do
      topo_map ← get_maps n level p
      some (record { level = level; topo_map = topo_map }, pos 0)
deserialize _ size t = if ltb size 8 then some (t, negsuc 0) else none
