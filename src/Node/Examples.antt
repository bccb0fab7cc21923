-- ===== src/Node/Examples.antt =====
-- Nodes and their texts at concrete inputs.
use sector_sphere.Base.{
  ◌≡◌, ◌^◌, ◌-◌, ◌+◌, ◌≤◌, refl, false, true, Option, some, none, length, arith, pos, negsuc, [],
  ◌∷◌, codes,
}
use sector_sphere.Address.{Address, addr_key}
use sector_sphere.Index.Tree.{Attr}
use sector_sphere.Node.{serialize, deserialize}
use sector_sphere.Node.RoundTrip.{Fits, taken, deserialize-serialize_node}
use sector_sphere.Node.Bounds.{room, serialize-room}

abbrev first : Address
first = record { ip = codes "10.0.0.1"; port = 9000 }

abbrev second : Address
second = record { ip = codes "10.0.0.2"; port = 65535 }

abbrev node : Attr
node = record {
  name = codes "a,b";
  is_dir = false;
  location = first ∷ second ∷ [];
  time_stamp = 2 ^ 64 - 1;
  size = 4096;
  checksum = [];
}

abbrev other : Attr
other = record {
  name = codes "x";
  is_dir = true;
  location = second ∷ [];
  time_stamp = 3;
  size = 0;
  checksum = codes "sum";
}

written : serialize node ≡ codes "3,a,b,0,-1,4096,10.0.0.1,9000,10.0.0.2,65535"
unfolding serialize sector_sphere.Base.Decimal.print32 sector_sphere.Base.Decimal.print64
written = refl

-- The port is missing, and the text ends with the name.
cut_short :
    deserialize (codes "1,z,0,7,8,10.0.0.1") other
    ≡ some (record other { name = codes "z"; is_dir = false; time_stamp = 7; size = 8 }, negsuc 0)
unfolding deserialize sector_sphere.Node.restore_name sector_sphere.Base.Decimal.atoi
    sector_sphere.Node.restore sector_sphere.Node.fields
cut_short = refl

behind : deserialize (codes "1,z") other ≡ none
unfolding deserialize sector_sphere.Node.restore_name sector_sphere.Base.Decimal.atoi
behind = refl

node-Fits : Fits node
node-Fits = record { time_word = ground arith; size_word = ground arith; plain = ground arith }

deserialize-serialize_node_example :
    deserialize (serialize node) other ≡ some (taken node other, pos 0)
unfolding serialize
deserialize-serialize_node_example =
    deserialize-serialize_node node other node-Fits (ground (arith, serialize-room node node-Fits))

serialize-room_example :
    (length node.name + room 3 node.location + 8 ≤ length (serialize node))
    × (length (serialize node) ≤ length node.name + room 7 node.location + 56)
serialize-room_example = serialize-room node node-Fits
