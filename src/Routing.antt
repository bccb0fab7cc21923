-- ===== src/Routing.antt =====
-- common/routing.h and common/routing.cpp: which of the masters is responsible for a path or a client.
-- The hash DHash::hash with the key space, and the address that a map creates, are parameters.
pub mod Table
pub mod Choice
mod Examples
use sector_sphere.Base.{
  ℕ, suc, ◌-◌, ◌%◌, ◌^◌, ℤ, pos, negsuc, Text, Map, Bool, true, false, Option, none, some, List, [],
  ◌∷◌, ◌&&◌, length, get_elem?, is_empty, if◌then◌else◌, ◌==◌, ltb,
}
use sector_sphere.Base.Maps
use sector_sphere.Base.Keys.{nat_key, text_eq}
use sector_sphere.Address.{Address, addr_eq}

pub record Routing : Type 0 where
  pub finger_table : List ℕ
  pub address_list : Map ℕ Address

abbrev pub init : Routing
init = record { finger_table = []; address_list = [] }

-- The position before the first smaller key, or the end.
unfoldable pub insert_finger : ℕ → List ℕ → List ℕ
insert_finger key [] = key ∷ []
insert_finger key (i ∷ table) = if ltb i key then key ∷ i ∷ table else i ∷ insert_finger key table

unfoldable pub insert : ℕ → Address → Routing → Routing × ℤ
insert key node r = elim (Maps.find key r.address_list) [
  | some a ↦ (r, negsuc 0)
  | none ↦ (
    record {
      finger_table = insert_finger key r.finger_table;
      address_list = Maps.put key node r.address_list;
    },
    pos 1,
  )
]

-- The first key that is equal goes.
unfoldable pub remove_finger : ℕ → List ℕ → List ℕ
remove_finger key [] = []
remove_finger key (i ∷ table) = if key == i then table else i ∷ remove_finger key table

unfoldable pub remove : ℕ → Routing → Routing × ℤ
remove key r = elim (Maps.find key r.address_list) [
  | none ↦ (r, negsuc 0)
  | some a ↦ (
    record {
      finger_table = remove_finger key r.finger_table;
      address_list = Maps.erase key r.address_list;
    },
    pos 1,
  )
]

-- The key at a position that is inside the table.
abbrev pub or_zero : Option ℕ → ℕ
or_zero none = 0
or_zero (some k) = k

-- m_vFingerTable[key % m_vFingerTable.size()]
unfoldable pub finger : ℕ → Routing → ℕ
finger key r = or_zero (get_elem? r.finger_table (key % length r.finger_table))

-- `m_mAddressList[k]` enters `blank` for a key that is missing.
unfoldable pub lookup : Address → ℕ → Address → Routing → Routing × Address × ℤ
lookup blank key node r =
    let k = finger key r in
    if is_empty r.finger_table then (r, node, negsuc 0) else elim (Maps.find k r.address_list) [
      | none ↦ (record r { address_list = Maps.put k blank r.address_list }, blank, pos 1)
      | some a ↦ (r, a, pos 1)
    ]

unfoldable pub get_entity_id : (Text → ℕ) → Text → Routing → ℤ
get_entity_id hash path r =
    if is_empty r.finger_table then negsuc 0 else pos (hash path % length r.finger_table)

-- The loop counts positions.
unfoldable pub position : ℕ → List ℕ → ℕ → ℤ
position key [] n = negsuc 0
position key (i ∷ table) n = if i == key then pos n else position key table (suc n)

unfoldable pub get_router_id : ℕ → Routing → ℤ
unfolding position
get_router_id key r = position key r.finger_table 0

-- A uint32_t returned as an int.
abbrev pub int32 : ℕ → ℤ
int32 k = if ltb k (2 ^ 31) then pos k else negsuc (2 ^ 32 - 1 - k)

unfoldable pub router_of : Address → Map ℕ Address → ℤ
router_of node [] = negsuc 0
router_of node ((k, a) ∷ list) =
    if a.port == node.port && text_eq a.ip node.ip then int32 k else router_of node list

-- The overload of getRouterID for an address.
unfoldable pub get_router_id_of : Address → Routing → ℤ
unfolding router_of
get_router_id_of node r = router_of node r.address_list

unfoldable pub match_id : ℕ → ℕ → Routing → Bool
match_id cid key r = if is_empty r.finger_table then false else key == finger cid r

unfoldable pub match_path : (Text → ℕ) → Text → ℕ → Routing → Bool
match_path hash path key r = if is_empty r.finger_table then false else key == finger (hash path) r

unfoldable pub get_primary_master : Address → Routing → Address × ℤ
get_primary_master node r = elim r.address_list [
  | [] ↦ (node, negsuc 0)
  | ka ∷ list ↦ (ka.1, pos 0)
]

unfoldable pub get_num_of_masters : Routing → ℕ
get_num_of_masters r = length r.address_list
