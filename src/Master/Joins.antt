-- ===== src/Master/Joins.antt =====
-- How users and masters enter: Master::processUserJoin and Master::processMasterJoin, and what Master::join does to
-- the routing table of a new master. What is sent over SSL is a value.
pub mod Logins
pub mod Masters
mod Examples
use sector_sphere.Base.{
  ℕ, ◌-◌, Text, Map, Bool, Option, none, some, List, [], ◌∷◌, length, if◌then◌else◌, not,
}
use sector_sphere.Address.{Address}
use sector_sphere.Routing
use sector_sphere.Routing.{Routing}
use sector_sphere.Security.{Answer, answered, granted, is_positive}
use sector_sphere.Slaves.Members.{update_slave_list}
use sector_sphere.User
use sector_sphere.User.{User, deserialize_dirs}
use sector_sphere.Master.{Master, World, others}

-- What a client sends of itself; ukey is the key that another master has given it, or none.
pub record Login : Type 0 where
  pub name : Text
  pub password : Text
  pub ukey : ℕ
  pub port : ℕ
  pub data_port : ℕ
  pub pc_key : Text
  pub pc_iv : Text

-- What it gets: a code, or its key, and from the first master the key of this one and the other masters.
pub data Welcome : Type 0 where
  turned_away : ℕ → Welcome
  welcomed : ℕ → Option (ℕ × Map ℕ Address) → Welcome

abbrev pub session_key : ℕ → ℕ → ℕ
session_key key ukey = if is_positive ukey then ukey else key

abbrev pub user_of : World → Text → Login → ℕ → List Text → List Text → Bool → User
user_of w ip l key reads writes exec = record {
  name = l.name;
  ip = ip;
  port = l.port;
  data_port = l.data_port;
  key = key;
  pc_key = l.pc_key;
  pc_iv = l.pc_iv;
  last_refresh_time = w.now;
  read_list = reads;
  write_list = writes;
  exec = exec;
}

abbrev pub enter_user :
    World → Text → Login → ℕ → List Text → List Text → Bool → Master → Master × Welcome
enter_user w ip l key reads writes exec m = (
  record m { users = User.insert (user_of w ip l key reads writes exec) m.users },
  welcomed key (
      if is_positive l.ukey
      then none
      else some (m.router_key, others m.router_key m.routing.address_list)),
)

-- `none` where the loop over a list does not end, and where the security server would have to send the lists
-- but does not. One round for each byte of a list is enough for the loop to end if it does.
unfoldable pub process_user_join :
    World → Text → Login → Answer → Master → Option (Master × Welcome)
process_user_join w ip l (answered key) m =
    if is_positive key then none else some (m, turned_away key)
process_user_join w ip l (granted key reads writes exec) m =
    elim (deserialize_dirs (length reads) [] reads) [
      | none ↦ none
      | some r ↦ elim (deserialize_dirs (length writes) [] writes) [
        | none ↦ none
        | some wr ↦ some (enter_user w ip l (session_key key l.ukey) r wr exec m)
      ]
    ]

-- What a new master gets: a code, or the key of this one and the other masters; and what the masters and the slaves
-- hear of it. The lists of slaves and users and the metadata, which are sent too, are left out.
pub data Introduction : Type 0 where
  barred : ℕ → Introduction
  introduced : ℕ → Map ℕ Address → Introduction
  tell_masters : Map ℕ Address → ℕ → Address → Introduction
  tell_slaves : List Address → ℕ → Address → Introduction

-- The masters are told before the new one is entered, this one among them.
unfoldable pub process_master_join : World → Text → ℕ → ℕ → ℕ → Master → Master × List Introduction
process_master_join w ip port key answer m =
    let res = if is_positive answer then m.router_key else answer in
    let addr : Address = record { ip = ip; port = port } in
    let l = update_slave_list w.now m.slave_list m.last_update m.slaves in
    if not (is_positive res) then (m, barred res ∷ []) else (
      record m {
        routing = (Routing.insert key addr m.routing).0;
        slave_list = l.0;
        last_update = l.1.0;
      },
      introduced res (others m.router_key m.routing.address_list)
          ∷ tell_masters m.routing.address_list key addr
          ∷ tell_slaves l.0 key addr
          ∷ [],
    )

-- The loop of Master::join over the masters: each key is entered with `addr`, the address that was
-- connected to, and not with its own `saddr`.
unfoldable pub join_all : Address → Map ℕ Address → Routing → Routing
join_all addr [] r = r
join_all addr ((id, saddr) ∷ al) r = join_all addr al (Routing.insert id addr r).0

-- The table after an introduction by the master at an address.
unfoldable pub join_masters : Address → ℕ → Map ℕ Address → Routing → Routing
unfolding join_all
join_masters addr key al r = join_all addr al (Routing.insert key addr r).0
