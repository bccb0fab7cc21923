-- ===== src/Master.antt =====
-- master/master.h and master/master.cpp, class Master: its state, the requests that it gets and the
-- messages that it sends. A request holds the fields that the code reads from the message's bytes, and so
-- does a message that is sent. Requests are handled one after another.
mod Names
pub mod Files
pub mod Open
pub mod System
pub mod Sync
pub mod Sphere
pub mod Replicas
pub mod Dispatch
mod Guards
mod Setup
mod Examples
pub mod Access
pub mod Opened
pub mod Life
pub mod Run
pub mod Followers
pub mod Joins
unfoldable pub use Names.*
use sector_sphere.Base.{
  ℕ, ◌-◌, ◌/◌, ◌%◌, ℤ, pos, negsuc, Text, Map, Set, Bool, true, false, Option, none, some, List, [],
  ◌∷◌, ◌++◌, if◌then◌else◌, ◌==◌, ltb,
}
use sector_sphere.Address.{Address}
use sector_sphere.Index.Tree.{Attr, SNode}
use sector_sphere.Index.Saved.{blank_node}
use sector_sphere.Meta.{LockTable}
use sector_sphere.Trans.{TransManager}
use sector_sphere.User.{User, UserManager}
use sector_sphere.Routing.{Routing, get_num_of_masters}
use sector_sphere.Slaves.{SlaveNode, SlaveManager}
use sector_sphere.Topology.Cluster.{Cluster}

-- replica_num is m_SysConfig.m_iReplicaNum, slave_list and last_update are m_vSlaveList and
-- m_llLastUpdateTime.
pub record Master : Type 0 where
  pub metadata : SNode
  pub locks : LockTable
  pub slaves : SlaveManager
  pub trans : TransManager
  pub users : UserManager
  pub routing : Routing
  pub router_key : ℕ
  pub to_be_replicated : List Text
  pub on_replicate : Set Text
  pub slave_list : List Address
  pub last_update : ℕ
  pub replica_num : ℕ
  pub start_time : ℕ

-- What comes from outside: the random choices of the slave manager, the blank node that its maps make,
-- the hash of paths, the clock, whether a slave answers
-- an rpc without an error, whether it takes
-- the order to copy a file, and whether one starts a job.
pub record World : Type 0 where
  pub inet_pton : Text → ℤ × ℕ
  pub coin : ℕ → Bool
  pub first : ℕ → ℕ
  pub picks : ℕ → ℕ → ℕ
  pub blank : SlaveNode
  pub hash : Text → ℕ
  pub now : ℕ
  pub answers : SlaveNode → Bool
  pub reachable : SlaveNode → Text → Bool
  pub starts : Address → Bool

-- Who sent a request.
pub record Client : Type 0 where
  pub ip : Text
  pub port : ℕ
  pub user : User
  pub key : ℕ

-- The message types 101 to 107 and 110.
pub data FsRequest : Type 0 where
  ls : Text → FsRequest
  stat : Text → FsRequest
  mkdir : Text → FsRequest
  mv : Text → Text → FsRequest
  rm : Text → FsRequest
  cp : Text → Text → FsRequest
  touch : Text → ℕ → FsRequest
  open_file : ℕ → ℕ → Text → Text → FsRequest

-- What a slave is told to do with a file that is opened.
pub record Order : Type 0 where
  pub source : Address
  pub target : Address
  pub key : ℕ
  pub mode : ℕ
  pub trans_id : ℕ
  pub path : Text

-- The messages 1100, 1103, 1104 (in two forms), 1105 and 1107 between masters.
pub data Change : Type 0 where
  reported : ℕ → Address → List Attr → Change
  made_dir : Text → Change
  renamed : Text → Text → Text → Change
  moved : Text → Text → Change
  deleted : Text → Change
  touched : Text → ℕ → Change

-- The message of serializeSysStat. A cluster and a slave stand for their fields that it holds.
pub record SysStat : Type 0 where
  pub start_time : ℕ
  pub disk_space : ℕ
  pub data_size : ℕ
  pub file_num : ℕ
  pub num_slaves : ℕ
  pub cluster_info : List Cluster
  pub master_info : List Address
  pub slave_info : List SlaveNode

pub data Reply : Type 0 where
  rejected : ℤ → Reply
  echoed : Reply
  listing : Text → Reply
  status : Text → Set Address → Reply
  opened : Address → ℕ → ℕ → Reply
  masters : ℕ → Map ℕ Address → Reply
  data_info : List Text → Reply
  spes : List (Text × (ℕ × ℕ)) → Reply
  started : ℕ → Reply
  probed : Bool → Reply
  statistics : SysStat → Reply

-- What is sent: the answer, a request passed on to a slave, the new place of a file, an order to open a file,
-- a file to replicate, a job to start, a change for other masters, and the word that a slave is lost.
pub data Sent : Type 0 where
  to_client : Reply → Sent
  forward : Address → FsRequest → Sent
  relocate : Address → Text → Text → Text → Sent
  order : Address → Order → Sent
  replicate : Address → ℕ → ℕ → Text → Text → Sent
  start : Address → ℕ → Text → ℕ → ℕ → Sent
  sync : Map ℕ Address → Change → Sent
  lost : Map ℕ Address → ℕ → Sent

-- The new state and what is sent; `none` where the C++ is undefined or throws.
abbrev pub Outcome : Type 0
Outcome = Option (Master × List Sent)

abbrev pub reject : ℤ → Master → Outcome
reject code m = some (m, to_client (rejected code) ∷ [])

-- All masters but the one with the key.
unfoldable pub others : ℕ → Map ℕ Address → Map ℕ Address
others key [] = []
others key ((k, a) ∷ al) = let rest = others key al in if k == key then rest else (k, a) ∷ rest

-- Master::sync
abbrev pub sync_all : Change → Master → List Sent
sync_all c m = sync (others m.router_key m.routing.address_list) c ∷ []

-- The same behind the test for more than one master.
abbrev pub sync_many : Change → Master → List Sent
sync_many c m = if ltb 1 (get_num_of_masters m.routing) then sync_all c m else []

abbrev pub address_of : SlaveNode → Address
address_of s = record { ip = s.ip; port = s.port }

abbrev pub forward_all : FsRequest → List Address → List Sent
forward_all r [] = []
forward_all r (a ∷ l) = forward a r ∷ forward_all r l

abbrev pub is_neg : ℤ → Bool
is_neg (pos n) = false
is_neg (negsuc n) = true
