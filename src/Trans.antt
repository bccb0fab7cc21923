-- ===== src/Trans.antt =====
-- master/transaction.h and master/transaction.cpp: the transactions that are active on the master.
-- Identifiers, keys and commands are the bit patterns of C++ ints; the clock is an argument.
pub mod Ledger
pub mod Slaves
mod Examples
use sector_sphere.Base.{
  ℕ, suc, ◌+◌, ◌%◌, ◌^◌, ℤ, pos, negsuc, Text, Map, Set, Bool, Option, none, some, List, [], ◌∷◌,
  length, if◌then◌else◌, ◌==◌,
}
use sector_sphere.Base.Maps
use sector_sphere.Base.Sets
use sector_sphere.Base.Keys.{nat_key}

pub record Transaction : Type 0 where
  pub trans_id : ℕ
  pub type : ℕ
  pub start_time : ℕ
  pub file : Text
  pub mode : ℕ
  pub slave_id : Set ℕ
  pub user_key : ℕ
  pub command : ℕ

pub record TransManager : Type 0 where
  pub trans_list : Map ℕ Transaction
  pub trans_id : ℕ

abbrev pub init : TransManager
init = record { trans_list = []; trans_id = 1 }

-- What operator[] puts under a new key.
abbrev pub blank : Transaction
blank = record {
  trans_id = 0;
  type = 0;
  start_time = 0;
  file = [];
  mode = 0;
  slave_id = [];
  user_key = 0;
  command = 0;
}

abbrev pub or_blank : Option Transaction → Transaction
or_blank none = blank
or_blank (some t) = t

abbrev pub opened : ℕ → ℕ → ℕ → Text → ℕ → ℕ → ℕ → Transaction
opened type key cmd file mode now id = record {
  trans_id = id;
  type = type;
  start_time = now;
  file = file;
  mode = mode;
  slave_id = [];
  user_key = key;
  command = cmd;
}

unfoldable pub create : ℕ → ℕ → ℕ → Text → ℕ → ℕ → TransManager → TransManager × ℕ
create type key cmd file mode now tm =
    let id = tm.trans_id in
    (
      record {
        trans_list = Maps.put id (opened type key cmd file mode now id) tm.trans_list;
        trans_id = (id + 1) % 2 ^ 32;
      },
      id,
    )

-- The entry of a transaction once `slaveid` has joined it.
unfoldable pub joined : ℕ → Option Transaction → Transaction
joined slaveid o = let t = or_blank o in record t { slave_id = Sets.add slaveid t.slave_id }

unfoldable pub add_slave : ℕ → ℕ → TransManager → TransManager × ℕ
add_slave transid slaveid tm =
    let t = joined slaveid (Maps.find transid tm.trans_list) in
    (record tm { trans_list = Maps.put transid t tm.trans_list }, transid)

unfoldable pub retrieve : ℕ → TransManager → Option Transaction
retrieve transid tm = Maps.find transid tm.trans_list

trans_of : (Transaction → Bool) → Map ℕ Transaction → List ℕ
trans_of p [] = []
trans_of p ((i, t) ∷ m) = let rest = trans_of p m in if p t then i ∷ rest else rest

unfoldable pub retrieve_slave : ℕ → TransManager → List ℕ
unfolding trans_of
retrieve_slave slaveid tm = trans_of (λ t. Sets.has slaveid t.slave_id) tm.trans_list

-- The entry of a transaction once `slaveid` has left it.
unfoldable pub reported : ℕ → Option Transaction → Transaction
reported slaveid o = let t = or_blank o in record t { slave_id = Sets.del slaveid t.slave_id }

unfoldable pub update_slave : ℕ → ℕ → TransManager → TransManager × ℕ
update_slave transid slaveid tm =
    let t = reported slaveid (Maps.find transid tm.trans_list) in
    let ret = length t.slave_id in
    let list = Maps.put transid t tm.trans_list in
    (record tm { trans_list = if ret == 0 then Maps.erase transid list else list }, ret)

unfoldable pub get_user_trans : ℕ → TransManager → List ℕ
unfolding trans_of
get_user_trans key tm = trans_of (λ t. key == t.user_key) tm.trans_list

unfoldable pub get_total_trans : TransManager → ℕ
get_total_trans tm = length tm.trans_list

-- The reports of the slaves of one transaction, as the master receives them.
unfoldable pub update_slaves : ℕ → List ℕ → TransManager → TransManager
update_slaves transid [] tm = tm
update_slaves transid (s ∷ ss) tm = update_slaves transid ss (update_slave transid s tm).0
