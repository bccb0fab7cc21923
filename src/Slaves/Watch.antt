-- ===== src/Slaves/Watch.antt =====
-- SlaveManager::checkBadAndLost and increaseRetryCount: which slaves are given up.
pub mod Votes
use sector_sphere.Base.{
  ℕ, suc, ◌*◌, ℤ, pos, negsuc, Map, Bool, true, false, Option, none, some, List, [], ◌∷◌, length,
  if◌then◌else◌, ltb, sub64,
}
use sector_sphere.Base.Maps
use sector_sphere.Base.Sets
use sector_sphere.Base.Keys.{nat_key}
use sector_sphere.Address.{Address, addr_key}
use sector_sphere.Slaves.{SlaveNode, SlaveManager}

-- CTimer::getTime is unsigned, and so is the difference.
unfoldable pub expire : ℕ → SlaveNode → SlaveNode
expire now s =
    if ltb (24 * 60 * 3600 * 1000000) (sub64 s.last_vote_time now)
    then record s { bad_vote = []; last_vote_time = now }
    else s

abbrev pub address : SlaveNode → Address
address s = record { ip = s.ip; port = s.port }

unfoldable pub expire_all : ℕ → Map ℕ SlaveNode → Map ℕ SlaveNode
unfolding expire
expire_all now [] = []
expire_all now ((i, s) ∷ slaves) = (i, expire now s) ∷ expire_all now slaves

-- The slaves with votes of more than half of a number of slaves.
unfoldable pub bad_ones : ℕ → Map ℕ SlaveNode → Map ℕ Address
bad_ones total [] = []
bad_ones total ((i, s) ∷ slaves) =
    let rest = bad_ones total slaves in
    if ltb total (length s.bad_vote * 2) then (i, address s) ∷ rest else rest

unfoldable pub lost_ones : Map ℕ SlaveNode → Map ℕ Address
lost_ones [] = []
lost_ones ((i, s) ∷ slaves) =
    let rest = lost_ones slaves in if ltb 10 s.retry_num then (i, address s) ∷ rest else rest

unfoldable pub check_bad_and_lost : ℕ → SlaveManager → SlaveManager × Map ℕ Address × Map ℕ Address
unfolding expire_all bad_ones lost_ones
check_bad_and_lost now m =
    let slaves = expire_all now m.slave_list in
    (record m { slave_list = slaves }, bad_ones (length m.slave_list) slaves, lost_ones slaves)

unfoldable pub increase_retry_count : Address → SlaveManager → SlaveManager × ℤ
increase_retry_count addr m = elim (Maps.find addr m.addr_list) [
  | none ↦ (m, negsuc 0)
  | some a ↦ elim (Maps.find a m.slave_list) [
    | none ↦ (m, negsuc 0)
    | some s ↦ (
      record m { slave_list = Maps.put a (record s { retry_num = suc s.retry_num }) m.slave_list },
      pos 0,
    )
  ]
]
