-- ===== src/Slaves/Watch/Votes.antt =====
-- What SlaveManager::checkBadAndLost makes of the votes.
use sector_sphere.Base.{
  ℕ, ◌^◌, ◌<◌, ◌≡◌, refl, Map, Option, none, some, [], ◌∷◌, length, if◌then◌else◌, ltb, arith, All,
}
use sector_sphere.Base.Words.{sub64}
use sector_sphere.Base.Maps
use sector_sphere.Base.Keys.{nat_key}
use sector_sphere.Address.{Address}
use sector_sphere.Slaves.{SlaveNode, SlaveManager}
use sector_sphere.Slaves.Watch.{
  expire, expire_all, bad_ones, lost_ones, address, check_bad_and_lost,
}

-- The last vote came before a time.
abbrev pub VotedBefore : ℕ → SlaveNode → Type 0
VotedBefore now s = s.last_vote_time < now

expire_always :
    (now : ℕ) (s : SlaveNode)
    → now < 2 ^ 63
    → VotedBefore now s
    → expire now s ≡ record s { bad_vote = []; last_vote_time = now }
unfolding expire sub64
expire_always now s h v = ground arith

bad_ones-expire_all :
    (now total : ℕ) (slaves : Map ℕ SlaveNode)
    → now < 2 ^ 63
    → All (λ e. VotedBefore now e.1) slaves
    → bad_ones total (expire_all now slaves) ≡ []
unfolding bad_ones expire_all
bad_ones-expire_all now total [] h v = refl
bad_ones-expire_all now total ((i, s) ∷ slaves) h v =
    rw (expire_always now s h v.0) (ground (arith, bad_ones-expire_all now total slaves h v.1))

abbrev pub lost_at : Option SlaveNode → Option Address
lost_at none = none
lost_at (some s) = if ltb 10 s.retry_num then some (address s) else none

expire_lost : (now : ℕ) (s : SlaveNode) → lost_at (some (expire now s)) ≡ lost_at (some s)
unfolding expire
expire_lost now s = ground arith

pub find-lost_ones :
    (now i : ℕ) (slaves : Map ℕ SlaveNode)
    → Maps.IsSorted slaves
    → Maps.find i (lost_ones (expire_all now slaves)) ≡ lost_at (Maps.find i slaves)
unfolding lost_ones expire_all Maps.find
find-lost_ones now i [] o = refl
find-lost_ones now i ((j, s) ∷ slaves) o =
    ground (arith, expire_lost now s, find-lost_ones now i slaves o.1, Maps.find-Above j slaves o.0)

-- SlaveManager::checkBadAndLost finds no slave bad, whatever the votes, if the last vote about each
-- slave came before the call: the votes expire first. It finds exactly those slaves lost that were
-- retried more than 10 times.
pub check_bad_and_lost_cases :
    (now i : ℕ) (m : SlaveManager)
    → now < 2 ^ 63
    → Maps.IsSorted m.slave_list
    → All (λ e. VotedBefore now e.1) m.slave_list
    → let r = check_bad_and_lost now m in
      (r.1 ≡ []) × (Maps.find i r.2 ≡ lost_at (Maps.find i m.slave_list))
unfolding check_bad_and_lost
check_bad_and_lost_cases now i m h o v = (
  bad_ones-expire_all now (length m.slave_list) m.slave_list h v,
  find-lost_ones now i m.slave_list o,
)
