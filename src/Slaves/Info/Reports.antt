-- ===== src/Slaves/Info/Reports.antt =====
-- What a report of a slave leaves of the slaves, and of the check for lost ones.
use sector_sphere.Base.{
  ℕ, ◌≡◌, ◌↔◌, ◌⊎◌, refl, pos, true, none, some, List, if◌then◌else◌, slt64, ◌==◌, arith, nat_key,
}
use sector_sphere.Base.Maps
use sector_sphere.Base.Maps.{find, put, find-put}
use sector_sphere.Address.{Address, addr_key}
use sector_sphere.Slaves.{SlaveNode, SlaveManager}
use sector_sphere.Slaves.Watch.{check_bad_and_lost}
use sector_sphere.Slaves.Watch.Votes.{find-lost_ones, lost_at}
use sector_sphere.Slaves.Info.{deserialize, next_status, update_slave_info}

-- The slave after a report that was read as another node.
abbrev pub reported : ℕ → SlaveNode → SlaveNode
reported now s = record s {
  last_update_time = now;
  retry_num = 0;
  status = next_status s.avail_disk_space s.status;
}

next_status_full :
    (avail status : ℕ)
    → (status ≡ 1) ⊎ (status ≡ 2)
    → (next_status avail status ≡ 2) ↔ (slt64 avail 10000000000 ≡ true)
unfolding next_status
next_status_full avail status h = ground (arith, h)

known :
    (now : ℕ) (addr : Address) (info : List ℕ) (m : SlaveManager) (a : ℕ) (s s' : SlaveNode)
    → find addr m.addr_list ≡ some a
    → find a m.slave_list ≡ some s
    → deserialize info s ≡ some s'
    → update_slave_info now addr info m
      ≡ some (record m { slave_list = put a (reported now s') m.slave_list }, pos 0)
unfolding update_slave_info
known now addr info m a s s' h k d = rw (update_slave_info, h, k, d) refl

-- A report of a slave that is known, in a table where each id stands once, and which is active or full,
-- is answered by 0, if it is read within the buffer. It changes this slave only: its status is full
-- exactly if less than 10^10 bytes are free, and the check for lost slaves does not find it any more, and
-- finds the others as before.
pub update_slave_info_cases :
    (now later : ℕ) (addr : Address) (info : List ℕ) (m : SlaveManager) (a : ℕ) (s s' : SlaveNode)
    → Maps.IsSorted m.slave_list
    → find addr m.addr_list ≡ some a
    → find a m.slave_list ≡ some s
    → deserialize info s ≡ some s'
    → (s'.status ≡ 1) ⊎ (s'.status ≡ 2)
    → let m' : SlaveManager = record m { slave_list = put a (reported now s') m.slave_list } in
      (update_slave_info now addr info m ≡ some (m', pos 0))
      × (((next_status s'.avail_disk_space s'.status ≡ 2)
            ↔ (slt64 s'.avail_disk_space 10000000000 ≡ true))
          × ((i : ℕ)
              → find i (check_bad_and_lost later m').2
                ≡ (if a == i then none else lost_at (find i m.slave_list))))
unfolding check_bad_and_lost
update_slave_info_cases now later addr info m a s s' o h k d t =
    let m' : SlaveManager = record m { slave_list = put a (reported now s') m.slave_list } in
    (
      known now addr info m a s s' h k d,
      (
        next_status_full s'.avail_disk_space s'.status t,
        λ i. ground (
          arith,
          find-lost_ones later i m'.slave_list
              (Maps.put-IsSorted a (reported now s') m.slave_list o),
          find-put a i (reported now s') m.slave_list,
        ),
      ),
    )
