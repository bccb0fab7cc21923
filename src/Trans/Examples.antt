-- ===== src/Trans/Examples.antt =====
-- Transactions at concrete inputs.
use sector_sphere.Base.{◌≡◌, refl, codes, [], ◌∷◌, none, arith}
use sector_sphere.Base.Maps
use sector_sphere.Base.Sets
use sector_sphere.Base.Keys.{nat_key}
use sector_sphere.Trans.{Transaction, TransManager, retrieve, update_slaves, opened}
use sector_sphere.Trans.Ledger.{IsValid}
use sector_sphere.Trans.Slaves.{update_slaves_life, del_all}

-- One transaction, of the slaves 4 and 9.
abbrev shared : Transaction
shared = record (opened 0 77 110 (codes "/a") 1 500 1) { slave_id = 4 ∷ 9 ∷ [] }

abbrev manager : TransManager
manager = record { trans_list = (1, shared) ∷ []; trans_id = 2 }

manager-IsValid : IsValid manager
unfolding retrieve Maps.find
manager-IsValid = record { sorted = (tt, tt); entry = λ i t h. ground arith }

update_slaves_life_example : retrieve 1 (update_slaves 1 (9 ∷ 4 ∷ []) manager) ≡ none
unfolding retrieve Maps.find del_all Sets.del
update_slaves_life_example = (update_slaves_life 1 9 (4 ∷ []) manager shared refl).0
