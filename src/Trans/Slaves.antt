-- ===== src/Trans/Slaves.antt =====
-- The life of a transaction: its slaves report one after another (TransManager::updateSlave).
use sector_sphere.Base.{
  ℕ, ◌≡◌, ◌≢◌, refl, ◌∙◌, Set, not, ◌&&◌, Option, none, some, List, [], ◌∷◌, arith, length,
  if◌then◌else◌, ◌==◌,
}
use sector_sphere.Base.Sets
use sector_sphere.Base.Sets.{has-del}
use sector_sphere.Base.Keys.{nat_key}
use sector_sphere.Trans.{Transaction, TransManager, retrieve, reported, update_slave, update_slaves}
use sector_sphere.Trans.Ledger.{remaining, retrieve-update_slave}

-- The slaves that are left after the reports.
unfoldable pub del_all : List ℕ → Set ℕ → Set ℕ
del_all [] s = s
del_all (x ∷ xs) s = del_all xs (Sets.del x s)

pub has-del_all :
    (xs : List ℕ) (a : ℕ) (s : Set ℕ)
    → Sets.has a (del_all xs s) ≡ (not (Sets.has a xs) && Sets.has a s)
unfolding del_all Sets.has
has-del_all [] a s = refl
has-del_all (x ∷ xs) a s = ground (arith, has-del_all xs a (Sets.del x s), has-del x a s)

-- A transaction with no slave left is dropped.
abbrev pub active : Transaction → Option Transaction
active t = if length t.slave_id == 0 then none else some t

abbrev pub left : List ℕ → Transaction → Transaction
left ss t = record t { slave_id = del_all ss t.slave_id }

remaining-active :
    (s : ℕ) (t : Transaction) (l : Set ℕ)
    → t.slave_id ≡ l
    → remaining s (active t) ≡ active (left (s ∷ []) t)
unfolding reported del_all Sets.del
remaining-active s t [] e = ground arith
remaining-active s t (x ∷ l) e = ground arith

active_reports :
    (id : ℕ) (ss : List ℕ) (tm : TransManager) (t : Transaction)
    → retrieve id tm ≡ active t
    → retrieve id (update_slaves id ss tm) ≡ active (left ss t)
unfolding update_slaves del_all
active_reports id [] tm t h = h
active_reports id (s ∷ ss) tm t h =
    active_reports id ss (update_slave id s tm).0 (left (s ∷ []) t)
      (ground (arith, retrieve-update_slave id s id tm, remaining-active s t t.slave_id refl))

-- After the reports of the slaves `s ∷ ss` a transaction holds exactly the slaves that have not
-- reported, and it is in the list exactly as long as there is one.
pub update_slaves_life :
    (id s : ℕ) (ss : List ℕ) (tm : TransManager) (t : Transaction)
    → retrieve id tm ≡ some t
    → (retrieve id (update_slaves id (s ∷ ss) tm)
        ≡ active (record t { slave_id = del_all (s ∷ ss) t.slave_id }))
      × ((a : ℕ)
          → Sets.has a (del_all (s ∷ ss) t.slave_id)
            ≡ (not (Sets.has a (s ∷ ss)) && Sets.has a t.slave_id))
unfolding update_slaves del_all
update_slaves_life id s ss tm t h = (
  active_reports id ss (update_slave id s tm).0 (left (s ∷ []) t)
      (unfold reported in ground (arith, retrieve-update_slave id s id tm)),
  λ a. has-del_all (s ∷ ss) a t.slave_id,
)

-- The reports of one transaction leave every other one as it was.
pub update_slaves_other :
    (id j : ℕ) (ss : List ℕ) (tm : TransManager)
    → j ≢ id
    → retrieve j (update_slaves id ss tm) ≡ retrieve j tm
unfolding update_slaves
update_slaves_other id j [] tm h = refl
update_slaves_other id j (s ∷ ss) tm h =
    update_slaves_other id j ss (update_slave id s tm).0 h
    ∙ ground (arith, retrieve-update_slave id s j tm)
