-- ===== src/Trans/Ledger.antt =====
-- The list of transactions: fresh identifiers, and what the queries of master/transaction.cpp find.
use sector_sphere.Base.{
  ℕ, ◌^◌, ◌<◌, ◌≡◌, ◌≢◌, refl, Text, Map, Bool, false, Option, none, some, [], ◌∷◌, arith,
  if◌then◌else◌, ◌==◌, ==_iff,
}
use sector_sphere.Base.Maps
use sector_sphere.Base.Maps.{
  find-put, find-erase, put-IsSorted, erase-IsSorted, find-Above, length-put_new,
}
use sector_sphere.Base.Sets
use sector_sphere.Base.Keys.{nat_key}
use sector_sphere.Trans.{
  Transaction, TransManager, create, retrieve, retrieve_slave, get_user_trans, trans_of,
  get_total_trans, add_slave, update_slave, init, reported, joined, opened,
}
use sector_sphere.Base.{◌+◌, length, Bool-cases, inl, inr, subst, sym, Option-cases}

-- Each entry stands under its own identifier, below the seed of the next one.
pub record IsValid (tm : TransManager) : Type 0 where
  pub sorted : Maps.IsSorted tm.trans_list
  pub entry :
      (i : ℕ) (t : Transaction) → retrieve i tm ≡ some t → (t.trans_id ≡ i) × (i < tm.trans_id)

pub init-IsValid : IsValid init
unfolding retrieve Maps.find
init-IsValid = record { sorted = tt; entry = λ i t h. cc }

-- A new transaction keeps the list well formed as long as the seed does not wrap around.
pub create-IsValid :
    (type key cmd : ℕ) (file : Text) (mode now : ℕ) (tm : TransManager)
    → tm.trans_id + 1 < 2 ^ 32
    → IsValid tm
    → IsValid (create type key cmd file mode now tm).0
unfolding create retrieve
create-IsValid type key cmd file mode now tm room v = record {
  sorted = put-IsSorted tm.trans_id _ tm.trans_list v.sorted;
  entry = λ i t h. grind (arith, find-put, v.entry i t, room);
}

-- What a report of `slaveid` leaves of a transaction.
abbrev pub remaining : ℕ → Option Transaction → Option Transaction
remaining slaveid o = let t = reported slaveid o in if length t.slave_id == 0 then none else some t

pub retrieve-update_slave :
    (transid slaveid j : ℕ) (tm : TransManager)
    → retrieve j (update_slave transid slaveid tm).0
      ≡ (if transid == j then remaining slaveid (retrieve transid tm) else retrieve j tm)
unfolding update_slave retrieve
retrieve-update_slave transid slaveid j tm =
    let t = reported slaveid (Maps.find transid tm.trans_list) in
    ground (
      arith,
      find-put transid j t tm.trans_list,
      find-erase transid j (Maps.put transid t tm.trans_list),
    )

remaining-entry :
    (slaveid i seed : ℕ) (o : Option Transaction) (t : Transaction)
    → ((u : Transaction) → o ≡ some u → (u.trans_id ≡ i) × (i < seed))
    → remaining slaveid o ≡ some t
    → (t.trans_id ≡ i) × (i < seed)
unfolding Sets.del reported
remaining-entry slaveid i seed none t e h = cc
remaining-entry slaveid i seed (some u) t e h = ground (arith, e u refl)

-- A slave's report keeps the list well formed, also where the transaction is unknown.
pub update_slave-IsValid :
    (transid slaveid : ℕ) (tm : TransManager)
    → IsValid tm
    → IsValid (update_slave transid slaveid tm).0
unfolding update_slave
update_slave-IsValid transid slaveid tm v = record {
  sorted = sorted;
  entry = λ i t h. elim (Bool-cases (transid == i)) [
    | inl e ↦
        remaining-entry slaveid i tm.trans_id (retrieve transid tm) t
          (λ u.
            subst (λ j. retrieve j tm ≡ some u → (u.trans_id ≡ i) × (i < tm.trans_id))
              (sym ((==_iff transid i).0 e)) (λ p. v.entry i u p))
          (ground (arith, retrieve-update_slave transid slaveid i tm))
    | inr e ↦ v.entry i t (ground (arith, retrieve-update_slave transid slaveid i tm))
  ];
}
  where
    t : Transaction
    t = reported slaveid (Maps.find transid tm.trans_list)

    sorted : Maps.IsSorted (update_slave transid slaveid tm).0.trans_list
    sorted =
        let s = put-IsSorted transid t tm.trans_list v.sorted in
        ground (arith, s, erase-IsSorted transid _ s)

-- Whether a transaction that may be missing passes a test.
abbrev pub passes : (Transaction → Bool) → Option Transaction → Bool
passes p none = false
passes p (some t) = p t

has-trans_of :
    (p : Transaction → Bool) (i : ℕ) (m : Map ℕ Transaction)
    → Maps.IsSorted m
    → Sets.has i (trans_of p m) ≡ passes p (Maps.find i m)
unfolding trans_of Sets.has Maps.find
has-trans_of p i [] s = refl
has-trans_of p i ((j, t) ∷ m) s = ground (arith, has-trans_of p i m s.1, find-Above j m s.0)

-- The identifiers that `retrieve` gives for a slave are those of the transactions that involve it.
pub has-retrieve_slave :
    (slaveid i : ℕ) (tm : TransManager)
    → IsValid tm
    → Sets.has i (retrieve_slave slaveid tm)
      ≡ passes (λ t. Sets.has slaveid t.slave_id) (retrieve i tm)
unfolding retrieve_slave retrieve
has-retrieve_slave slaveid i tm v = has-trans_of _ i tm.trans_list v.sorted

seed_absent : (tm : TransManager) → IsValid tm → Maps.find tm.trans_id tm.trans_list ≡ none
unfolding retrieve
seed_absent tm v = elim (Option-cases (Maps.find tm.trans_id tm.trans_list)) [
  | inl e ↦ e
  | inr (t, e) ↦ absurd (omega (arith, v.entry tm.trans_id t e))
]

-- The same for the user's key.
pub has-get_user_trans :
    (key i : ℕ) (tm : TransManager)
    → IsValid tm
    → Sets.has i (get_user_trans key tm) ≡ passes (λ t. key == t.user_key) (retrieve i tm)
unfolding get_user_trans retrieve
has-get_user_trans key i tm v = has-trans_of _ i tm.trans_list v.sorted

pub retrieve-add_slave :
    (transid slaveid j : ℕ) (tm : TransManager)
    → retrieve j (add_slave transid slaveid tm).0
      ≡ (if transid == j then some (joined slaveid (retrieve transid tm)) else retrieve j tm)
unfolding add_slave retrieve
retrieve-add_slave transid slaveid j tm = find-put transid j _ tm.trans_list

-- Only a transaction that is in the list may get slaves: a missing one would be made up.
pub add_slave-IsValid :
    (transid slaveid : ℕ) (tm : TransManager) (t : Transaction)
    → retrieve transid tm ≡ some t
    → IsValid tm
    → IsValid (add_slave transid slaveid tm).0
unfolding add_slave joined
add_slave-IsValid transid slaveid tm t p v = record {
  sorted = put-IsSorted transid _ tm.trans_list v.sorted;
  entry = λ i u h.
      ground (arith, retrieve-add_slave transid slaveid i tm, v.entry i u, v.entry transid t p);
}

-- A new transaction gets an identifier that no active one has, is found under it with what was
-- asked for and no slave, adds one to the total, and leaves every other transaction as it was.
pub create_fresh :
    (type key cmd : ℕ) (file : Text) (mode now : ℕ) (tm : TransManager)
    → IsValid tm
    → let (tm', id) = create type key cmd file mode now tm in
      (retrieve id tm ≡ none)
      × (retrieve id tm' ≡ some (opened type key cmd file mode now id))
      × (get_total_trans tm' ≡ get_total_trans tm + 1)
      × ((j : ℕ) → j ≢ id → retrieve j tm' ≡ retrieve j tm)
unfolding create retrieve get_total_trans
create_fresh type key cmd file mode now tm v =
    let absent = seed_absent tm v in
    let t = opened type key cmd file mode now tm.trans_id in
    (
      absent,
      ground (arith, find-put tm.trans_id tm.trans_id t tm.trans_list),
      ground (arith, length-put_new tm.trans_id t tm.trans_list absent),
      λ j h. ground (arith, find-put tm.trans_id j t tm.trans_list),
    )
