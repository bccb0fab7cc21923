-- ===== src/Routing/Table.antt =====
-- The finger table of common/routing.cpp: the keys of the address list, the greatest first.
use sector_sphere.Base.{
  ℕ, ◌≡◌, refl, Bool, true, false, ◌||◌, not, Option, none, some, List, [], ◌∷◌, ◌&&◌, ◌==◌, ltb,
  arith, Option-cases, inl, inr,
}
use sector_sphere.Base.Maps
use sector_sphere.Base.Keys.{nat_key}
use sector_sphere.Address.{Address}
use sector_sphere.Routing.{Routing, init, insert, insert_finger, remove, remove_finger}

unfoldable pub mem : ℕ → List ℕ → Bool
mem k [] = false
mem k (i ∷ table) = k == i || mem k table

abbrev pub Below : ℕ → List ℕ → Type 0
Below k [] = Unit
Below k (i ∷ table) = (ltb i k ≡ true) × Below k table

abbrev pub IsDescending : List ℕ → Type 0
IsDescending [] = Unit
IsDescending (i ∷ table) = Below i table × IsDescending table

abbrev pub found : Option Address → Bool
found none = false
found (some a) = true

pub record IsValid (r : Routing) : Type 0 where
  pub is_sorted : Maps.IsSorted r.address_list
  pub is_descending : IsDescending r.finger_table
  pub same_keys : (k : ℕ) → mem k r.finger_table ≡ found (Maps.find k r.address_list)

mem-insert_finger :
    (k key : ℕ) (table : List ℕ) → mem k (insert_finger key table) ≡ (k == key || mem k table)
unfolding mem insert_finger
mem-insert_finger k key [] = refl
mem-insert_finger k key (i ∷ table) = ground (arith, mem-insert_finger k key table)

pub mem-Below : (k i : ℕ) (table : List ℕ) → Below i table → mem k table ≡ true → ltb k i ≡ true
unfolding mem
mem-Below k i [] b h = ground arith
mem-Below k i (j ∷ table) b h = ground (arith, mem-Below k i table b.1)

mem-remove_finger :
    (k key : ℕ) (table : List ℕ)
    → IsDescending table
    → mem k (remove_finger key table) ≡ (not (k == key) && mem k table)
unfolding mem remove_finger
mem-remove_finger k key [] d = ground arith
mem-remove_finger k key (i ∷ table) d =
    ground (arith, mem-remove_finger k key table d.1, mem-Below k i table d.0)

Below-insert_finger :
    (n key : ℕ) (table : List ℕ)
    → ltb key n ≡ true
    → Below n table
    → Below n (insert_finger key table)
unfolding insert_finger
Below-insert_finger n key [] h b = (h, tt)
Below-insert_finger n key (i ∷ table) h b = ground (arith, Below-insert_finger n key table h b.1)

Below-remove_finger :
    (n key : ℕ) (table : List ℕ) → Below n table → Below n (remove_finger key table)
unfolding remove_finger
Below-remove_finger n key [] b = tt
Below-remove_finger n key (i ∷ table) b = ground (arith, Below-remove_finger n key table b.1)

Below-trans : (m n : ℕ) (table : List ℕ) → ltb n m ≡ true → Below n table → Below m table
Below-trans m n [] h b = tt
Below-trans m n (i ∷ table) h b = ground (arith, Below-trans m n table h b.1)

insert_finger-IsDescending :
    (key : ℕ) (table : List ℕ)
    → mem key table ≡ false
    → IsDescending table
    → IsDescending (insert_finger key table)
unfolding mem insert_finger
insert_finger-IsDescending key [] h d = (tt, tt)
insert_finger-IsDescending key (i ∷ table) h d = ground (
  arith,
  insert_finger-IsDescending key table,
  Below-insert_finger i key table,
  Below-trans key i table,
)

remove_finger-IsDescending :
    (key : ℕ) (table : List ℕ) → IsDescending table → IsDescending (remove_finger key table)
unfolding remove_finger
remove_finger-IsDescending key [] d = tt
remove_finger-IsDescending key (i ∷ table) d =
    ground (arith, remove_finger-IsDescending key table d.1, Below-remove_finger i key table d.0)

pub insert-IsValid :
    (key : ℕ) (node : Address) (r : Routing) → IsValid r → IsValid (insert key node r).0
unfolding insert
insert-IsValid key node r v = elim (Option-cases (Maps.find key r.address_list)) [
  | inr (a, e) ↦ rw (e, insert) v
  | inl e ↦
      rw (e, insert)
        (record {
          is_sorted = Maps.put-IsSorted key node r.address_list v.is_sorted;
          is_descending =
              insert_finger-IsDescending key r.finger_table (ground (arith, v.same_keys key, e))
                v.is_descending;
          same_keys = λ k. ground (
            arith,
            mem-insert_finger k key r.finger_table,
            v.same_keys k,
            Maps.find-put key k node r.address_list,
          );
        })
]

pub remove-IsValid : (key : ℕ) (r : Routing) → IsValid r → IsValid (remove key r).0
unfolding remove
remove-IsValid key r v = elim (Option-cases (Maps.find key r.address_list)) [
  | inl e ↦ rw (e, remove) v
  | inr (a, e) ↦
      rw (e, remove)
        (record {
          is_sorted = Maps.erase-IsSorted key r.address_list v.is_sorted;
          is_descending = remove_finger-IsDescending key r.finger_table v.is_descending;
          same_keys = λ k. ground (
            arith,
            mem-remove_finger k key r.finger_table v.is_descending,
            v.same_keys k,
            Maps.find-erase key k r.address_list,
          );
        })
]

-- A call that changes the table.
pub data Call : Type 0 where
  inserts : ℕ → Address → Call
  removes : ℕ → Call

unfoldable pub run : List Call → Routing → Routing
run [] r = r
run (inserts key node ∷ cs) r = run cs (insert key node r).0
run (removes key ∷ cs) r = run cs (remove key r).0

run-IsValid_from : (cs : List Call) (r : Routing) → IsValid r → IsValid (run cs r)
unfolding run
run-IsValid_from [] r v = v
run-IsValid_from (inserts key node ∷ cs) r v =
    run-IsValid_from cs (insert key node r).0 (insert-IsValid key node r v)
run-IsValid_from (removes key ∷ cs) r v =
    run-IsValid_from cs (remove key r).0 (remove-IsValid key r v)

-- After any sequence of insert and remove calls, failing ones included, the finger table is the keys
-- of the address list, each once and in descending order, and the address list is in order.
pub run-IsValid : (cs : List Call) → IsValid (run cs init)
unfolding mem
run-IsValid cs =
    run-IsValid_from cs init
      (record { is_sorted = tt; is_descending = tt; same_keys = λ k. unfold Maps.find in refl })
