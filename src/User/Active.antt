-- ===== src/User/Active.antt =====
-- UserManager: who is active, and who is dropped after half an hour without a request.
use sector_sphere.Base.{
  ℕ, ◌≡◌, refl, Map, Bool, false, Option, none, some, List, [], ◌∷◌, ◌||◌, arith, if◌then◌else◌,
  ◌==◌,
}
use sector_sphere.Base.Maps
use sector_sphere.Base.Keys.{nat_key}
use sector_sphere.User.{
  User, UserManager, insert, is_inactive, inactive, erase_users, check_inactive_users,
}

-- Each user stands under the own key.
abbrev pub HasKeys : Map ℕ User → Type 0
HasKeys [] = Unit
HasKeys ((k, u) ∷ m) = (u.key ≡ k) × HasKeys m

pub record IsValid (m : UserManager) : Type 0 where
  pub is_sorted : Maps.IsSorted m.active_users
  pub has_keys : HasKeys m.active_users

put-HasKeys : (k : ℕ) (u : User) (m : Map ℕ User) → u.key ≡ k → HasKeys m → HasKeys (Maps.put k u m)
unfolding Maps.put
put-HasKeys k u [] h v = (h, tt)
put-HasKeys k u ((l, w) ∷ m) h v = ground (arith, put-HasKeys k u m h v.1)

erase-HasKeys : (k : ℕ) (m : Map ℕ User) → HasKeys m → HasKeys (Maps.erase k m)
unfolding Maps.erase
erase-HasKeys k [] v = tt
erase-HasKeys k ((l, w) ∷ m) v = ground (arith, erase-HasKeys k m v.1)

abbrev pub survivor : ℕ → ℕ → Option User → Option User
survivor now key none = none
survivor now key (some u) = if is_inactive now key u then none else some u

has_user : ℕ → List User → Bool
has_user k [] = false
has_user k (u ∷ iu) = k == u.key || has_user k iu

find-erase_users :
    (k : ℕ) (iu : List User) (m : Map ℕ User)
    → Maps.find k (erase_users iu m) ≡ (if has_user k iu then none else Maps.find k m)
unfolding erase_users has_user
find-erase_users k [] m = refl
find-erase_users k (u ∷ iu) m =
    ground (arith, find-erase_users k iu (Maps.erase u.key m), Maps.find-erase u.key k m)

abbrev is_dropped : ℕ → ℕ → Option User → Bool
is_dropped now k none = false
is_dropped now k (some u) = is_inactive now k u

has_user-inactive :
    (now k : ℕ) (m : Map ℕ User)
    → Maps.IsSorted m
    → HasKeys m
    → has_user k (inactive now m) ≡ is_dropped now k (Maps.find k m)
unfolding has_user inactive Maps.find
has_user-inactive now k [] s h = refl
has_user-inactive now k ((l, u) ∷ m) s h =
    ground (arith, has_user-inactive now k m s.1 h.1, h.0, Maps.find-Above l m s.0)

erase_users-IsSorted :
    (iu : List User) (m : Map ℕ User) → Maps.IsSorted m → Maps.IsSorted (erase_users iu m)
unfolding erase_users
erase_users-IsSorted [] m s = s
erase_users-IsSorted (u ∷ iu) m s =
    erase_users-IsSorted iu (Maps.erase u.key m) (Maps.erase-IsSorted u.key m s)

erase_users-HasKeys : (iu : List User) (m : Map ℕ User) → HasKeys m → HasKeys (erase_users iu m)
unfolding erase_users
erase_users-HasKeys [] m s = s
erase_users-HasKeys (u ∷ iu) m s =
    erase_users-HasKeys iu (Maps.erase u.key m) (erase-HasKeys u.key m s)

-- UserManager::checkInactiveUsers drops exactly the users, other than user 0, whose last request
-- is more than 1800 seconds old, and keeps each of the others; every user stays under the own key.
pub check_inactive_users_cases :
    (now key : ℕ) (m : UserManager)
    → IsValid m
    → let r = check_inactive_users now m in
      (Maps.find key r.0.active_users ≡ survivor now key (Maps.find key m.active_users))
      × IsValid r.0
unfolding check_inactive_users
check_inactive_users_cases now key m v =
    let iu = inactive now m.active_users in
    (
      ground (
        arith,
        find-erase_users key iu m.active_users,
        has_user-inactive now key m.active_users v.is_sorted v.has_keys,
      ),
      record {
        is_sorted = erase_users-IsSorted iu m.active_users v.is_sorted;
        has_keys = erase_users-HasKeys iu m.active_users v.has_keys;
      },
    )

pub insert-IsValid : (u : User) (m : UserManager) → IsValid m → IsValid (insert u m)
insert-IsValid u m v = record {
  is_sorted = Maps.put-IsSorted u.key u m.active_users v.is_sorted;
  has_keys = put-HasKeys u.key u m.active_users refl v.has_keys;
}
