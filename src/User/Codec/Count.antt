-- ===== src/User/Codec/Count.antt =====
-- UserManager::serializeUsers: the number that is sent before the buffers.
use sector_sphere.Base.{ℕ, ◌≡◌, refl, pos, Map, some, [], ◌∷◌, length, arith}
use sector_sphere.Base.Maps
use sector_sphere.Base.Keys.{nat_key}
use sector_sphere.User.{User, UserManager}
use sector_sphere.User.Active.{IsValid}
use sector_sphere.User.Codec.{buffers, one_less, serialize_users}

buffers-Above : (m : Map ℕ User) → Maps.Above 0 m → length (buffers m) ≡ length m
unfolding buffers
buffers-Above [] a = refl
buffers-Above ((k, u) ∷ m) a = ground (arith, buffers-Above m a.1)

Above-from : (k : ℕ) (m : Map ℕ User) → Maps.Above k m → Maps.Above 0 m
Above-from k [] a = tt
Above-from k ((l, u) ∷ m) a = ground (arith, Above-from k m a.1)

count_users :
    (u : User) (m : Map ℕ User)
    → Maps.IsSorted m
    → Maps.find 0 m ≡ some u
    → one_less (length m) ≡ pos (length (buffers m))
unfolding Maps.find buffers
count_users u [] s h = cc
count_users u ((k, w) ∷ m) s h =
    ground (arith, buffers-Above m, Maps.find-Above 0 m, Above-from k m s.0)

-- If user 0 is active, the number that UserManager::serializeUsers returns is that of its buffers.
pub serialize_users_count :
    (u : User) (m : UserManager)
    → IsValid m
    → Maps.find 0 m.active_users ≡ some u
    → let r = serialize_users m in r.1 ≡ pos (length r.0)
unfolding serialize_users
serialize_users_count u m v h = count_users u m.active_users v.is_sorted h
