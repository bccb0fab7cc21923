-- ===== src/User.antt =====
-- master/user.h and master/user.cpp: the users of the master, the directories they may read and
-- write, and the list of those that are active.
pub mod Permission
pub mod Dirs
pub mod Active
pub mod Codec
mod Examples
use sector_sphere.Base.{
  ℕ, zero, suc, ◌-◌, ◌/◌, ◌%◌, ℤ, pos, negsuc, Text, Map, Bool, true, false, not, Option, none,
  some, List, [], ◌∷◌, ◌&&◌, ◌||◌, ◌++◌, length, is_empty, if◌then◌else◌, ◌==◌, ltb, sub64,
}
use sector_sphere.Base.Maps
use sector_sphere.Base.Keys.{nat_key, text_eq}
use sector_sphere.Meta.{slash}

pub record User : Type 0 where
  pub name : Text
  pub ip : Text
  pub port : ℕ
  pub data_port : ℕ
  pub key : ℕ
  pub pc_key : Text
  pub pc_iv : Text
  pub last_refresh_time : ℕ
  pub read_list : List Text
  pub write_list : List Text
  pub exec : Bool

-- What follows a text at the front of another, if it stands there.
unfoldable pub after : Text → Text → Option Text
after [] t = some t
after (c ∷ s) [] = none
after (c ∷ s) (d ∷ t) = let rest = after s t in if c == d then rest else none

abbrev pub starts_slash : Text → Bool
starts_slash [] = false
starts_slash (c ∷ t) = c == slash

-- The test of a directory `i` of a list against a path.
unfoldable pub covers : Text → Text → Bool
covers i path = elim (after i path) [
  | none ↦ false
  | some rest ↦ is_empty rest || starts_slash rest || text_eq i (slash ∷ [])
]

-- Whether the loop over a list meets a directory that covers the path.
unfoldable pub covered : List Text → Text → Bool
unfolding covers
covered [] path = false
covered (i ∷ list) path = covers i path || covered list path

-- The flags are bits 0 and 1; a flag that is granted is cleared.
unfoldable pub match : Text → ℕ → User → Bool
unfolding covered
match path rwx user =
    let rwx1 = rwx % 4 in
    let rwx2 = if rwx1 % 2 == 1 && covered user.read_list path then rwx1 - 1 else rwx1 in
    let rwx3 = if rwx2 / 2 == 1 && covered user.write_list path then rwx2 - 2 else rwx2 in rwx3 == 0

-- User::serialize of security/security.cpp: the list as the security server sends it.
unfoldable pub serialize_dirs : List Text → Text
serialize_dirs [] = []
serialize_dirs (i ∷ input) = i ++ b';' ∷ serialize_dirs input

-- A text up to its first ';', and what follows that, if there is one.
unfoldable pub split : Text → Text × Option Text
split [] = ([], none)
split (c ∷ s) = let r = split s in if c == b';' then ([], some s) else (c ∷ r.0, r.1)

abbrev pub with_slash : Text → Text
with_slash t = if starts_slash t then t else slash ∷ t

-- User::deserialize for a list of directories: `none` if the fuel does not reach the end of its loop.
-- Without a further ';' the position, npos + 1 as an unsigned int, is 0 again.
unfoldable pub dirs_loop : ℕ → Text → Text → List Text → Option (List Text)
dirs_loop fuel buf [] dirs = some dirs
dirs_loop zero buf (c ∷ s) dirs = none
dirs_loop (suc fuel) buf (c ∷ s) dirs =
    let t = split (c ∷ s) in
    dirs_loop fuel buf (elim t.1 [ none ↦ buf | some s' ↦ s' ]) (dirs ++ with_slash t.0 ∷ [])

unfoldable pub deserialize_dirs : ℕ → List Text → Text → Option (List Text)
unfolding dirs_loop split
deserialize_dirs fuel dirs buf = dirs_loop fuel buf buf dirs

pub record UserManager : Type 0 where
  pub active_users : Map ℕ User

abbrev pub insert : User → UserManager → UserManager
insert u m = record { active_users = Maps.put u.key u m.active_users }

-- CTimer::getTime is unsigned, and so is the difference.
abbrev pub is_inactive : ℕ → ℕ → User → Bool
is_inactive now key u = not (key == 0) && ltb 1800000000 (sub64 now u.last_refresh_time)

unfoldable pub inactive : ℕ → Map ℕ User → List User
inactive now [] = []
inactive now ((k, u) ∷ m) =
    let rest = inactive now m in if is_inactive now k u then u ∷ rest else rest

unfoldable pub erase_users : List User → Map ℕ User → Map ℕ User
erase_users [] m = m
erase_users (u ∷ iu) m = erase_users iu (Maps.erase u.key m)

unfoldable pub check_inactive_users : ℕ → UserManager → UserManager × List User × ℕ
unfolding inactive erase_users
check_inactive_users now m =
    let iu = inactive now m.active_users in
    (record { active_users = erase_users iu m.active_users }, iu, length iu)

unfoldable pub lookup : ℕ → UserManager → Option User
lookup key m = Maps.find key m.active_users

unfoldable pub remove : ℕ → UserManager → UserManager × ℤ
remove key m = elim (Maps.find key m.active_users) [
  | none ↦ (m, negsuc 0)
  | some u ↦ (record { active_users = Maps.erase key m.active_users }, pos 0)
]
