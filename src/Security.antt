-- ===== src/Security.antt =====
-- security/security.h and security/security.cpp, class SServer: the lists of addresses, the users with their
-- passwords, the keys, and the answers to the queries of a master.
pub mod Keys
use sector_sphere.Base.{
  ℕ, suc, ◌+◌, ◌%◌, ◌^◌, ℤ, pos, negsuc, Text, Map, Bool, true, false, not, ◌&&◌, Option, none,
  some, List, [], ◌∷◌, if◌then◌else◌, ◌==◌, ltb,
}
use sector_sphere.Base.Maps
use sector_sphere.Base.Decimal.{word32}
use sector_sphere.Base.Keys.{text_eq, text_key}
use sector_sphere.User.{serialize_dirs}
use sector_sphere.Topology.{bit_and}

pub record IpRange : Type 0 where
  pub ip : ℕ
  pub mask : ℕ

-- class User of security.h, without the id and the quota, which are not looked at.
pub record Account : Type 0 where
  pub name : Text
  pub password : Text
  pub acl : List IpRange
  pub read_list : List Text
  pub write_list : List Text
  pub exec : Bool

pub record SServer : Type 0 where
  pub key_seed : ℕ
  pub master_acl : List IpRange
  pub slave_acl : List IpRange
  pub users : Map Text Account

unfoldable pub in_ranges : ℕ → List IpRange → Bool
in_ranges addr [] = false
in_ranges addr (i ∷ acl) =
    if bit_and 32 addr i.mask == bit_and 32 i.ip i.mask then true else in_ranges addr acl

-- A text that is no address is the code 0 of inet_pton, not a negative one.
unfoldable pub match_acl : (Text → ℤ × ℕ) → List IpRange → Text → Bool
unfolding in_ranges
match_acl inet_pton acl ip = elim (inet_pton ip).0 [
  | negsuc n ↦ false
  | pos n ↦ in_ranges (inet_pton ip).1 acl
]

unfoldable pub match_user : (Text → ℤ × ℕ) → Map Text Account → Text → Text → Text → Option Account
unfolding match_acl
match_user inet_pton users name password ip = elim (Maps.find name users) [
  | none ↦ none
  | some i ↦
      if not (text_eq i.password password)
      then none
      else if not (match_acl inet_pton i.acl ip)
      then none
      else some i
]

-- The key, and the server with the next one. A key is an int32_t.
abbrev pub generate_key : SServer → SServer × ℕ
generate_key s = (record s { key_seed = (s.key_seed + 1) % 2 ^ 32 }, s.key_seed)

abbrev pub e_acl : ℕ
e_acl = word32 (negsuc 2003)

-- The commands 1 to 4.
pub data Query : Type 0 where
  slave_join : Text → Query
  user_login : Text → Text → Text → Query
  master_join : Text → Query
  master_init : Query

-- A key or a code, and for a user also the lists and the right to run jobs.
pub data Answer : Type 0 where
  answered : ℕ → Answer
  granted : ℕ → Text → Text → Bool → Answer

-- The test `key > 0`.
abbrev pub is_positive : ℕ → Bool
is_positive key = ltb 0 key && ltb key (2 ^ 31)

abbrev pub admit : ℕ → Account → Answer
admit key u =
    if is_positive key
    then granted key (serialize_dirs u.read_list) (serialize_dirs u.write_list) u.exec
    else answered key

unfoldable pub process : (Text → ℤ × ℕ) → Query → SServer → SServer × Answer
unfolding match_acl match_user
process inet_pton (slave_join ip) s =
    let g = generate_key s in
    (g.0, answered (if not (match_acl inet_pton s.slave_acl ip) then e_acl else g.1))
process inet_pton (user_login name password ip) s =
    let g = generate_key s in
    elim (match_user inet_pton s.users name password ip) [
      | none ↦ (s, answered (word32 (negsuc 0)))
      | some u ↦ (g.0, admit g.1 u)
    ]
process inet_pton (master_join ip) s =
    (s, answered (if not (match_acl inet_pton s.master_acl ip) then e_acl else 1))
process inet_pton master_init s = let g = generate_key s in (g.0, answered g.1)

-- A connection from an address that is not in the list of the masters is closed.
unfoldable pub serve : (Text → ℤ × ℕ) → Text → Query → SServer → SServer × Option Answer
unfolding process
serve inet_pton from q s =
    let r = process inet_pton q s in
    if not (match_acl inet_pton s.master_acl from) then (s, none) else (r.0, some r.1)
