-- ===== src/User/Examples.antt =====
-- A user who may read "/a" and write "/a/b".
use sector_sphere.Base.{◌≡◌, refl, codes, [], ◌∷◌, ◌++◌, true, false, none, some}
use sector_sphere.Base.Keys.{text_eq, nat_key}
use sector_sphere.Base.{arith}
use sector_sphere.Meta.{parse_path, revise_path}
use sector_sphere.Index.Walk.{is_prefix}
use sector_sphere.User.{User, UserManager, match, serialize_dirs, deserialize_dirs}
use sector_sphere.User.Permission.{granted, match-granted}
use sector_sphere.User.Dirs.{deserialize_dirs_unterminated}
use sector_sphere.User.Codec.{serialize, deserialize}
use sector_sphere.User.Codec.RoundTrip.{IsWritable, deserialize-serialize}

abbrev user : User
user = record {
  name = codes "u";
  ip = codes "10.0.0.9";
  port = 1;
  data_port = 2;
  key = 4;
  pc_key = codes "0123456789abcdef";
  pc_iv = codes "01234567";
  last_refresh_time = 100;
  read_list = codes "/a" ∷ [];
  write_list = codes "/a/b" ∷ [];
  exec = false;
}

match-granted_example : match (revise_path (codes "/a/b/c")) 3 user ≡ true
unfolding granted parse_path is_prefix text_eq
match-granted_example =
    match-granted (codes "/a/b/c") 3 user ((codes "a" ∷ []) ∷ [])
      ((codes "a" ∷ codes "b" ∷ []) ∷ []) (ground arith) (ground arith) refl refl

deserialize_dirs_unterminated_example :
    deserialize_dirs 99 [] (serialize_dirs (codes "/a" ∷ []) ++ codes "/b") ≡ none
deserialize_dirs_unterminated_example =
    deserialize_dirs_unterminated 99 [] (codes "/a" ∷ []) b'/' (codes "b") (ground arith)
      (ground arith)

abbrev manager : UserManager
manager = record { active_users = (4, user) ∷ [] }

user-IsWritable : IsWritable user
user-IsWritable = record {
  name_text = ground arith;
  ip_text = ground arith;
  port_word = omega arith;
  data_port_word = omega arith;
  key_word = omega arith;
  key_length = refl;
  iv_length = refl;
  read_texts = ground arith;
  read_count = omega arith;
  write_texts = ground arith;
  write_count = omega arith;
}

abbrev blank : User
blank = record user { last_refresh_time = 7; read_list = []; write_list = [] }

deserialize-serialize_example :
    deserialize (serialize user) blank ≡ some (record user { last_refresh_time = 7 })
deserialize-serialize_example = deserialize-serialize user blank user-IsWritable

abbrev two_users : UserManager
two_users = record { active_users = (0, record user { key = 0 }) ∷ (4, user) ∷ [] }
