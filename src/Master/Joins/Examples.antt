-- ===== src/Master/Joins/Examples.antt =====
-- A security server with one account, and a log-in and a new master at the master of Master/Setup.
use sector_sphere.Base.{
  ◌≡◌, ◌⊎◌, refl, subst, ℕ, Text, Map, true, none, some, List, [], ◌∷◌, codes, arith, negsuc,
  is_some, All,
}
use sector_sphere.Base.Maps
use sector_sphere.Base.Decimal.{word32}
use sector_sphere.Base.Keys.{nat_key, text_key, text_eq}
use sector_sphere.Address.{Address}
use sector_sphere.Routing.{Routing}
use sector_sphere.Security
use sector_sphere.Security.{
  SServer, Account, Query, user_login, match_user, is_positive, in_ranges, match_acl,
}
use sector_sphere.User.Dirs.{IsDir}
use sector_sphere.Master.{Master}
use sector_sphere.Master.Setup.{master, world, address}
use sector_sphere.Master.Joins.{
  Login, Welcome, turned_away, session_key, process_user_join, Introduction, introduced,
  process_master_join, join_masters,
}
use sector_sphere.Master.Joins.Logins.{IsAdmitted, IsLoggedIn, process_user_join-process}
use sector_sphere.Master.Joins.Masters.{process_master_join-join_masters}

abbrev account : Account
account = record {
  name = codes "v";
  password = codes "pw";
  acl = record { ip = 0; mask = 0 } ∷ [];
  read_list = codes "d" ∷ codes "/e" ∷ [];
  write_list = codes "/d" ∷ [];
  exec = true;
}

abbrev server : SServer
server = record {
  key_seed = 11;
  master_acl = record { ip = 0; mask = 0 } ∷ [];
  slave_acl = [];
  users = (codes "v", account) ∷ [];
}

abbrev login : Login
login = record {
  name = codes "v";
  password = codes "pw";
  ukey = 0;
  port = 5002;
  data_port = 5003;
  pc_key = [];
  pc_iv = [];
}

h_dirs :
    (u : Account)
    → IsAdmitted world server (codes "10.0.1.3") login u
    → All IsDir u.read_list × All IsDir u.write_list
unfolding Maps.find text_eq
h_dirs u h =
    let same : account ≡ u = cc (h.0) in
    subst (λ (x : Account). All IsDir x.read_list × All IsDir x.write_list) same (ground arith)

process_user_join-process_example :
    let answer =
      (Security.process world.inet_pton
        (user_login (codes "v") (codes "pw") (codes "10.0.1.3"))
        server).1 in
    (((u : Account) → ¬ (IsAdmitted world server (codes "10.0.1.3") login u))
      × (process_user_join world (codes "10.0.1.3") login answer master
          ≡ some (master, turned_away (word32 (negsuc 0)))))
    ⊎ ((u : Account) × IsAdmitted world server (codes "10.0.1.3") login u
        × ((m' : Master) × ((welcome : Welcome) × (process_user_join world
                  (codes "10.0.1.3")
                  login
                  answer
                  master
                ≡ some (m', welcome))
              × IsLoggedIn (session_key 11 0) (codes "10.0.1.3") login u master m')))
process_user_join-process_example =
    process_user_join-process world (codes "10.0.1.3") login server master refl h_dirs

h_found : is_some (Maps.find 5 master.routing.address_list) ≡ true
unfolding Maps.find
h_found = refl

h_free : Maps.find 7 master.routing.address_list ≡ none
unfolding Maps.find
h_free = refl

abbrev joiner : Routing
joiner = record { finger_table = 7 ∷ []; address_list = (7, address 7) ∷ [] }

h_unknown : Maps.find 5 joiner.address_list ≡ none
unfolding Maps.find
h_unknown = refl

process_master_join-join_masters_example :
    let joined = process_master_join world (codes "10.0.0.7") 6007 7 1 master in
    ((al : Map ℕ Address) × ((rest : List Introduction) × (joined.1 ≡ introduced 9 al ∷ rest)
        × (Maps.find 5 (join_masters (address 9) 9 al joiner).address_list ≡ some (address 9))))
    × (Maps.find 7 joined.0.routing.address_list
        ≡ some (record { ip = codes "10.0.0.7"; port = 6007 }))
process_master_join-join_masters_example =
    process_master_join-join_masters world (codes "10.0.0.7") 6007 7 master (address 9) joiner 5
      refl h_unknown h_found (ground arith) h_free

abbrev queries : List (Text × Query)
queries =
    (codes "10.0.0.9", user_login (codes "v") (codes "pw") (codes "10.0.1.3"))
    ∷ (codes "10.0.0.9", user_login (codes "v") (codes "no") (codes "10.0.1.3"))
    ∷ (codes "10.0.0.9", user_login (codes "v") (codes "pw") (codes "10.0.1.4"))
    ∷ []
