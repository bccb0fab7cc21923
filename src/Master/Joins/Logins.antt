-- ===== src/Master/Joins/Logins.antt =====
-- A user who logs in may do what the security server says, from the address of the log-in and from no other.
use sector_sphere.Topology.{bit_and}
use sector_sphere.Master.{is_neg}
use sector_sphere.Security.{IpRange, in_ranges, match_acl}
use sector_sphere.Base.{
  ℤ, Bool, pos, subst, false, not, ◌≡◌, ◌≢◌, ◌⊎◌, refl, ℕ, ◌≤◌, Text, true, ◌&&◌, none, some, List,
  [], ◌∷◌, length, map, length-append, All, arith, inl, inr, Bool-cases, Option-cases, ◌==◌, negsuc,
}
use sector_sphere.Base.Maps
use sector_sphere.Base.Decimal.{word32}
use sector_sphere.Base.Keys.{nat_key, text_key, text_eq, text_eq_iff}
use sector_sphere.Security
use sector_sphere.Security.{
  SServer, Account, user_login, match_user, is_positive, granted, answered, generate_key,
}
use sector_sphere.User
use sector_sphere.User.{User, serialize_dirs, deserialize_dirs, with_slash}
use sector_sphere.User.Dirs.{IsDir, deserialize_dirs-serialize_dirs}
use sector_sphere.Master.{Master, World}
use sector_sphere.Master.Dispatch.{is_secure}
use sector_sphere.Master.Joins.{
  Login, Welcome, turned_away, session_key, user_of, enter_user, process_user_join,
}

-- A user of an account, under a key, at an address; and nobody else has changed.
pub record IsLoggedIn (key : ℕ) (ip : Text) (l : Login) (u : Account) (m m' : Master) : Type 0 where
  pub user : User
  pub found : User.lookup key m'.users ≡ some user
  pub reads : user.read_list ≡ map with_slash u.read_list
  pub writes : user.write_list ≡ map with_slash u.write_list
  pub exec : user.exec ≡ u.exec
  pub secure :
      (ip' : Text) (port : ℕ) → is_secure ip' port key user m' ≡ (text_eq ip ip' && l.port == port)
  pub others : (k : ℕ) → k ≢ key → User.lookup k m'.users ≡ User.lookup k m.users
  pub same : m' ≡ record m { users = m'.users }

length-serialize_dirs : (ds : List Text) → length ds ≤ length (serialize_dirs ds)
unfolding serialize_dirs
length-serialize_dirs [] = omega arith
length-serialize_dirs (d ∷ ds) =
    omega (arith, length-append d (b';' ∷ serialize_dirs ds), length-serialize_dirs ds)

reads_back :
    (ds : List Text)
    → All IsDir ds
    → deserialize_dirs (length (serialize_dirs ds)) [] (serialize_dirs ds)
      ≡ some (map with_slash ds)
reads_back ds h =
    deserialize_dirs-serialize_dirs (length (serialize_dirs ds)) [] ds h (length-serialize_dirs ds)

enter_user-IsLoggedIn :
    (w : World) (ip : Text) (l : Login) (key : ℕ) (u : Account) (m : Master)
    → is_positive key ≡ true
    → IsLoggedIn key ip l u m
        (enter_user w ip l key
          (map with_slash u.read_list)
          (map with_slash u.write_list)
          u.exec
          m).0
unfolding User.lookup is_secure
enter_user-IsLoggedIn w ip l key u m p = record {
  user = user_of w ip l key (map with_slash u.read_list) (map with_slash u.write_list) u.exec;
  found = ground (
    arith,
    Maps.find-put key key
        (user_of w ip l key (map with_slash u.read_list) (map with_slash u.write_list) u.exec)
        m.users.active_users,
  );
  reads = refl;
  writes = refl;
  exec = refl;
  secure = λ ip' port. rw p refl;
  others = λ k h. ground (
    arith,
    h,
    Maps.find-put key k
        (user_of w ip l key (map with_slash u.read_list) (map with_slash u.write_list) u.exec)
        m.users.active_users,
  );
  same = refl;
}

session_key_positive :
    (key ukey : ℕ) → is_positive key ≡ true → is_positive (session_key key ukey) ≡ true
session_key_positive key ukey h = elim (Bool-cases (is_positive ukey)) [
  | inl e ↦ rw e e
  | inr e ↦ rw e h
]

-- An address, as inet_pton reads it, belongs to one of the ranges.
abbrev pub InRanges : ℕ → List IpRange → Type 0
InRanges addr [] = ⊥
InRanges addr (i ∷ acl) = (bit_and 32 addr i.mask ≡ bit_and 32 i.ip i.mask) ⊎ InRanges addr acl

-- The server has the account under the name, with the password, and one of its ranges holds the address.
abbrev pub IsAdmitted : World → SServer → Text → Login → Account → Type 0
IsAdmitted w s ip l u =
    (Maps.find l.name s.users ≡ some u)
    × (u.password ≡ l.password)
    × (is_neg (w.inet_pton ip).0 ≡ false)
    × InRanges (w.inet_pton ip).1 u.acl

in_ranges-InRanges : (addr : ℕ) (acl : List IpRange) → in_ranges addr acl ≡ true → InRanges addr acl
unfolding in_ranges
in_ranges-InRanges addr [] h = ground (arith, h)
in_ranges-InRanges addr (i ∷ acl) h =
    elim (Bool-cases (bit_and 32 addr i.mask == bit_and 32 i.ip i.mask)) [
      | inl e ↦ inl (ground (arith, e))
      | inr e ↦ inr (in_ranges-InRanges addr acl (ground (arith, h, e)))
    ]

InRanges-in_ranges : (addr : ℕ) (acl : List IpRange) → InRanges addr acl → in_ranges addr acl ≡ true
unfolding in_ranges
InRanges-in_ranges addr [] h = absurd h
InRanges-in_ranges addr (i ∷ acl) (inl e) = ground (arith, e)
InRanges-in_ranges addr (i ∷ acl) (inr e) = ground (arith, InRanges-in_ranges addr acl e)

match_acl-in_ranges :
    (inet_pton : Text → ℤ × ℕ) (acl : List IpRange) (ip : Text)
    → match_acl inet_pton acl ip ≡ (not (is_neg (inet_pton ip).0) && in_ranges (inet_pton ip).1 acl)
unfolding match_acl
match_acl-in_ranges inet_pton acl ip = by_code (inet_pton ip).0 (in_ranges (inet_pton ip).1 acl)
  where
    by_code : (z : ℤ) (b : Bool) → (elim z [ negsuc n ↦ false | pos n ↦ b ]) ≡ (not (is_neg z) && b)
    by_code (pos n) b = refl
    by_code (negsuc n) b = refl

match_user-IsAdmitted :
    (w : World) (s : SServer) (ip : Text) (l : Login) (u : Account)
    → match_user w.inet_pton s.users l.name l.password ip ≡ some u
    → IsAdmitted w s ip l u
unfolding match_user
match_user-IsAdmitted w s ip l u h = elim (Option-cases (Maps.find l.name s.users)) [
  | inl e ↦ absurd (ground (arith, h, e))
  | inr (v, e) ↦ elim (Bool-cases (text_eq v.password l.password)) [
    | inr f ↦ absurd (ground (arith, h, e, f))
    | inl f ↦ elim (Bool-cases (match_acl w.inet_pton v.acl ip)) [
      | inr g ↦ absurd (ground (arith, h, e, f, g))
      | inl g ↦
          let t = match_acl-in_ranges w.inet_pton v.acl ip in
          subst (IsAdmitted w s ip l) (ground (arith, h, e, f, g)) (
            e,
            ground (arith, f, text_eq_iff v.password l.password),
            ground (arith, g, t),
            in_ranges-InRanges (w.inet_pton ip).1 v.acl (ground (arith, g, t)),
          )
    ]
  ]
]

match_user-refused :
    (w : World) (s : SServer) (ip : Text) (l : Login) (u : Account)
    → match_user w.inet_pton s.users l.name l.password ip ≡ none
    → ¬ (IsAdmitted w s ip l u)
unfolding match_user
match_user-refused w s ip l u h (f, p, z, r) = ground (
  arith,
  h,
  f,
  p,
  z,
  text_eq_iff u.password l.password,
  match_acl-in_ranges w.inet_pton u.acl ip,
  InRanges-in_ranges (w.inet_pton ip).1 u.acl r,
)

-- A log-in through the security server. If the server has no account of the name with the password and a range that holds
-- the client's address, the client gets the code -1 and nothing of the master changes. Otherwise the
-- entry of a user is made or replaced, under the key of the server or the
-- positive one that the client names, with the directories of the account, a '/' put before those that do not start with one, and its
-- right to run jobs; requests with this key count as secure exactly from the address and the port of the log-in; and
-- no other user and nothing else changes. The next key of the server is positive, and no directory of the account has a ';'.
pub process_user_join-process :
    (w : World) (ip : Text) (l : Login) (s : SServer) (m : Master)
    → is_positive s.key_seed ≡ true
    → ((u : Account) → IsAdmitted w s ip l u → All IsDir u.read_list × All IsDir u.write_list)
    → let answer = (Security.process w.inet_pton (user_login l.name l.password ip) s).1 in
      (((u : Account) → ¬ (IsAdmitted w s ip l u))
        × (process_user_join w ip l answer m ≡ some (m, turned_away (word32 (negsuc 0)))))
      ⊎ ((u : Account) × IsAdmitted w s ip l u
          × ((m' : Master) × ((welcome : Welcome) × (process_user_join w ip l answer m
                  ≡ some (m', welcome))
                × IsLoggedIn (session_key s.key_seed l.ukey) ip l u m m')))
unfolding Security.process process_user_join
process_user_join-process w ip l s m p d =
    elim (Option-cases (match_user w.inet_pton s.users l.name l.password ip)) [
      | inl e ↦ inl (λ u. match_user-refused w s ip l u e, rw (Security.process, e) refl)
      | inr (u, e) ↦
          let a = match_user-IsAdmitted w s ip l u e in
          let h = d u a in
          let key = session_key s.key_seed l.ukey in
          let r =
            enter_user w ip l key (map with_slash u.read_list) (map with_slash u.write_list) u.exec
              m in
          inr (
            u,
            a,
            (
              r.0,
              (
                r.1,
                rw
                    (
                      Security.process,
                      e,
                      p,
                      process_user_join,
                      reads_back u.read_list h.0,
                      reads_back u.write_list h.1,
                    )
                    refl,
                enter_user-IsLoggedIn w ip l key u m (session_key_positive s.key_seed l.ukey p),
              ),
            ),
          )
    ]
