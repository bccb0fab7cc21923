-- ===== src/Master/Access.antt =====
-- Which requests the master refuses: by the user's directories, by the masters' shares, and by the sender.
use sector_sphere.Base.Maps
use sector_sphere.Address.{Address, addr_key}
use sector_sphere.Meta.{slash}
use sector_sphere.Security.{is_positive}
use sector_sphere.Slaves.{get_slave_id}
use sector_sphere.Routing.{get_router_id_of, router_of}
use sector_sphere.Base.{
  All, Map, [], ◌∷◌, ◌≢◌, ◌<◌, ◌^◌, ◌==◌, ◌≡◌, ◌⊎◌, refl, ℕ, ℤ, Text, Bool, true, false, ◌&&◌, none,
  some, arith, inl, inr, Bool-cases, Option-cases, if◌then◌else◌,
}
use sector_sphere.Base.Keys.{nat_key, text_eq, text_eq_iff}
use sector_sphere.User
use sector_sphere.User.{User, match}
use sector_sphere.Index.Read.{e_noexist}
use sector_sphere.Master.{
  Master, World, Client, FsRequest, ls, stat, mkdir, mv, rm, cp, touch, open_file, Outcome, reject,
  e_master, e_exist, e_permission, e_security, e_expired, sublevel_of, split_last, is_neg,
}
use sector_sphere.Master.Files.{routed, permit, permit_at, permit_two, missing_above, exists}
use sector_sphere.Master.Dispatch.{process_fs, Request, process, process_ex, refresh, is_secure}

-- What a request asks of the user's directories.
unfoldable pub allowed : User → FsRequest → Bool
allowed user (ls path) = match path 1 user
allowed user (stat path) = match path 1 user
allowed user (mkdir path) = match path 2 user
allowed user (mv src dst) = match src 1 user && match dst 2 user
allowed user (rm path) = match path 2 user
allowed user (cp src dst) = match src 1 user && match dst 2 user
allowed user (touch path ts) = match path 2 user
allowed user (open_file mode dataport hintip path) = match path mode user

-- The path that decides which master is responsible.
unfoldable pub path_of : FsRequest → Text
path_of (ls path) = path
path_of (stat path) = path
path_of (mkdir path) = path
path_of (mv src dst) = src
path_of (rm path) = path
path_of (cp src dst) = src
path_of (touch path ts) = path
path_of (open_file mode dataport hintip path) = path

-- There is no '/' in a path.
abbrev pub IsBare : Text → Type 0
IsBare = All (λ c. c ≢ slash)

split_last-IsBare : (t : Text) → split_last t ≡ none → IsBare t
unfolding split_last
split_last-IsBare [] h = tt
split_last-IsBare (c ∷ t) h = elim (Option-cases (split_last t)) [
  | inl e ↦ (ground (arith, h, e), split_last-IsBare t e)
  | inr (r, e) ↦ absurd (ground (arith, h, e))
]

-- Only a move or a copy of a path without a '/' throws.
abbrev pub Throws : FsRequest → Type 0
Throws (ls path) = ⊥
Throws (stat path) = ⊥
Throws (mkdir path) = ⊥
Throws (mv src dst) = IsBare src
Throws (rm path) = ⊥
Throws (cp src dst) = IsBare src
Throws (touch path ts) = ⊥
Throws (open_file mode dataport hintip path) = ⊥

-- The master has thrown, or it has sent an error code and nothing else and is as it was.
abbrev pub IsRefused : Type 0 → Outcome → Master → Type 0
IsRefused throws o m = ((o ≡ none) × throws) ⊎ ((code : ℤ) × (o ≡ reject code m))

permit-IsRefused :
    (throws : Type 0) (w : World) (c : Client) (path : Text) (rwx : ℕ) (m : Master) (go : Outcome)
    → (routed w path m && match path rwx c.user) ≡ false
    → IsRefused throws (permit w c path rwx m go) m
permit-IsRefused throws w c path rwx m go h = elim (Bool-cases (routed w path m)) [
  | inr e ↦ inr (e_master, ground (arith, e))
  | inl e ↦ inr (e_permission, ground (arith, e, h))
]

rejects :
    (throws : Type 0) (b : Bool) (code : ℤ) (m : Master) (o : Outcome)
    → IsRefused throws o m
    → IsRefused throws (if b then reject code m else o) m
rejects throws true code m o h = inr (code, refl)
rejects throws false code m o h = h

permit_at-IsRefused :
    (throws : Type 0) (w : World) (c : Client) (src dst uplevel sublevel : Text) (m : Master)
    (go : Outcome)
    → (routed w src m && (match src 1 c.user && match dst 2 c.user)) ≡ false
    → IsRefused throws (permit_at w c src dst uplevel sublevel m go) m
permit_at-IsRefused throws w c src dst uplevel sublevel m go h =
    elim (Bool-cases (routed w src m)) [
      | inr e ↦ inr (e_master, ground (arith, e))
      | inl e ↦ rw e (
          rejects throws (missing_above uplevel m) e_noexist m _ (
            rejects throws (exists sublevel m) e_exist m _ (elim (Bool-cases (match src 1 c.user)) [
              | inr f ↦ inr (e_permission, ground (arith, f))
              | inl f ↦ inr (e_permission, ground (arith, e, f, h))
            ])))
    ]

permit_two-IsRefused :
    (w : World) (c : Client) (src dst uplevel : Text) (m : Master) (go : Outcome)
    → (routed w src m && (match src 1 c.user && match dst 2 c.user)) ≡ false
    → IsRefused (IsBare src) (permit_two w c src dst uplevel m go) m
permit_two-IsRefused w c src dst uplevel m go h = elim (Option-cases (sublevel_of src dst)) [
  | inl e ↦ inl (
    rw (permit_two, e) refl,
    split_last-IsBare src (
        unfold sublevel_of in
        elim (Option-cases (split_last src)) [
          | inl f ↦ f
          | inr (r, f) ↦ absurd (ground (arith, e, f))
        ]),
  )
  | inr (s, e) ↦ rw (permit_two, e) (permit_at-IsRefused (IsBare src) w c src dst uplevel s m go h)
]

-- A file system request for a path of another master's share, or one that the user's directories do not
-- allow, is refused: the master answers with an error code, sends nothing else, and nothing of its
-- state changes; or it throws, which only a move or a copy of a path without a '/' does. A move and a copy need only read the source and write the target.
pub process_fs-IsRefused :
    (w : World) (c : Client) (r : FsRequest) (m : Master)
    → (routed w (path_of r) m && allowed c.user r) ≡ false
    → IsRefused (Throws r) (process_fs w c r m) m
unfolding process_fs path_of allowed
process_fs-IsRefused w c (ls path) m h = permit-IsRefused ⊥ w c path 1 m _ h
process_fs-IsRefused w c (stat path) m h = permit-IsRefused ⊥ w c path 1 m _ h
process_fs-IsRefused w c (mkdir path) m h = permit-IsRefused ⊥ w c path 2 m _ h
process_fs-IsRefused w c (mv src dst) m h = permit_two-IsRefused w c src dst _ m _ h
process_fs-IsRefused w c (rm path) m h = permit-IsRefused ⊥ w c path 2 m _ h
process_fs-IsRefused w c (cp src dst) m h = permit_two-IsRefused w c src dst _ m _ h
process_fs-IsRefused w c (touch path ts) m h = permit-IsRefused ⊥ w c path 2 m _ h
process_fs-IsRefused w c (open_file mode dataport hintip path) m h =
    permit-IsRefused ⊥ w c path mode m _ h

-- A master of the list has the address, and a key that is not negative as an int.
abbrev pub HasMaster : Address → Map ℕ Address → Type 0
HasMaster node [] = ⊥
HasMaster node ((k, a) ∷ list) =
    ((a.ip ≡ node.ip) × (a.port ≡ node.port) × (k < 2 ^ 31)) ⊎ HasMaster node list

router_of-HasMaster :
    (node : Address) (list : Map ℕ Address)
    → is_neg (router_of node list) ≡ false
    → HasMaster node list
unfolding router_of
router_of-HasMaster node [] h = ground (arith, h)
router_of-HasMaster node ((k, a) ∷ list) h =
    elim (Bool-cases (a.port == node.port && text_eq a.ip node.ip)) [
      | inl e ↦ inl (ground (arith, h, e, text_eq_iff a.ip node.ip))
      | inr e ↦ inr (router_of-HasMaster node list (ground (arith, h, e)))
    ]

-- A request comes from a known sender: with a positive key from the address and the port of the user's log-in,
-- with the key 0 from the address of a slave or a master.
abbrev pub IsKnown : Text → ℕ → ℕ → Master → Type 0
IsKnown ip port key m =
    (user : User) × (User.lookup key m.users ≡ some user)
    × (((0 < key) × (key < 2 ^ 31) × (user.ip ≡ ip) × (user.port ≡ port))
        ⊎ ((key ≡ 0)
            × (((i : ℕ) × (Maps.find (record { ip = ip; port = port }) m.slaves.addr_list ≡ some i))
                ⊎ HasMaster (record { ip = ip; port = port }) m.routing.address_list)))

is_secure-IsKnown :
    (ip : Text) (port key : ℕ) (user : User) (m : Master)
    → User.lookup key m.users ≡ some user
    → is_secure ip port key user m ≡ true
    → IsKnown ip port key m
unfolding is_secure get_slave_id get_router_id_of
is_secure-IsKnown ip port key user m e h = elim (Bool-cases (is_positive key)) [
  | inl f ↦ (user, e, inl (ground (arith, h, f, text_eq_iff user.ip ip)))
  | inr f ↦ elim (Bool-cases (key == 0)) [
    | inr g ↦ absurd (ground (arith, h, f, g))
    | inl g ↦
        let from : Address = record { ip = ip; port = port } in
        elim (Option-cases (Maps.find from m.slaves.addr_list)) [
          | inr (i, j) ↦ (user, e, inr (ground (arith, g), inl (i, j)))
          | inl j ↦ (
            user,
            e,
            inr (
              ground (arith, g),
              inr (router_of-HasMaster from m.routing.address_list (ground (arith, h, f, g, j))),
            ),
          )
        ]
  ]
]

is_secure-address :
    (ip : Text) (port key : ℕ) (user : User) (m : Master)
    → is_secure ip port key user m ≡ false
    → 0 < key
    → key < 2 ^ 31
    → ¬ ((user.ip ≡ ip) × (user.port ≡ port))
unfolding is_secure
is_secure-address ip port key user m h a b (e, f) =
    ground (arith, h, a, b, e, f, text_eq_iff user.ip ip)

-- A request is handed to the handlers only if it comes from a known sender, and then with the user of its key.
-- Otherwise nothing of the master's state changes, and the answer is the code E_EXPIRED if there is no user of the key, and
-- else E_SECURITY, which the user of a positive key never gets at the address and port of his log-in.
pub process-IsKnown :
    (w : World) (ip : Text) (port key : ℕ) (r : Request) (m : Master)
    → (IsKnown ip port key m
        × ((user : User) × (User.lookup key m.users ≡ some user)
            × (process w ip port key r m
                ≡ process_ex w
                    (record { ip = ip; port = port; user = user; key = key })
                    r
                    (refresh w.now key user m))))
      ⊎ (((User.lookup key m.users ≡ none) × (process w ip port key r m ≡ reject e_expired m))
          ⊎ ((user : User) × (User.lookup key m.users ≡ some user)
              × (process w ip port key r m ≡ reject e_security m)
              × (0 < key → key < 2 ^ 31 → ¬ ((user.ip ≡ ip) × (user.port ≡ port)))))
unfolding process
process-IsKnown w ip port key r m = elim (Option-cases (User.lookup key m.users)) [
  | inl e ↦ inr (inl (e, rw (process, e) refl))
  | inr (user, e) ↦ elim (Bool-cases (is_secure ip port key user m)) [
    | inl f ↦ inl (is_secure-IsKnown ip port key user m e f, (user, e, rw (process, e, f) refl))
    | inr f ↦ inr (inr (user, e, rw (process, e, f) refl, is_secure-address ip port key user m f))
  ]
]
