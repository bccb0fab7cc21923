-- ===== src/Master/Joins/Masters.antt =====
-- A new master enters all the others at one address.
use sector_sphere.Base.{
  ◌≡◌, ◌≢◌, refl, ap, ◌∙◌, ◌||◌, if◌then◌else◌, ℕ, Text, Map, Bool, true, false, Option, none, some,
  List, [], ◌∷◌, arith, inl, inr, Bool-cases, Option-cases, ◌==◌, is_some,
}
use sector_sphere.Base.Maps
use sector_sphere.Base.Keys.{nat_key}
use sector_sphere.Address.{Address}
use sector_sphere.Routing
use sector_sphere.Routing.{Routing}
use sector_sphere.Security.{is_positive}
use sector_sphere.Master.{Master, World, others}
use sector_sphere.Master.Joins.{
  Introduction, introduced, process_master_join, join_all, join_masters,
}

find-others :
    (k key : ℕ) (al : Map ℕ Address) → k ≢ key → Maps.find k (others key al) ≡ Maps.find k al
unfolding others Maps.find
find-others k key [] h = refl
find-others k key ((i, a) ∷ al) h = ground (arith, find-others k key al h)

-- What a table has at a key, or else an address, if a test holds.
abbrev pub or_at : Option Address → Bool → Address → Option Address
or_at (some a) b addr = some a
or_at none b addr = if b then some addr else none

kept : (o : Option Address) (addr : Address) → o ≡ or_at o false addr
kept none addr = refl
kept (some a) addr = refl

find-insert :
    (k key : ℕ) (addr : Address) (r : Routing)
    → Maps.find k (Routing.insert key addr r).0.address_list
      ≡ or_at (Maps.find k r.address_list) (k == key) addr
unfolding Routing.insert
find-insert k key addr r = elim (Option-cases (Maps.find key r.address_list)) [
  | inr (a, e) ↦ elim (Bool-cases (k == key)) [
    | inl g ↦
        let same : Maps.find k r.address_list ≡ some a =
          ap (λ i. Maps.find i r.address_list) (ground (arith, g)) ∙ e in
        rw (Routing.insert, e, same) refl
    | inr g ↦ rw (Routing.insert, e, g) (kept (Maps.find k r.address_list) addr)
  ]
  | inl e ↦ elim (Bool-cases (k == key)) [
    | inl g ↦
        let missing : Maps.find k r.address_list ≡ none =
          ap (λ i. Maps.find i r.address_list) (ground (arith, g)) ∙ e in
        rw (Routing.insert, e, missing) (ground (arith, g, Maps.find-put key k addr r.address_list))
    | inr g ↦
        rw (Routing.insert, e, g)
          (ground (arith, g, Maps.find-put key k addr r.address_list)
            ∙ kept (Maps.find k r.address_list) addr)
  ]
]

twice :
    (o : Option Address) (b c : Bool) (addr : Address)
    → or_at (or_at o b addr) c addr ≡ or_at o (b || c) addr
twice (some a) b c addr = refl
twice none true c addr = refl
twice none false c addr = refl

find-join_all :
    (k : ℕ) (addr : Address) (al : Map ℕ Address) (r : Routing)
    → Maps.find k (join_all addr al r).address_list
      ≡ or_at (Maps.find k r.address_list) (is_some (Maps.find k al)) addr
unfolding join_all Maps.find
find-join_all k addr [] r = kept (Maps.find k r.address_list) addr
find-join_all k addr ((i, a) ∷ al) r =
    find-join_all k addr al (Routing.insert i addr r).0
    ∙ ap (λ o. or_at o (is_some (Maps.find k al)) addr) (find-insert k i addr r)
    ∙ twice (Maps.find k r.address_list) (k == i) (is_some (Maps.find k al)) addr
    ∙ ap (λ b. or_at (Maps.find k r.address_list) b addr) (ground arith)

-- A new master that joins through another one, whose list it gets, enters every further master of that list which it does
-- not know yet at the one address that it has connected to, whatever the address of that master is; and the other
-- one enters the new one at its own address, if its key is free. The security server has let the new one in, and the key
-- of the other one is positive as an int32_t.
pub process_master_join-join_masters :
    (w : World) (ip : Text) (port key : ℕ) (m : Master) (addr : Address) (r : Routing) (k : ℕ)
    → is_positive m.router_key ≡ true
    → Maps.find k r.address_list ≡ none
    → is_some (Maps.find k m.routing.address_list) ≡ true
    → k ≢ m.router_key
    → Maps.find key m.routing.address_list ≡ none
    → let joined = process_master_join w ip port key 1 m in
      ((al : Map ℕ Address) × ((rest : List Introduction) × (joined.1
            ≡ introduced m.router_key al ∷ rest)
          × (Maps.find k (join_masters addr m.router_key al r).address_list ≡ some addr)))
      × (Maps.find key joined.0.routing.address_list ≡ some (record { ip = ip; port = port }))
unfolding process_master_join join_masters
process_master_join-join_masters w ip port key m addr r k p unknown known other free =
    let al = others m.router_key m.routing.address_list in
    let here : Address = record { ip = ip; port = port } in
    let at : Maps.find k (join_masters addr m.router_key al r).address_list ≡ some addr =
      find-join_all k addr al (Routing.insert m.router_key addr r).0
      ∙ ap (λ o. or_at o (is_some (Maps.find k al)) addr)
          (find-insert k m.router_key addr r ∙ ap (λ o. or_at o (k == m.router_key) addr) unknown)
      ∙ twice none (k == m.router_key) (is_some (Maps.find k al)) addr
      ∙ ap (λ o. or_at none (k == m.router_key || is_some o) addr)
          (find-others k m.router_key m.routing.address_list other)
      ∙ ap (λ b. or_at none (k == m.router_key || b) addr) known
      ∙ ground (arith) in
    rw (process_master_join, p)
      (
        (al, (_, refl, at)),
        find-insert key key here m.routing
            ∙ ap (λ o. or_at o (key == key) here) free
            ∙ ground arith,
      )
