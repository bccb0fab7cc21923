-- ===== src/Slaves/Votes.antt =====
-- SlaveManager::voteBadSlaves: a slave reports others that it finds bad.
use sector_sphere.Base.{
  ℕ, zero, suc, ◌≡◌, refl, Map, Set, Bool, false, ◌||◌, ◌&&◌, Option, none, some, List, [], ◌∷◌,
  ◌==◌, nat_key, arith, inl, inr, Bool-cases, subst,
}
use sector_sphere.Base.Maps.{find, put, find-put}
use sector_sphere.Base.Sets.{has, add, has-add}
use sector_sphere.Base.Wire.{Reader, ◌>>=◌, get32, get_text, get_bytes}
use sector_sphere.Address.{Address, addr_key, addr_eq, addr_eq_iff}
use sector_sphere.Slaves.{SlaveNode, SlaveManager}
use sector_sphere.Slaves.IoNode.{or_blank}

-- The entries of 68 bytes: a text in 64 bytes, and a port.
unfoldable pub get_votes : ℕ → Reader (List Address)
get_votes zero p = some ([], p)
get_votes (suc num) p = do
  (ip, rest) ← get_text p
  (field, p) ← get_bytes 64 p
  (port, p) ← get32 p
  (votes, p) ← get_votes num p
  some (record { ip = ip; port = port } ∷ votes, p)

abbrev pub or_zero : Option ℕ → ℕ
or_zero none = 0
or_zero (some i) = i

-- m_mAddrList[a], which enters 0 for an address that is missing.
abbrev pub entered : Address → Map Address ℕ → Map Address ℕ
entered a addrs = put a (or_zero (find a addrs)) addrs

-- A vote against an address; the slave is entered too if it is missing.
unfoldable pub vote : SlaveNode → ℕ → Address → SlaveManager → SlaveManager
vote blank vid a m =
    let slave = or_zero (find a m.addr_list) in
    let s = or_blank blank (find slave m.slave_list) in
    record m {
      addr_list = entered a m.addr_list;
      slave_list = put slave (record s { bad_vote = add vid s.bad_vote }) m.slave_list;
    }

unfoldable pub vote_all : SlaveNode → ℕ → List Address → SlaveManager → SlaveManager
unfolding vote
vote_all blank vid [] m = m
vote_all blank vid (a ∷ votes) m = vote_all blank vid votes (vote blank vid a m)

-- `none` is a read behind the buffer. The code is 0.
unfoldable pub vote_bad_slaves :
    SlaveNode → Address → ℕ → List ℕ → SlaveManager → Option SlaveManager
unfolding get_votes vote_all
vote_bad_slaves blank voter num buf m =
    let m' = record m { addr_list = entered voter m.addr_list } in
    let vid = or_zero (find voter m.addr_list) in
    elim (get_votes num buf) [ none ↦ none | some r ↦ some (vote_all blank vid r.0 m') ]

-- The votes against a slave.
abbrev pub votes_of : Option SlaveNode → Set ℕ
votes_of none = []
votes_of (some s) = s.bad_vote

-- Whether one of some addresses is that of a slave.
unfoldable pub is_voted : Map Address ℕ → ℕ → List Address → Bool
is_voted addrs i [] = false
is_voted addrs i (a ∷ votes) = or_zero (find a addrs) == i || is_voted addrs i votes

entered_same :
    (a : Address) (addrs : Map Address ℕ)
    → or_zero (find a (entered a addrs)) ≡ or_zero (find a addrs)
entered_same a addrs =
    rw (find-put a a (or_zero (find a addrs)) addrs) (ground (arith, addr_eq_iff a a))

find-entered :
    (a b : Address) (addrs : Map Address ℕ)
    → or_zero (find b (entered a addrs)) ≡ or_zero (find b addrs)
find-entered a b addrs = elim (Bool-cases (addr_eq a b)) [
  | inl e ↦
      subst (λ b. or_zero (find b (entered a addrs)) ≡ or_zero (find b addrs))
        ((addr_eq_iff a b).0 e) (entered_same a addrs)
  | inr e ↦ rw (find-put a b (or_zero (find a addrs)) addrs) (ground (arith, e))
]

voted : SlaveNode → ℕ → Option SlaveNode → SlaveNode
voted blank vid o = let s = or_blank blank o in record s { bad_vote = add vid s.bad_vote }

has-voted :
    (blank : SlaveNode) (vid v : ℕ) (o : Option SlaveNode)
    → blank.bad_vote ≡ []
    → has v (voted blank vid o).bad_vote ≡ (has v (votes_of o) || v == vid)
unfolding voted has add
has-voted blank vid v none h = rw (h) (ground arith)
has-voted blank vid v (some s) h = ground (arith, has-add vid v s.bad_vote)

has-put-voted :
    (blank : SlaveNode) (vid v i slave : ℕ) (slaves : Map ℕ SlaveNode)
    → blank.bad_vote ≡ []
    → has v (votes_of (find i (put slave (voted blank vid (find slave slaves)) slaves)))
      ≡ (has v (votes_of (find i slaves)) || (slave == i && v == vid))
has-put-voted blank vid v i slave slaves h = elim (Bool-cases (slave == i)) [
  | inl e ↦
      let f : slave ≡ i = ground (arith, e) in
      subst
        (λ i.
          has v (votes_of (find i (put slave (voted blank vid (find slave slaves)) slaves)))
          ≡ (has v (votes_of (find i slaves)) || (slave == i && v == vid)))
        f
        (rw (find-put slave slave (voted blank vid (find slave slaves)) slaves)
          (ground (arith, has-voted blank vid v (find slave slaves) h)))
  | inr e ↦ rw (find-put slave i (voted blank vid (find slave slaves)) slaves) (ground (arith, e))
]

has-vote :
    (blank : SlaveNode) (vid v i : ℕ) (a : Address) (m : SlaveManager)
    → blank.bad_vote ≡ []
    → has v (votes_of (find i (vote blank vid a m).slave_list))
      ≡ (has v (votes_of (find i m.slave_list)) || (or_zero (find a m.addr_list) == i && v == vid))
unfolding vote voted
has-vote blank vid v i a m h =
    has-put-voted blank vid v i (or_zero (find a m.addr_list)) m.slave_list h

is_voted-entered :
    (i : ℕ) (a : Address) (votes : List Address) (addrs : Map Address ℕ)
    → is_voted (entered a addrs) i votes ≡ is_voted addrs i votes
unfolding is_voted
is_voted-entered i a [] addrs = refl
is_voted-entered i a (b ∷ votes) addrs =
    ground (arith, find-entered a b addrs, is_voted-entered i a votes addrs)

has-vote_all :
    (blank : SlaveNode) (vid v i : ℕ) (votes : List Address) (m : SlaveManager)
    → blank.bad_vote ≡ []
    → has v (votes_of (find i (vote_all blank vid votes m).slave_list))
      ≡ (has v (votes_of (find i m.slave_list)) || (is_voted m.addr_list i votes && v == vid))
unfolding vote_all vote is_voted
has-vote_all blank vid v i [] m h = ground arith
has-vote_all blank vid v i (a ∷ votes) m h = ground (
  arith,
  has-vote_all blank vid v i votes (vote blank vid a m) h,
  has-vote blank vid v i a m h,
  is_voted-entered i a votes m.addr_list,
)

-- Where the votes can be read from the buffer, the id of the voter is entered into the votes against
-- the slaves of their addresses, and no other votes change. An address that is not known, the voter's or
-- another, stands for slave 0. A blank node has no votes.
pub vote_bad_slaves_cases :
    (blank : SlaveNode) (voter : Address) (num v i : ℕ) (buf : List ℕ) (r : List Address × List ℕ)
    (m : SlaveManager)
    → blank.bad_vote ≡ []
    → get_votes num buf ≡ some r
    → (m' : SlaveManager) × ((vote_bad_slaves blank voter num buf m ≡ some m')
        × (has v (votes_of (find i m'.slave_list)) ≡ (
            has v (votes_of (find i m.slave_list))
            || (is_voted m.addr_list i r.0 && v == or_zero (find voter m.addr_list)))))
unfolding vote_bad_slaves
vote_bad_slaves_cases blank voter num v i buf r m h g =
    let start = record m { addr_list = entered voter m.addr_list } in
    let vid = or_zero (find voter m.addr_list) in
    (
      vote_all blank vid r.0 start,
      (
        rw (vote_bad_slaves, g) refl,
        ground (
          arith,
          has-vote_all blank vid v i r.0 start h,
          is_voted-entered i voter r.0 m.addr_list,
        ),
      ),
    )
