-- ===== src/Peers.antt =====
-- gmp/prec.h and gmp/prec.cpp, class CPeerManagement: what the messaging layer knows of its peers.
-- Integers are 32-bit words, clock readings (CTimer::getTime, in microseconds) are arguments. A
-- CPeerRecord* in the two sets is the key of its record in m_sPeerRec: the key never changes, and
-- m_sPeerRec has one record for each. m_iRTT, which nothing reads, is left out.
pub mod Records
pub mod Recent
pub mod Table
pub mod Limit
pub mod Rtt
mod Examples
use sector_sphere.Base.{
  ℕ, ◌+◌, ◌*◌, ◌-◌, ◌/◌, ◌%◌, ◌^◌, ◌≡◌, ◌↔◌, ℤ, pos, negsuc, Text, Map, Key, text_key, nat_key,
  Bool, true, false, ◌&&◌, ◌||◌, none, some, List, [], ◌∷◌, ◌++◌, length, if◌then◌else◌, ◌==◌, ltb,
  slt32, sub64, arith,
}
use sector_sphere.Base.Maps.{find, put, erase}
use sector_sphere.Base.Keys.{
  text_eq, text_lt, text_eq_iff, text_lt_irrefl, text_lt_trans, text_lt_total,
}
use sector_sphere.Base.Decimal.{print32}

pub record Peer : Type 0 where
  pub ip : Text
  pub port : ℕ
  pub session : ℕ

pub record CPeerRecord : Type 0 where
  pub peer : Peer
  pub open peer use *
  pub id : ℕ
  pub time_stamp : ℕ
  pub flow_window : ℕ

abbrev pub peer_eq : Peer → Peer → Bool
peer_eq a b = text_eq a.ip b.ip && (a.port == b.port && a.session == b.session)

-- CFPeerRec::operator()
abbrev pub peer_lt : Peer → Peer → Bool
peer_lt a b =
    if text_eq a.ip b.ip
    then if a.port == b.port then ltb b.session a.session else ltb b.port a.port
    else text_lt b.ip a.ip

pub peer_eq_iff : (a b : Peer) → (peer_eq a b ≡ true) ↔ (a ≡ b)
peer_eq_iff a b = ground (arith, text_eq_iff a.ip b.ip)

pub peer_lt_irrefl : (a : Peer) → peer_lt a a ≡ false
peer_lt_irrefl a = ground (arith, text_lt_irrefl a.ip)

pub peer_lt_trans : (a b c : Peer) → peer_lt a b ≡ true → peer_lt b c ≡ true → peer_lt a c ≡ true
peer_lt_trans a b c h k = ground (
  arith,
  text_eq_iff a.ip b.ip,
  text_eq_iff b.ip c.ip,
  text_eq_iff a.ip c.ip,
  text_lt_trans c.ip b.ip a.ip,
  text_lt_trans b.ip a.ip b.ip,
  text_lt_irrefl b.ip,
)

pub peer_lt_total : (a b : Peer) → peer_eq a b ≡ false → peer_lt a b ≡ false → peer_lt b a ≡ true
peer_lt_total a b h k =
    ground (arith, text_eq_iff a.ip b.ip, text_eq_iff b.ip a.ip, text_lt_total b.ip a.ip)

instance abbrev pub peer_key : Key Peer
peer_key = record {
  eq = peer_eq;
  lt = peer_lt;
  eq_iff = peer_eq_iff;
  lt_irrefl = peer_lt_irrefl;
  lt_trans = peer_lt_trans;
  lt_total = peer_lt_total;
}

pub record CPeerManagement : Type 0 where
  pub peer_rec : Map Peer CPeerRecord
  pub by_ts : List Peer
  pub rtt : Map Text ℕ
  pub recent_rec : Map ℕ (List CPeerRecord)

-- *i through the pointer. No operation leaves a pointer without its record (Peers/Table).
unfoldable pub time_of : Map Peer CPeerRecord → Peer → ℕ
time_of recs p = elim (find p recs) [ none ↦ 0 | some r ↦ r.time_stamp ]

-- m_sPeerRecByTS.insert: CFPeerRecByTS puts the latest first, and equal times are one key.
unfoldable pub insert_ts : Map Peer CPeerRecord → Peer → List Peer → List Peer
insert_ts recs p [] = p ∷ []
insert_ts recs p (q ∷ s) =
    if time_of recs p == time_of recs q
    then q ∷ s
    else if ltb (time_of recs q) (time_of recs p)
    then p ∷ q ∷ s
    else q ∷ insert_ts recs p s

-- m_sPeerRecByTS.erase of a pointer: of the key that its time is.
unfoldable pub erase_ts : Map Peer CPeerRecord → Peer → List Peer → List Peer
erase_ts recs p [] = []
erase_ts recs p (q ∷ s) =
    let rest = erase_ts recs p s in if time_of recs p == time_of recs q then s else q ∷ rest

-- An int shifted right by three, its sign kept.
abbrev pub shift3 : ℕ → ℕ
shift3 w = if ltb w (2 ^ 31) then w / 8 else (w + 7 * 2 ^ 32) / 8

-- The new round trip time of an address.
unfoldable pub smooth : ℕ → ℕ → ℕ
smooth old rtt = shift3 ((old * 7 + rtt) % 2 ^ 32)

unfoldable pub update_rtt : Text → ℕ → Map Text ℕ → Map Text ℕ
unfolding smooth
update_rtt ip rtt m =
    if slt32 0 rtt
    then put ip (elim (find ip m) [ none ↦ rtt | some old ↦ smooth old rtt ]) m
    else m

-- The records at the front that are ten seconds old.
unfoldable pub drop_old : ℕ → List CPeerRecord → List CPeerRecord
drop_old ts [] = []
drop_old ts (p ∷ l) =
    let rest = drop_old ts l in if ltb ts (p.time_stamp + 10 * 1000000) then p ∷ l else rest

unfoldable pub any_ip : Text → Map Peer CPeerRecord → Bool
any_ip ip [] = false
any_ip ip ((p, r) ∷ m) = text_eq p.ip ip || any_ip ip m

-- "delete first one"
unfoldable pub evict : CPeerManagement → CPeerManagement
unfolding any_ip
evict st = elim st.by_ts [
  | [] ↦ st
  | t ∷ rest ↦
      let recs = erase t st.peer_rec in
      record st {
        peer_rec = recs;
        by_ts = rest;
        rtt = if any_ip t.ip recs then st.rtt else erase t.ip st.rtt;
      }
]

unfoldable pub get_rtt : Text → CPeerManagement → ℤ
get_rtt ip st = elim (find ip st.rtt) [ none ↦ negsuc 0 | some t ↦ pos t ]

unfoldable pub clear_rtt : Text → CPeerManagement → CPeerManagement
clear_rtt ip st = record st { rtt = erase ip st.rtt }

-- m_iFlowWindow - (CTimer::getTime() - m_llTimeStamp) / 1000, in uint64_t, as an int.
abbrev pub thresh : ℕ → CPeerRecord → ℕ
thresh now r = (r.flow_window + 2 ^ 32 - sub64 now r.time_stamp / 1000 % 2 ^ 32) % 2 ^ 32

-- The microseconds that the sender sleeps.
unfoldable pub flow_control : Peer → ℕ → CPeerManagement → ℕ
flow_control p now st = elim (find p st.peer_rec) [
  | none ↦ 0
  | some r ↦
      if slt32 100 (thresh now r) then 100000 else if slt32 10 (thresh now r) then 10000 else 0
]

-- A peer that is there: the record takes the higher id and the flow window, and a new time.
unfoldable pub refresh : CPeerRecord → CPeerRecord → ℕ → CPeerManagement → CPeerManagement
unfolding insert_ts erase_ts
refresh pr old now st =
    let id = if slt32 old.id pr.id then pr.id else old.id in
    let fresh = record old { id = id; flow_window = pr.flow_window; time_stamp = now } in
    let recs = put pr.peer fresh st.peer_rec in
    record st {
      peer_rec = recs;
      by_ts = insert_ts recs pr.peer (erase_ts st.peer_rec pr.peer st.by_ts);
    }

-- A new peer, within the limit m_uiRecLimit.
unfoldable pub enter : ℕ → CPeerRecord → CPeerManagement → CPeerManagement
unfolding insert_ts evict
enter limit pr st =
    let id = if slt32 0 pr.id then pr.id else 2 ^ 32 - 1 in
    let recs = put pr.peer (record pr { id = id }) st.peer_rec in
    let st' = record st { peer_rec = recs; by_ts = insert_ts recs pr.peer st.by_ts } in
    if ltb limit (length st'.by_ts) then evict st' else st'

unfoldable pub has_recent : Peer → ℕ → List CPeerRecord → Bool
has_recent p id [] = false
has_recent p id (r ∷ l) = peer_eq p r.peer && id == r.id || has_recent p id l

module _ (dhash : Text → ℕ → ℕ) where
  -- CPeerManagement::hash, with the hash space of 20 bits.
  unfoldable pub hash : Peer → ℕ → ℕ
  hash p id = dhash (p.ip ++ (print32 p.port ++ (print32 p.session ++ print32 id))) 20

  unfoldable pub add_recent : CPeerRecord → ℕ → CPeerManagement → CPeerManagement
  unfolding hash drop_old
  add_recent pr ts st =
      let key = hash pr.peer pr.id in
      record st {
        recent_rec =
            put key
              (elim (find key st.recent_rec) [ none ↦ pr ∷ [] | some l ↦ drop_old ts l ++ pr ∷ [] ])
              st.recent_rec;
      }

  unfoldable pub hit : Peer → ℕ → CPeerManagement → Bool
  unfolding hash has_recent
  hit p id st = elim (find (hash p id) st.recent_rec) [ none ↦ false | some l ↦ has_recent p id l ]

  -- The clock is read for the record, for the recent records, and again for a peer that is there.
  unfoldable pub insert : ℕ → Peer → ℕ → ℕ → ℕ → ℕ → ℕ → ℕ → CPeerManagement → CPeerManagement
  unfolding update_rtt add_recent refresh enter
  insert limit p id rtt fw t0 t1 t2 st =
      let pr : CPeerRecord = record { peer = p; id = id; time_stamp = t0; flow_window = fw } in
      let st = add_recent pr t1 (record st { rtt = update_rtt p.ip rtt st.rtt }) in
      elim (find p st.peer_rec) [ none ↦ enter limit pr st | some old ↦ refresh pr old t2 st ]
