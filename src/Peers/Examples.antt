-- ===== src/Peers/Examples.antt =====
-- Peers at concrete inputs.
use sector_sphere.Base.{
  ℕ, ◌≡◌, ◌+◌, ◌≤◌, refl, codes, Text, length, none, some, [], ◌∷◌, List, true, false, arith, pos,
  negsuc, ◌⊎◌, ◌||◌,
}
use sector_sphere.Base.Maps.{find}
use sector_sphere.Peers.{Peer, CPeerRecord, CPeerManagement, peer_key, hit, get_rtt, flow_control}
use sector_sphere.Peers.Recent.{Message, receive, run, hit-run}
use sector_sphere.Peers.Table.{IsMatched}
use sector_sphere.Peers.Limit.{run-IsMatched}

-- All messages of one length collide.
abbrev lengths : Text → ℕ → ℕ
lengths t m = length t

abbrev none_yet : CPeerManagement
none_yet = record { peer_rec = []; by_ts = []; rtt = []; recent_rec = [] }

abbrev near : Peer
near = record { ip = codes "10.0.0.1"; port = 6000; session = 7 }

abbrev far : Peer
far = record { ip = codes "10.0.0.2"; port = 6000; session = 7 }

abbrev from_near : Message
from_near = record { peer = near; id = 5; rtt = 100; fw = 200; t0 = 1000; t1 = 1001; t2 = 1002 }

abbrev from_far : Message
from_far = record { peer = far; id = 5; rtt = 0; fw = 0; t0 = 2000; t1 = 2001; t2 = 2002 }

abbrev again : Message
again = record { peer = near; id = 6; rtt = 180; fw = 200; t0 = 3000; t1 = 3001; t2 = 3002 }

abbrev after : CPeerManagement
after = run lengths 1 (from_near ∷ []) none_yet

none_yet-IsMatched : IsMatched 1 0 none_yet
unfolding find sector_sphere.Base.Sets.has
none_yet-IsMatched = record {
  is_sorted = tt;
  same = λ p. refl;
  ranked = tt;
  before = tt;
  same_size = refl;
  within = ground arith;
}

hit-run_example :
    hit lengths near 5
      (run lengths 1 (from_far ∷ again ∷ []) (receive lengths 1 from_near none_yet))
    ≡ true
hit-run_example =
    hit-run lengths 1 10000999 from_near (from_far ∷ again ∷ []) none_yet (ground arith)
      (ground arith) (ground arith)

run-IsMatched_example :
    IsMatched 1 3002 (run lengths 1 (from_near ∷ from_far ∷ again ∷ []) none_yet)
run-IsMatched_example =
    run-IsMatched lengths 1 0 (from_near ∷ from_far ∷ again ∷ []) none_yet none_yet-IsMatched
      (ground arith)

-- (7 * 100 + 180) / 8
smoothed : get_rtt near.ip (run lengths 1 (from_near ∷ from_far ∷ again ∷ []) none_yet) ≡ pos 110
unfolding get_rtt find run sector_sphere.Peers.insert sector_sphere.Base.Maps.put
    sector_sphere.Base.Keys.text_eq sector_sphere.Peers.time_of sector_sphere.Base.Keys.text_lt
    sector_sphere.Base.Maps.erase sector_sphere.Base.Words.slt32
smoothed = refl
