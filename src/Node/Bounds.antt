-- ===== src/Node/Bounds.antt =====
-- common/snode.cpp: how long the text of SNode::serialize is, for the buffers of its callers.
use sector_sphere.Base.{
  ℕ, ◌+◌, ◌^◌, ◌%◌, ◌≤◌, Set, true, false, [], ◌∷◌, ◌++◌, length, length-append, flag, All, arith,
  Bool,
}
use sector_sphere.Base.Decimal.{
  print, print32, print64, length-print, length-print32, length-print64,
}
use sector_sphere.Address.{Address}
use sector_sphere.Index.Tree.{Attr}
use sector_sphere.Node.{put_locations, put_fields, serialize}
use sector_sphere.Node.RoundTrip.{IsPlain, Fits}

-- The bytes of the addresses, with a number of bytes for each beside the address itself.
abbrev pub room : ℕ → Set Address → ℕ
room each [] = 0
room each (a ∷ s) = length a.ip + each + room each s

length-put_locations :
    (s : Set Address)
    → All IsPlain s
    → (room 3 s ≤ length (put_locations s)) × (length (put_locations s) ≤ room 7 s)
unfolding put_locations
length-put_locations [] h = ground arith
length-put_locations (a ∷ s) h = ground (
  arith,
  h.0.1,
  length-put_locations s h.1,
  length-print 4 a.port,
  length-append a.ip (b',' ∷ (print a.port ++ put_locations s)),
  length-append (print a.port) (put_locations s),
)

length-flag : (b : Bool) → (1 ≤ length (print (flag b))) × (length (print (flag b)) ≤ 1)
length-flag true = length-print 0 1 (ground arith)
length-flag false = length-print 0 0 (ground arith)

length-put_fields :
    (n : Attr)
    → Fits n
    → (room 3 n.location + 5 ≤ length (put_fields n))
      × (length (put_fields n) ≤ room 7 n.location + 43)
unfolding put_fields
length-put_fields n h = ground (
  arith,
  length-flag n.is_dir,
  length-print64 n.time_stamp h.time_word,
  length-print64 n.size h.size_word,
  length-put_locations n.location h.plain,
  length-append (print (flag n.is_dir))
      (b',' ∷ (print64 n.time_stamp ++ b',' ∷ (print64 n.size ++ put_locations n.location))),
  length-append (print64 n.time_stamp) (b',' ∷ (print64 n.size ++ put_locations n.location)),
  length-append (print64 n.size) (put_locations n.location),
)

-- The text of a node whose addresses hold no comma, whose ports are below 2^16 and whose size and
-- time are 64-bit words has at least the bytes of the name, three more than the address for each
-- location, and 8; it has at most the bytes of the name, seven more than the address for each
-- location, and 56. So the name and 64 bytes hold the text of a node without locations and its zero,
-- and do not when the locations with three bytes each come to more than 55 bytes.
pub serialize-room :
    (n : Attr)
    → Fits n
    → (length n.name + room 3 n.location + 8 ≤ length (serialize n))
      × (length (serialize n) ≤ length n.name + room 7 n.location + 56)
unfolding serialize
serialize-room n h = ground (
  arith,
  length-print32 (length n.name % 2 ^ 32),
  length-put_fields n h,
  length-append (print32 (length n.name % 2 ^ 32)) (b',' ∷ (n.name ++ b',' ∷ put_fields n)),
  length-append n.name (b',' ∷ put_fields n),
)
