-- ===== src/Index/Saved/Examples.antt =====
-- A saved directory at a concrete input.
use sector_sphere.Base.{
  ◌≡◌, ◌^◌, ◌+◌, ◌≤◌, ◌<◌, ◌≢◌, refl, false, true, Option, some, none, length, arith, [], ◌∷◌,
  codes, Text, ℕ, inl, inr, List, negsuc,
}
use sector_sphere.Address.{Address, addr_key}
use sector_sphere.Node.RoundTrip.{Fits}
use sector_sphere.Index.Tree.{Attr, Directory, nil, entry}
use sector_sphere.Index.Tree.Order.{IsOrdered}
use sector_sphere.Index.Saved.{serialize, deserialize}
use sector_sphere.Index.Saved.Lines.{IsKept}
use sector_sphere.Index.Saved.Texts.{IsWritten}
use sector_sphere.Index.Saved.RoundTrip.{deserialize-serialize_index}

abbrev first : Address
first = record { ip = codes "10.0.0.1"; port = 9000 }

abbrev second : Address
second = record { ip = codes "10.0.0.2"; port = 9000 }

abbrev folder : Text → Attr
folder n = record {
  name = n;
  is_dir = true;
  location = [];
  time_stamp = 7;
  size = 0;
  checksum = [];
}

abbrev file : Text → Attr
file n = record {
  name = n;
  is_dir = false;
  location = first ∷ second ∷ [];
  time_stamp = 8;
  size = 4096;
  checksum = [];
}

-- /a/b/c, /a/d and /e
abbrev tree : Directory
tree =
    entry (codes "a") (folder (codes "a"))
      (entry (codes "b") (folder (codes "b")) (entry (codes "c") (file (codes "c")) nil nil)
        (entry (codes "d") (file (codes "d")) nil nil))
      (entry (codes "e") (file (codes "e")) nil nil)

text_of_tree :
    serialize tree 1
    ≡ some (
        codes
          "1 1,a,1,7,0\n2 1,b,1,7,0\n3 1,c,0,8,4096,10.0.0.1,9000,10.0.0.2,9000\n2 1,d,0,8,4096,10.0.0.1,9000,10.0.0.2,9000\n1 1,e,0,8,4096,10.0.0.1,9000,10.0.0.2,9000\n")
unfolding serialize sector_sphere.Node.serialize sector_sphere.Base.Decimal.print32
    sector_sphere.Base.Decimal.print64
text_of_tree = refl

folder-Fits : (n : Text) → Fits (folder n)
folder-Fits n = record { time_word = ground arith; size_word = ground arith; plain = tt }

folder-IsKept : (c : ℕ) → c ≢ b'\n' → IsKept (folder (c ∷ []))
unfolding sector_sphere.Base.Sets.add_all sector_sphere.Node.serialize
    sector_sphere.Base.Decimal.print32 sector_sphere.Base.Decimal.print64
folder-IsKept c h = record {
  fits = folder-Fits (c ∷ []);
  short = ground arith;
  room = ground arith;
  one_line = ground (arith, h);
  no_checksum = refl;
  in_order = refl;
}

file-Fits : (n : Text) → Fits (file n)
file-Fits n = record { time_word = ground arith; size_word = ground arith; plain = ground arith }

file-IsKept : (c : ℕ) → c ≢ b'\n' → IsKept (file (c ∷ []))
unfolding sector_sphere.Base.Sets.add_all sector_sphere.Base.Sets.add sector_sphere.Node.serialize
    sector_sphere.Base.Keys.text_eq sector_sphere.Base.Keys.text_lt
    sector_sphere.Base.Decimal.print32 sector_sphere.Base.Decimal.print64
file-IsKept c h = record {
  fits = file-Fits (c ∷ []);
  short = ground arith;
  room = ground arith;
  one_line = ground (arith, h);
  no_checksum = refl;
  in_order = refl;
}

tree-IsWritten : IsWritten 0 tree
unfolding IsWritten
tree-IsWritten = (
  refl,
  folder-IsKept b'a' (ground arith),
  ground arith,
  inl refl,
  (
    refl,
    folder-IsKept b'b' (ground arith),
    ground arith,
    inl refl,
    (refl, file-IsKept b'c' (ground arith), ground arith, inr refl, tt, tt),
    (refl, file-IsKept b'd' (ground arith), ground arith, inr refl, tt, tt),
  ),
  (refl, file-IsKept b'e' (ground arith), ground arith, inr refl, tt, tt),
)

tree-IsOrdered : IsOrdered tree
unfolding sector_sphere.Base.Keys.text_lt
tree-IsOrdered = ground arith

deserialize-serialize_index_example :
    (text : Text) × (serialize tree 1 ≡ some text) × (deserialize none text nil ≡ some tree)
deserialize-serialize_index_example = deserialize-serialize_index tree tree-IsOrdered tree-IsWritten
