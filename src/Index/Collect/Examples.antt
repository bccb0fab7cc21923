-- ===== src/Index/Collect/Examples.antt =====
-- A directory with a file, its index file and a directory, and a file beside it.
use sector_sphere.Base.{
  ◌↔◌, arith, ◌≡◌, refl, ◌⊎◌, pos, negsuc, codes, Text, true, false, some, List, [], ◌∷◌, ◌++◌,
  length, is_empty, if◌then◌else◌,
}
use sector_sphere.Meta.{parse_path}
use sector_sphere.Index.Tree.Order.{IsOrdered}
use sector_sphere.Base.Keys.{text_lt}
use sector_sphere.Index.Tree.{Attr, nil, entry, SNode}
use sector_sphere.Index.Walk.{locate, fresh}
use sector_sphere.Index.Collect.{collect_data_info, is_index}
use sector_sphere.Index.Collect.Lines.{IsCollected, IsIndexed, collect_data_info_cases}

abbrev file : Text → Attr
file name = record {
  name = name;
  is_dir = false;
  location = record { ip = codes "10.0.0.1"; port = 6000 } ∷ [];
  time_stamp = 7;
  size = 24;
  checksum = [];
}

abbrev root : SNode
root = record {
  attr = (fresh (codes "/") 0).attr;
  directory =
      entry (codes "d") (fresh (codes "d") 7).attr
        (entry (codes "f") (file (codes "f")) nil
          (entry (codes "f.idx") (file (codes "f.idx")) nil nil))
        (entry (codes "g") (file (codes "g")) nil nil);
}

lines_of_d : (collect_data_info (codes "/d") [] root).0 ≡ codes "/d/f 24 2 10.0.0.1 6000" ∷ []
unfolding collect_data_info sector_sphere.Meta.parse_path sector_sphere.Meta.parse_loop
    sector_sphere.Meta.parse_step sector_sphere.Index.Tree.find sector_sphere.Base.Keys.text_eq
    sector_sphere.Base.Decimal.print32 sector_sphere.Base.Decimal.print64 locate
lines_of_d = refl

root-IsOrdered : IsOrdered root.directory
unfolding text_lt
root-IsOrdered = ground (arith)

collect_data_info_cases_example :
    IsCollected
      (parse_path (codes "/d"))
      (codes "/d")
      []
      root
      (collect_data_info (codes "/d") [] root)
    × ((n : Text) → (is_index n ≡ true) ↔ IsIndexed n)
collect_data_info_cases_example = collect_data_info_cases (codes "/d") [] root root-IsOrdered
