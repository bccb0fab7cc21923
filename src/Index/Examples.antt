-- ===== src/Index/Examples.antt =====
-- The index at concrete inputs: a file "/a/f" with one replica, and a file "/g".
use sector_sphere.Base.{◌≡◌, refl, codes, Text, [], ◌∷◌, none, false, pos, negsuc}
use sector_sphere.Base.Sets
use sector_sphere.Base.Keys.{text_eq}
use sector_sphere.Base.{ℤ, Set, some, arith, List, if◌then◌else◌, ◌⊎◌}
use sector_sphere.Base.Keys.{text_lt}
use sector_sphere.Meta.{parse_path}
use sector_sphere.Index.Tree.Order.{IsOrdered}
use sector_sphere.Index.Walk.{locate}
use sector_sphere.Index.Whole.{substract, merge}
use sector_sphere.Index.Whole.Replicas.{substract_cases, IsFormed}
use sector_sphere.Index.Whole.Merge.{IsKept, merge_keeps_branch}
use sector_sphere.Index.Read.{
  get_under_replicated, threshold, text_contains, text_starts, lookup_locations, nodes_in,
}
use sector_sphere.Index.Read.Files.{files}
use sector_sphere.Index.Read.Listing.{IsNamed, under, get_under_replicated_cases}
use sector_sphere.Index.Read.Locations.{lookup_locations_cases}
use sector_sphere.Address.{Address, addr_key}
use sector_sphere.Index.Tree.{Attr, nil, entry, SNode, find}
use sector_sphere.Index.Walk.{attr_at, is_prefix, fresh, names_eq}
use sector_sphere.Index.Edit.{create, remove, move, update}
use sector_sphere.Index.Edit.Create.{create_cases}
use sector_sphere.Index.Edit.Remove.{remove_cases}
use sector_sphere.Index.Edit.Move.{move_cases, move_into_self}
use sector_sphere.Index.Edit.Update.{update_cases, IsReported, at_dir}

abbrev pub host : Address
host = record { ip = codes "10.0.0.1"; port = 6000 }

abbrev pub file : Text → Attr
file name = record {
  name = name;
  is_dir = false;
  location = host ∷ [];
  time_stamp = 7;
  size = 5;
  checksum = [];
}

abbrev pub sample : SNode
sample = record {
  attr = (fresh (codes "/") 0).attr;
  directory =
      entry (codes "a") (fresh (codes "a") 7).attr (entry (codes "f") (file (codes "f")) nil nil)
        (entry (codes "g") (file (codes "g")) nil nil);
}

sample-IsOrdered : IsOrdered sample.directory
unfolding text_lt
sample-IsOrdered = ground arith

sample-IsFormed : IsFormed sample.directory
sample-IsFormed = ground arith

sample-IsNamed : IsNamed sample.directory
sample-IsNamed = ground arith

-- What another slave brings: the file "/a/f" once more.
abbrev other : Address
other = record { ip = codes "10.0.0.2"; port = 6000 }

abbrev branch : SNode
branch = record {
  attr = (fresh (codes "/") 0).attr;
  directory =
      entry (codes "a") (fresh (codes "a") 8).attr
        (entry (codes "f") (record (file (codes "f")) { location = other ∷ [] }) nil nil) nil;
}

branch-IsOrdered : IsOrdered branch.directory
unfolding text_lt
branch-IsOrdered = ground arith

branch-IsFormed : IsFormed branch.directory
branch-IsFormed = ground arith

create_cases_example : (create (codes "/b/c") false sample).1 ≡ pos 0
unfolding parse_path attr_at find text_eq
create_cases_example = (create_cases (codes "/b/c") false sample (codes "a" ∷ []) (λ e. cc)).0

remove_cases_example : (remove (codes "/a") false sample).1 ≡ negsuc 0
unfolding parse_path attr_at find text_eq
remove_cases_example = (remove_cases (codes "/a") false sample (codes "g" ∷ []) (λ e. cc)).0

update_cases_example :
    let dir = parse_path (codes "/a/f") in
    let sn = record (file (codes "/a/f")) { location = Sets.add other (host ∷ []) } in
    let r = update (file (codes "/a/f")) other 3 sample in
    ((dir ≡ []) × (r ≡ (sample, negsuc 0)))
    ⊎ (IsReported sn other 3 dir (attr_at dir sample) (attr_at dir r.0) r.1
        × ((q : List Text)
            → names_eq dir q ≡ false
            → attr_at q r.0 ≡ (
                if is_prefix q dir
                then at_dir sn other 3 q (attr_at q sample)
                else attr_at q sample)))
update_cases_example = update_cases (file (codes "/a/f")) other 3 sample

move_cases_example : (move (codes "/a/f") (codes "/") (codes "h") sample).1 ≡ pos 1
unfolding parse_path attr_at find text_eq is_prefix
move_cases_example =
    (move_cases (codes "/a/f") (codes "/") (codes "h") sample (λ e. cc) refl refl refl).0

move_into_self_example :
    attr_at (codes "a" ∷ codes "f" ∷ []) (move (codes "/a") (codes "/a") (codes "b") sample).0
    ≡ none
unfolding parse_path attr_at find text_eq is_prefix
move_into_self_example =
    (move_into_self (codes "/a") (codes "/a") (codes "b") sample (λ e. cc) refl refl
      (codes "a" ∷ codes "f" ∷ [])).1

substract_cases_example : (substract (codes "/") host sample).1 ≡ pos 0
unfolding parse_path attr_at
substract_cases_example =
    (substract_cases (codes "/") host sample (codes "a" ∷ codes "f" ∷ []) sample-IsOrdered
      sample-IsFormed).0

get_under_replicated_cases_example :
    get_under_replicated 1 ((codes "a/", 2) ∷ []) (codes "/") [] sample ≡ (codes "/a/f" ∷ [], pos 1)
unfolding parse_path locate find text_eq files under threshold text_contains text_starts
get_under_replicated_cases_example =
    get_under_replicated_cases 1 ((codes "a/", 2) ∷ []) (codes "/") [] sample

lookup_locations_cases_example :
    (r : Set Address × ℤ) × (lookup_locations 4 (codes "/a") [] sample ≡ some r)
unfolding nodes_in
lookup_locations_cases_example =
    let r = lookup_locations_cases 4 (codes "/a") [] sample (omega arith) in (r.0, r.1)

merge_keeps_branch_example :
    IsKept
      (fresh (codes "a") 8).attr
      (attr_at (codes "a" ∷ []) (merge 2 sample branch).1)
      (attr_at (codes "a" ∷ []) (merge 2 sample branch).0)
unfolding attr_at find text_eq
merge_keeps_branch_example =
    merge_keeps_branch 2 sample branch (codes "a" ∷ []) (fresh (codes "a") 8).attr branch-IsOrdered
      branch-IsFormed refl
