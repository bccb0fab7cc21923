-- ===== src/Master/Names.antt =====
-- The texts that master/master.cpp cuts at a '/', and the codes of include/sector.h that it rejects with.
use sector_sphere.Base.{
  ℕ, zero, suc, ℤ, negsuc, Text, Option, none, some, [], ◌∷◌, ◌++◌, if◌then◌else◌, ◌==◌,
}
use sector_sphere.Meta.{slash}

abbrev pub e_unknown : ℤ
e_unknown = negsuc 0

abbrev pub e_master : ℤ
e_master = negsuc 100

abbrev pub e_permission : ℤ
e_permission = negsuc 1000

abbrev pub e_exist : ℤ
e_exist = negsuc 1001

abbrev pub e_busy : ℤ
e_busy = negsuc 1003

abbrev pub e_noempty : ℤ
e_noempty = negsuc 1005

abbrev pub e_security : ℤ
e_security = negsuc 1999

abbrev pub e_expired : ℤ
e_expired = negsuc 2006

abbrev pub e_resource : ℤ
e_resource = negsuc 3999

-- What stands before the last '/' and what behind it, if there is one.
unfoldable pub split_last : Text → Option (Text × Text)
split_last [] = none
split_last (c ∷ t) = elim (split_last t) [
  | some r ↦ some (c ∷ r.0, r.1)
  | none ↦ if c == slash then some ([], t) else none
]

-- dst.substr(0, dst.rfind('/') + 1)
unfoldable pub uplevel_of : Text → Text
unfolding split_last
uplevel_of dst = elim (split_last dst) [ none ↦ [] | some r ↦ r.0 ++ slash ∷ [] ]

-- dst.substr(dst.rfind('/') + 1)
unfoldable pub newname_of : Text → Text
unfolding split_last
newname_of dst = elim (split_last dst) [ none ↦ dst | some r ↦ r.1 ]

-- src.substr(0, src.rfind('/'))
unfoldable pub parent_of : Text → Text
unfolding split_last
parent_of src = elim (split_last src) [ none ↦ src | some r ↦ r.0 ]

-- dst + src.substr(src.rfind('/')), which throws without a '/'.
unfoldable pub sublevel_of : Text → Text → Option Text
unfolding split_last
sublevel_of src dst = elim (split_last src) [ none ↦ none | some r ↦ some (dst ++ slash ∷ r.1) ]

-- dst.substr(0, dst.find('/'))
unfoldable pub first_part : Text → Text
first_part [] = []
first_part (c ∷ t) = if c == slash then [] else c ∷ first_part t

unfoldable pub drop : ℕ → Text → Text
drop zero t = t
drop (suc n) [] = []
drop (suc n) (c ∷ t) = drop n t
