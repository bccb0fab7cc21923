-- ===== src/Index/Tree/Order.antt =====
-- The map m_mDirectory is ordered by name at every level, so that each name stands once.
use sector_sphere.Base.{◌≡◌, refl, Text, true, none, some, arith}
use sector_sphere.Base.Keys.{text_lt, text_eq_iff, text_lt_irrefl, text_lt_trans, text_lt_total}
use sector_sphere.Index.Tree.{Directory, nil, entry, SNode, find, put, erase}

abbrev pub Above : Text → Directory → Type 0
Above n nil = Unit
Above n (entry m a d rest) = (text_lt n m ≡ true) × Above n rest

abbrev pub IsOrdered : Directory → Type 0
IsOrdered nil = Unit
IsOrdered (entry n a d rest) = Above n rest × IsOrdered d × IsOrdered rest

Above-trans : (n m : Text) (d : Directory) → text_lt n m ≡ true → Above m d → Above n d
Above-trans n m nil h s = tt
Above-trans n m (entry k a d rest) h s = (text_lt_trans n m k h s.0, Above-trans n m rest h s.1)

Above-put :
    (n m : Text) (s : SNode) (d : Directory) → text_lt n m ≡ true → Above n d → Above n (put m s d)
unfolding put
Above-put n m s nil h k = (h, tt)
Above-put n m s (entry l a d rest) h k = ground (arith, Above-put n m s rest h k.1)

Above-erase : (n m : Text) (d : Directory) → Above n d → Above n (erase m d)
unfolding erase
Above-erase n m nil k = tt
Above-erase n m (entry l a d rest) k = ground (arith, Above-erase n m rest k.1)

pub put-IsOrdered :
    (n : Text) (s : SNode) (d : Directory)
    → IsOrdered s.directory
    → IsOrdered d
    → IsOrdered (put n s d)
unfolding put
put-IsOrdered n s nil h o = (tt, h, tt)
put-IsOrdered n s (entry m a d rest) h o = ground (
  arith,
  put-IsOrdered n s rest h o.2,
  Above-put m n s rest,
  Above-trans n m rest,
  text_lt_total n m,
  text_eq_iff n m,
)

pub erase-IsOrdered : (n : Text) (d : Directory) → IsOrdered d → IsOrdered (erase n d)
unfolding erase
erase-IsOrdered n nil o = tt
erase-IsOrdered n (entry m a d rest) o =
    ground (arith, erase-IsOrdered n rest o.2, Above-erase m n rest o.0)

pub find-IsOrdered :
    (n : Text) (d : Directory) (s : SNode) → IsOrdered d → find n d ≡ some s → IsOrdered s.directory
unfolding find
find-IsOrdered n nil s o h = cc
find-IsOrdered n (entry m a d rest) s o h = ground (arith, find-IsOrdered n rest s o.2)

pub find-Above : (n : Text) (d : Directory) → Above n d → find n d ≡ none
unfolding find
find-Above n nil s = refl
find-Above n (entry m a d rest) s =
    ground (arith, find-Above n rest s.1, text_eq_iff n m, text_lt_irrefl n)
