-- ===== src/Index/Whole/Order.antt =====
-- Index::substract keeps the index ordered.
use sector_sphere.Base.{Text, arith, inl, inr, Option-cases}
use sector_sphere.Address.{Address, addr_key}
use sector_sphere.Meta.{parse_path}
use sector_sphere.Index.Tree.{Directory, nil, entry, SNode}
use sector_sphere.Index.Tree.Order.{IsOrdered}
use sector_sphere.Index.Walk.{locate}
use sector_sphere.Index.Edit.Order.{modify-IsOrdered}
use sector_sphere.Index.Whole.{substract, substract_in}
use sector_sphere.Index.Whole.Replicas.{Above-substract}

substract_in-IsOrdered :
    (addr : Address) (d : Directory) → IsOrdered d → IsOrdered (substract_in addr d)
unfolding substract_in
substract_in-IsOrdered addr nil o = tt
substract_in-IsOrdered addr (entry n a d rest) o = ground (
  arith,
  substract_in-IsOrdered addr d o.1,
  substract_in-IsOrdered addr rest o.2,
  Above-substract addr n rest o.0,
)

pub substract-IsOrdered :
    (path : Text) (addr : Address) (s : SNode)
    → IsOrdered s.directory
    → IsOrdered (substract path addr s).0.directory
unfolding substract
substract-IsOrdered path addr s o = elim (Option-cases (locate (parse_path path) s)) [
  | inl e ↦ rw (substract, e) o
  | inr (t, e) ↦
      rw (substract, e)
        (modify-IsOrdered (λ t. record t { directory = substract_in addr t.directory })
          (parse_path path) s (λ t k. substract_in-IsOrdered addr t.directory k) o)
]
