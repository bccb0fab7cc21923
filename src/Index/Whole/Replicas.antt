-- ===== src/Index/Whole/Replicas.antt =====
-- Index::substract: a slave that is lost takes its replicas with it.
use sector_sphere.Base.{
  is_some, ◌≡◌, refl, Text, Bool, false, Option, none, some, List, [], pos, negsuc, not, ◌&&◌, ◌∷◌,
  arith, if◌then◌else◌, is_empty, Option-cases, inl, inr,
}
use sector_sphere.Base.Sets
use sector_sphere.Base.Keys.{text_eq, text_eq_iff}
use sector_sphere.Address.{Address, addr_key}
use sector_sphere.Index.Tree.{Attr, Directory, nil, entry, SNode, find, put}
use sector_sphere.Index.Tree.Order.{IsOrdered, Above, find-Above, find-IsOrdered}
use sector_sphere.Meta.{parse_path}
use sector_sphere.Index.Walk.{attr_at, attr_at-put, attr_at-locate, locate, modify, is_prefix}
use sector_sphere.Index.Whole.{substract, substract_in}

-- Files hold nothing.
abbrev pub IsFormed : Directory → Type 0
IsFormed nil = Unit
IsFormed (entry n a d rest) = (a.is_dir ≡ false → d ≡ nil) × IsFormed d × IsFormed rest

-- What the loss of a slave leaves of a node.
abbrev pub survives : Address → Attr → Option Attr
survives addr a =
    let left = Sets.del addr a.location in
    if a.is_dir then some a else if is_empty left then none else some (record a { location = left })

abbrev pub and_survives : Address → Option Attr → Option Attr
and_survives addr none = none
and_survives addr (some a) = survives addr a

pub Above-substract :
    (addr : Address) (n : Text) (d : Directory) → Above n d → Above n (substract_in addr d)
unfolding substract_in
Above-substract addr n nil o = tt
Above-substract addr n (entry m a d rest) o = ground (arith, Above-substract addr n rest o.1)

pub attr_at-entry :
    (n m : Text) (q : List Text) (t a : Attr) (d rest : Directory)
    → attr_at (m ∷ q) (record { attr = t; directory = entry n a d rest }) ≡ (
        if text_eq m n
        then attr_at q (record { attr = a; directory = d })
        else attr_at (m ∷ q) (record { attr = t; directory = rest }))
unfolding attr_at find
attr_at-entry n m q t a d rest = ground arith

pub attr_at-file :
    (k : Text) (q : List Text) (a : Attr) (d : Directory)
    → d ≡ nil
    → attr_at (k ∷ q) (record { attr = a; directory = d }) ≡ none
unfolding attr_at find
attr_at-file k q a nil h = refl
attr_at-file k q a (entry n b d rest) h = cc

attr_at-substract :
    (addr : Address) (d : Directory) (t : Attr) (n : Text) (q : List Text)
    → IsOrdered d
    → IsFormed d
    → attr_at (n ∷ q) (record { attr = t; directory = substract_in addr d })
      ≡ and_survives addr (attr_at (n ∷ q) (record { attr = t; directory = d }))
unfolding attr_at find substract_in
attr_at-substract addr nil t n q o f = refl
attr_at-substract addr (entry m a d rest) t n [] o f = ground (
  arith,
  attr_at-entry m n [] t a d rest,
  attr_at-substract addr rest t n [] o.2 f.2,
  find-Above m rest o.0,
  text_eq_iff n m,
)
attr_at-substract addr (entry m a d rest) t n (k ∷ q) o f = ground (
  arith,
  attr_at-entry m n (k ∷ q) t a d rest,
  attr_at-entry m n (k ∷ q) t a (substract_in addr d) (substract_in addr rest),
  attr_at-entry m n (k ∷ q) t (record a { location = Sets.del addr a.location }) d
      (substract_in addr rest),
  attr_at-substract addr rest t n (k ∷ q) o.2 f.2,
  attr_at-substract addr d a k q o.1 f.1,
  attr_at-file k q a d,
  attr_at-file k q (record a { location = Sets.del addr a.location }) d,
  f.0,
  find-Above m rest o.0,
  text_eq_iff n m,
)

pub find-IsFormed :
    (n : Text) (d : Directory) (s : SNode) → IsFormed d → find n d ≡ some s → IsFormed s.directory
unfolding find
find-IsFormed n nil s o h = cc
find-IsFormed n (entry m a d rest) s o h = ground (arith, find-IsFormed n rest s o.2)

-- The paths strictly below another.
abbrev pub is_below : List Text → List Text → Bool
is_below p q = is_prefix p q && not (is_prefix q p)

abbrev lose : Address → SNode → SNode
lose addr s = record s { directory = substract_in addr s.directory }

pub attr_at_top :
    (a : Attr) (d : Directory) → attr_at [] (record { attr = a; directory = d }) ≡ some a
unfolding attr_at
attr_at_top a d = refl

pub attr_at_found :
    (n : Text) (q : List Text) (s c : SNode)
    → find n s.directory ≡ some c
    → attr_at (n ∷ q) s ≡ attr_at q c
unfolding attr_at
attr_at_found n q s c e = rw (e, attr_at)

pub attr_at_absent :
    (n : Text) (q : List Text) (s : SNode) → find n s.directory ≡ none → attr_at (n ∷ q) s ≡ none
unfolding attr_at
attr_at_absent n q s e = rw (e, attr_at)

attr_at-lose :
    (addr : Address) (p q : List Text) (s : SNode)
    → IsOrdered s.directory
    → IsFormed s.directory
    → attr_at q (modify (lose addr) p s) ≡ (
        if is_some (attr_at p s) && is_below p q
        then and_survives addr (attr_at q s)
        else attr_at q s)
unfolding modify is_prefix
attr_at-lose addr [] [] s o f = unfold attr_at in refl
attr_at-lose addr [] (n ∷ q) s o f =
    rw (attr_at-substract addr s.directory s.attr n q o f) (unfold attr_at in refl)
attr_at-lose addr (n ∷ p) [] s o f = elim (Option-cases (find n s.directory)) [
  | inl e ↦ rw (e, modify) (ground (arith, attr_at_top s.attr s.directory))
  | inr (c, e) ↦
      rw (e, modify)
        (ground (
          arith,
          attr_at_top s.attr s.directory,
          attr_at_top s.attr (put n (modify (lose addr) p c) s.directory),
        ))
]
attr_at-lose addr (n ∷ p) (m ∷ q) s o f = elim (Option-cases (find n s.directory)) [
  | inl e ↦ rw (e, modify) (ground (arith, attr_at_absent n p s e))
  | inr (c, e) ↦
      let ih =
        attr_at-lose addr p q c (find-IsOrdered n s.directory c o e)
          (find-IsFormed n s.directory c f e) in
      rw (e, modify)
        (ground (
          arith,
          ih,
          attr_at_found n p s c e,
          attr_at_found n q s c e,
          text_eq_iff n m,
          text_eq_iff m n,
          attr_at-put n m q (modify (lose addr) p c) s,
        ))
]

-- Index::substract at a path that is missing changes nothing and returns -1. Otherwise it returns 0
-- and takes the address off every file below the path, all those left without a replica being
-- erased; directories, and paths that are not below it, stay as they are. The index has to be
-- ordered, and its files hold no directories.
pub substract_cases :
    (path : Text) (addr : Address) (root : SNode) (q : List Text)
    → IsOrdered root.directory
    → IsFormed root.directory
    → let dir = parse_path path in
      let r = substract path addr root in
      (r.1 ≡ (if is_some (attr_at dir root) then pos 0 else negsuc 0))
      × (attr_at q r.0 ≡ (
          if is_some (attr_at dir root) && is_below dir q
          then and_survives addr (attr_at q root)
          else attr_at q root))
unfolding substract
substract_cases path addr root q o f =
    let dir = parse_path path in
    elim (Option-cases (locate dir root)) [
      | inl e ↦ rw (e, substract) (ground (arith, attr_at-locate dir root))
      | inr (c, e) ↦
          rw (e, substract)
            (ground (arith, attr_at-locate dir root, attr_at-lose addr dir q root o f))
    ]
