-- ===== src/Index/Tree.antt =====
-- include/sector.h, class SNode, with its map m_mDirectory: a file or a directory and what it holds.
-- The map's entries stand in the order of their names, with the two std::map operations that the
-- program uses, and `erase`.
pub mod Order
use sector_sphere.Base.{ℕ, suc, ◌≡◌, Text, Set, Bool, Option, none, some, arith, if◌then◌else◌}
use sector_sphere.Base.Keys.{text_eq, text_lt, text_eq_iff}
use sector_sphere.Address.{Address}

-- What a node holds beside its directory. Sizes and times are 64-bit patterns.
pub record Attr : Type 0 where
  pub name : Text
  pub is_dir : Bool
  pub location : Set Address
  pub time_stamp : ℕ
  pub size : ℕ
  pub checksum : Text

-- An entry is its key, the node under it (attributes and directory), and the entries behind it.
pub data Directory : Type 0 where
  nil : Directory
  entry : Text → Attr → Directory → Directory → Directory

pub record SNode : Type 0 where
  pub attr : Attr
  pub open attr use *
  pub directory : Directory

unfoldable pub find : Text → Directory → Option SNode
find n nil = none
find n (entry m a d rest) =
    if text_eq n m then some (record { attr = a; directory = d }) else find n rest

unfoldable pub put : Text → SNode → Directory → Directory
put n s nil = entry n s.attr s.directory nil
put n s (entry m a d rest) =
    if text_eq n m
    then entry n s.attr s.directory rest
    else if text_lt n m
    then entry n s.attr s.directory (entry m a d rest)
    else entry m a d (put n s rest)

unfoldable pub erase : Text → Directory → Directory
erase n nil = nil
erase n (entry m a d rest) =
    let rest' = erase n rest in if text_eq n m then rest' else entry m a d rest'

unfoldable pub size_of : Directory → ℕ
size_of nil = 0
size_of (entry m a d rest) = suc (size_of rest)

pub find-put :
    (n m : Text) (s : SNode) (d : Directory)
    → find m (put n s d) ≡ (if text_eq n m then some s else find m d)
unfolding find put
find-put n m s nil = ground (arith, text_eq_iff n m, text_eq_iff m n)
find-put n m s (entry k a d rest) =
    ground (
      arith,
      find-put n m s rest,
      text_eq_iff n m,
      text_eq_iff m n,
      text_eq_iff n k,
      text_eq_iff m k,
    )

pub find-erase :
    (n m : Text) (d : Directory) → find m (erase n d) ≡ (if text_eq n m then none else find m d)
unfolding find erase
find-erase n m nil = ground arith
find-erase n m (entry k a d rest) =
    ground (arith, find-erase n m rest, text_eq_iff n m, text_eq_iff n k, text_eq_iff m k)
