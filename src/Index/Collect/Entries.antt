-- ===== src/Index/Collect/Entries.antt =====
-- common/index.cpp, Index::collectDataInfo below a directory, and where it finds the index files.
use mathlib.Core.List.{append-nil}
use sector_sphere.Base.{
  subst, codes, Option, ◌≡◌, refl, ap, ◌∙◌, sym, Text, some, List, [], ◌∷◌, ◌++◌, if◌then◌else◌,
  arith, inl, inr, Option-cases,
}
use sector_sphere.Base.Keys.{text_eq_iff, text_lt_irrefl}
use sector_sphere.Index.Tree.Order.{IsOrdered, Above, find-IsOrdered}
use sector_sphere.Meta.{slash}
use sector_sphere.Index.Tree.{Attr, Directory, nil, entry, SNode, find}
use sector_sphere.Index.Walk.{locate, attr_at}
use sector_sphere.Index.Read.Files.{files, prefixed}
use sector_sphere.Index.Collect.{is_index, info_line, collect_in, last_of, beside_of}
use sector_sphere.Index.Collect.DataFiles.{
  data_files, index_of, one_file, Appends, Appends-append, Appends-prefixed, either,
}

-- The entries of a directory are found in another.
abbrev FoundIn : Directory → Directory → Type 0
FoundIn nil whole = Unit
FoundIn (entry n a x rest) whole =
    (find n whole ≡ some (record { attr = a; directory = x })) × FoundIn rest whole

FoundIn-more :
    (d : Directory) (n : Text) (a : Attr) (x whole : Directory)
    → Above n d
    → FoundIn d whole
    → FoundIn d (entry n a x whole)
unfolding find
FoundIn-more nil n a x whole h k = tt
FoundIn-more (entry m b y d) n a x whole h k = (
  ground (arith, h.0, k.0, text_eq_iff m n, text_lt_irrefl n),
  FoundIn-more d n a x whole h.1 k.1,
)

pub FoundIn-self : (d : Directory) → IsOrdered d → FoundIn d d
unfolding find
FoundIn-self nil o = tt
FoundIn-self (entry n a x d) o =
    (ground (arith, text_eq_iff n n), FoundIn-more d n a x d o.0 (FoundIn-self d o.2))

-- `index` looks up the index files of the paths in a node.
abbrev pub LooksIn : (List Text → Option Attr) → SNode → Type 0
LooksIn index t = (m : Text) (q : List Text) → index (m ∷ q) ≡ attr_at (index_of (m ∷ q)) t

LooksIn-below :
    (index : List Text → Option Attr) (n : Text) (t c : SNode)
    → find n t.directory ≡ some c
    → LooksIn index t
    → LooksIn (λ q. index (n ∷ q)) c
unfolding attr_at index_of
LooksIn-below index n t c h k m q = k n (m ∷ q) ∙ rw (attr_at, h) refl

-- What collectDataInfo appends for the entries of a directory: a line for each file below it that is no index file.
pub collect_in-files :
    (d : Directory) (t : SNode) (index : List Text → Option Attr) (path : Text) (result : List Text)
    → IsOrdered d
    → FoundIn d t.directory
    → LooksIn index t
    → Appends index path (files d) result (collect_in d path t.directory result)
unfolding collect_in files
collect_in-files nil t index path result o f k =
    ([], sym (append-nil result), unfold data_files in tt)
collect_in-files (entry n a d rest) t index path result o f k =
    let name = path ++ slash ∷ n in
    let c : SNode = record { attr = a; directory = d } in
    let sub = collect_in d name d result in
    let here = if is_index n then result else result ++ info_line name n a t.directory ∷ [] in
    Appends-append index path (if a.is_dir then prefixed n (files d) else (n ∷ [], a) ∷ [])
      (files rest) result (if a.is_dir then sub else here)
      (collect_in rest path t.directory (if a.is_dir then sub else here))
      (either index a.is_dir path n a d result sub here
        (Appends-prefixed index path n d result sub (
          collect_in-files d c (λ q. index (n ∷ q)) name result o.1 (FoundIn-self d o.1)
            (LooksIn-below index n t c f.0 k)))
        (one_file index path n a t result (k n [] ∙ unfold index_of in refl)))
      (collect_in-files rest t index path (if a.is_dir then sub else here) o.2 f.1 k)

-- The index file of a path below another is that of the rest of the path there.
pub index_of-append :
    (dir : List Text) (m : Text) (q : List Text) (root s : SNode)
    → locate dir root ≡ some s
    → attr_at (index_of (dir ++ m ∷ q)) root ≡ attr_at (index_of (m ∷ q)) s
unfolding locate attr_at index_of
index_of-append [] m q root s h =
    let same : root ≡ s = cc in ap (λ x. attr_at (index_of (m ∷ q)) x) same
index_of-append (n ∷ []) m q root s h = elim (Option-cases (find n root.directory)) [
  | inl e ↦ absurd (ground (arith, h, e))
  | inr (c, e) ↦ rw (attr_at, e) (index_of-append [] m q c s (ground (arith, h, e)))
]
index_of-append (n ∷ k ∷ p) m q root s h = elim (Option-cases (find n root.directory)) [
  | inl e ↦ absurd (ground (arith, h, e))
  | inr (c, e) ↦ rw (attr_at, e) (index_of-append (k ∷ p) m q c s (ground (arith, h, e)))
]

-- The directory that the last step of a walk starts from.
pub index_of-beside_of :
    (n : Text) (p : List Text) (root s : SNode)
    → locate (n ∷ p) root ≡ some s
    → attr_at (index_of (n ∷ p)) root
      ≡ attr_at
          ((last_of (n ∷ p) ++ codes ".idx") ∷ [])
          (record { attr = root.attr; directory = beside_of (n ∷ p) root })
unfolding locate attr_at index_of find
index_of-beside_of n [] root s h = refl
index_of-beside_of n (k ∷ p) root s h = elim (Option-cases (find n root.directory)) [
  | inl e ↦ absurd (ground (arith, h, e))
  | inr (c, e) ↦ rw (attr_at, e) (index_of-beside_of k p c s (ground (arith, h, e)))
]

pub IsOrdered-locate :
    (dir : List Text) (root s : SNode)
    → locate dir root ≡ some s
    → IsOrdered root.directory
    → IsOrdered s.directory
unfolding locate
IsOrdered-locate [] root s h o =
    let same : root ≡ s = cc in subst (λ (x : SNode). IsOrdered x.directory) same o
IsOrdered-locate (n ∷ p) root s h o = elim (Option-cases (find n root.directory)) [
  | inl e ↦ absurd (ground (arith, h, e))
  | inr (c, e) ↦
      IsOrdered-locate p c s (ground (arith, h, e)) (find-IsOrdered n root.directory c o e)
]
