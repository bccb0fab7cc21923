-- ===== src/Index/Read/Files.antt =====
-- The operations that read a whole directory, against the list of its files.
use sector_sphere.Base.{
  ◌≡◌, refl, Text, ◌&&◌, Option, none, some, List, arith, [], ◌∷◌, ◌++◌, if◌then◌else◌, is_empty,
}
use sector_sphere.Base.Keys.{text_eq, text_eq_iff}
use sector_sphere.Index.Tree.{Attr, Directory, nil, entry, find}
use sector_sphere.Index.Tree.Order.{IsOrdered, find-Above}
use sector_sphere.Index.Walk.{attr_at, names_eq}
use sector_sphere.Index.Whole.Replicas.{IsFormed, attr_at-entry, attr_at-file, attr_at_top}

abbrev pub File : Type 0
File = List Text × Attr

unfoldable pub prefixed : Text → List File → List File
prefixed n [] = []
prefixed n ((q, a) ∷ fs) = (n ∷ q, a) ∷ prefixed n fs

-- The files of a directory: the names that lead to each, and its attributes.
unfoldable pub files : Directory → List File
unfolding prefixed
files nil = []
files (entry n a d rest) =
    let sub = prefixed n (files d) in (if a.is_dir then sub else (n ∷ [], a) ∷ []) ++ files rest

unfoldable pub file_of : List Text → List File → Option Attr
file_of q [] = none
file_of q ((p, a) ∷ fs) = if names_eq q p then some a else file_of q fs

abbrev pub only_file : Option Attr → Option Attr
only_file none = none
only_file (some a) = if a.is_dir then none else some a

or_else : Option Attr → Option Attr → Option Attr
or_else none y = y
or_else (some a) y = some a

file_of-append :
    (q : List Text) (fs gs : List File)
    → file_of q (fs ++ gs) ≡ elim (file_of q fs) [ none ↦ file_of q gs | some a ↦ some a ]
unfolding file_of
file_of-append q [] gs = refl
file_of-append q ((p, a) ∷ fs) gs = ground (arith, file_of-append q fs gs)

file_of-prefixed :
    (n m : Text) (q : List Text) (fs : List File)
    → file_of (n ∷ q) (prefixed m fs) ≡ (if text_eq n m then file_of q fs else none)
unfolding file_of prefixed names_eq
file_of-prefixed n m q [] = ground arith
file_of-prefixed n m q ((p, a) ∷ fs) = ground (arith, file_of-prefixed n m q fs)

file_of-prefixed_top : (m : Text) (fs : List File) → file_of [] (prefixed m fs) ≡ none
unfolding file_of prefixed names_eq
file_of-prefixed_top m [] = refl
file_of-prefixed_top m ((p, a) ∷ fs) = file_of-prefixed_top m fs

file_of_top : (d : Directory) → file_of [] (files d) ≡ none
unfolding file_of files names_eq
file_of_top nil = refl
file_of_top (entry n a d rest) = ground (
  arith,
  file_of-append [] (prefixed n (files d)) (files rest),
  file_of-prefixed_top n (files d),
  file_of_top rest,
)

file_of-entry :
    (n m : Text) (q : List Text) (a : Attr) (fs : List File)
    → file_of (n ∷ q) ((m ∷ [], a) ∷ fs)
      ≡ (if text_eq n m && is_empty q then some a else file_of (n ∷ q) fs)
unfolding file_of names_eq
file_of-entry n m [] a fs = ground arith
file_of-entry n m (k ∷ q) a fs = ground arith

find-absent :
    (n : Text) (q : List Text) (t : Attr) (d : Directory)
    → find n d ≡ none
    → attr_at (n ∷ q) (record { attr = t; directory = d }) ≡ none
unfolding attr_at
find-absent n q t d e = rw (e, attr_at)

-- A path is in the list exactly when a file stands there, with its attributes.
pub file_of-files :
    (t : Attr) (d : Directory) (n : Text) (q : List Text)
    → IsOrdered d
    → IsFormed d
    → file_of (n ∷ q) (files d) ≡ only_file (attr_at (n ∷ q) (record { attr = t; directory = d }))
unfolding files
file_of-files t nil n q o f = unfold file_of in unfold attr_at in unfold find in refl
file_of-files t (entry m a d rest) n [] o f = ground (
  arith,
  file_of-files t rest n [] o.2 f.2,
  file_of-append (n ∷ []) (prefixed m (files d)) (files rest),
  file_of-prefixed n m [] (files d),
  file_of_top d,
  file_of-entry n m [] a (files rest),
  attr_at-entry m n [] t a d rest,
  attr_at_top a d,
  find-absent n [] t rest,
  find-Above m rest o.0,
  text_eq_iff n m,
)
file_of-files t (entry m a d rest) n (k ∷ q) o f = ground (
  arith,
  file_of-files t rest n (k ∷ q) o.2 f.2,
  file_of-files a d k q o.1 f.1,
  file_of-append (n ∷ k ∷ q) (prefixed m (files d)) (files rest),
  file_of-prefixed n m (k ∷ q) (files d),
  file_of-entry n m (k ∷ q) a (files rest),
  attr_at-entry m n (k ∷ q) t a d rest,
  attr_at-file k q a d,
  f.0,
  find-absent n (k ∷ q) t rest,
  find-Above m rest o.0,
  text_eq_iff n m,
)
