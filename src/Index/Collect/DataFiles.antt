-- ===== src/Index/Collect/DataFiles.antt =====
-- common/index.cpp, Index::collectDataInfo: the files that get a line, and the lines.
use mathlib.Core.List.{append_assoc, append-nil}
use sector_sphere.Base.{
  ℕ, ◌+◌, ◌-◌, ◌/◌, ◌^◌, ◌≤◌, ◌<◌, codes, map, none, Option, ◌≡◌, refl, ap, ◌∙◌, sym, Text, Bool,
  true, false, some, List, [], ◌∷◌, ◌++◌, if◌then◌else◌, is_empty, arith, inl, inr, ◌⊎◌, ◌%◌,
  Bool-cases,
}
use sector_sphere.Base.Decimal.{print32, print64}
use sector_sphere.Address.{Address}
use sector_sphere.Meta.{slash}
use sector_sphere.Index.Tree.{Attr, Directory, nil, entry, SNode, find}
use sector_sphere.Index.Walk.{attr_at}
use sector_sphere.Index.Read.Files.{File, files, prefixed}
use sector_sphere.Index.Read.Listing.{joined}
use sector_sphere.Index.Collect.{is_index, info_line, last_of, put_places, rows, rows_of}

-- The data files.
unfoldable pub data_files : List File → List File
data_files [] = []
data_files ((q, a) ∷ fs) =
    let rest = data_files fs in if is_index (last_of q) then rest else (q, a) ∷ rest

-- The names of the index file beside a file.
unfoldable pub index_of : List Text → List Text
index_of [] = []
index_of (n ∷ []) = (n ++ codes ".idx") ∷ []
index_of (n ∷ m ∷ q) = let rest = index_of (m ∷ q) in n ∷ rest

-- The number of records, an int, by the size of an index file, if there is one, else -1. A negative size is left open.
abbrev pub IsRows : ℕ → Option Attr → Type 0
IsRows n none = n ≡ 2 ^ 32 - 1
IsRows n (some a) = (n < 2 ^ 32) × (((n + 1) % 2 ^ 32 ≡ a.size / 8 % 2 ^ 32) ⊎ (2 ^ 63 ≤ a.size))

abbrev pub place_text : Address → Text
place_text a = b' ' ∷ (a.ip ++ b' ' ∷ print32 a.port)

unfoldable pub places_text : List Text → Text
places_text [] = []
places_text (t ∷ ts) = t ++ places_text ts

-- A line: path, size, number of records and locations. `index` is what stands at the index file of a path.
abbrev pub IsLine : (List Text → Option Attr) → Text → File → Text → Type 0
IsLine index path f l =
    (n : ℕ) × (l
      ≡ joined path f.0
        ++ b' '
          ∷ (print64 f.1.size ++ b' ' ∷ (print32 n ++ places_text (map place_text f.1.location))))
    × IsRows n (index f.0)

-- A line for each file, in their order.
abbrev pub AreLines : (List Text → Option Attr) → Text → List File → List Text → Type 0
AreLines index path [] [] = Unit
AreLines index path [] (l ∷ ls) = ⊥
AreLines index path (f ∷ fs) [] = ⊥
AreLines index path (f ∷ fs) (l ∷ ls) = IsLine index path f l × AreLines index path fs ls

put_places-places_text : (s : List Address) → put_places s ≡ places_text (map place_text s)
unfolding put_places places_text
put_places-places_text [] = refl
put_places-places_text (a ∷ s) =
    ap (λ t. b' ' ∷ (a.ip ++ b' ' ∷ (print32 a.port ++ t))) (put_places-places_text s)
    ∙ ap (λ t. b' ' ∷ t)
        (sym (append_assoc a.ip (b' ' ∷ print32 a.port) (places_text (map place_text s))))

IsRows-size :
    (o : Option SNode)
    → IsRows
        (elim o [ none ↦ 2 ^ 32 - 1 | some c ↦ rows_of c.size ])
        (elim o [ none ↦ none | some c ↦ some c.attr ])
unfolding rows_of
IsRows-size none = refl
IsRows-size (some c) = ground (arith)

rows-IsRows :
    (n : Text) (t : SNode) → IsRows (rows n t.directory) (attr_at ((n ++ codes ".idx") ∷ []) t)
unfolding rows attr_at
rows-IsRows n t = IsRows-size (find (n ++ codes ".idx") t.directory)

AreLines-append :
    (index : List Text → Option Attr) (path : Text) (fs gs : List File) (ls ks : List Text)
    → AreLines index path fs ls
    → AreLines index path gs ks
    → AreLines index path (fs ++ gs) (ls ++ ks)
AreLines-append index path [] gs [] ks h k = k
AreLines-append index path [] gs (l ∷ ls) ks h k = absurd h
AreLines-append index path (f ∷ fs) gs [] ks h k = absurd h
AreLines-append index path (f ∷ fs) gs (l ∷ ls) ks h k =
    (h.0, AreLines-append index path fs gs ls ks h.1 k)

data_files-append : (fs gs : List File) → data_files (fs ++ gs) ≡ data_files fs ++ data_files gs
unfolding data_files
data_files-append [] gs = refl
data_files-append ((q, a) ∷ fs) gs = rw (data_files-append fs gs) (ground (arith))

-- Every path of the list has a name.
abbrev AreNamed : List File → Type 0
AreNamed [] = Unit
AreNamed ((q, a) ∷ fs) = (is_empty q ≡ false) × AreNamed fs

AreNamed-append : (fs gs : List File) → AreNamed fs → AreNamed gs → AreNamed (fs ++ gs)
AreNamed-append [] gs h k = k
AreNamed-append ((q, a) ∷ fs) gs h k = (h.0, AreNamed-append fs gs h.1 k)

AreNamed-prefixed : (n : Text) (fs : List File) → AreNamed (prefixed n fs)
unfolding prefixed
AreNamed-prefixed n [] = tt
AreNamed-prefixed n ((q, a) ∷ fs) = (refl, AreNamed-prefixed n fs)

AreNamed-files : (d : Directory) → AreNamed (files d)
unfolding files
AreNamed-files nil = tt
AreNamed-files (entry n a d rest) = elim (Bool-cases a.is_dir) [
  | inl e ↦ rw e (
      AreNamed-append (prefixed n (files d)) (files rest) (AreNamed-prefixed n (files d))
        (AreNamed-files rest))
  | inr e ↦ rw e (refl, AreNamed-files rest)
]

data_files-prefixed :
    (n : Text) (fs : List File)
    → AreNamed fs
    → data_files (prefixed n fs) ≡ prefixed n (data_files fs)
unfolding data_files prefixed
data_files-prefixed n [] h = refl
data_files-prefixed n (([], a) ∷ fs) h = cc
data_files-prefixed n ((m ∷ q, a) ∷ fs) h = elim (Bool-cases (is_index (last_of (m ∷ q)))) [
  | inl e ↦ rw e (data_files-prefixed n fs h.1)
  | inr e ↦ rw (e, data_files-prefixed n fs h.1) refl
]

AreLines-prefixed :
    (index : List Text → Option Attr) (path n : Text) (fs : List File) (ls : List Text)
    → AreLines (λ q. index (n ∷ q)) (path ++ slash ∷ n) fs ls
    → AreLines index path (prefixed n fs) ls
unfolding prefixed joined
AreLines-prefixed index path n [] [] h = h
AreLines-prefixed index path n [] (l ∷ ls) h = absurd h
AreLines-prefixed index path n (f ∷ fs) [] h = absurd h
AreLines-prefixed index path n (f ∷ fs) (l ∷ ls) h = (h.0, AreLines-prefixed index path n fs ls h.1)

pub info_line-IsLine :
    (index : List Text → Option Attr) (path name : Text) (q : List Text) (a : Attr) (t : SNode)
    → index q ≡ attr_at ((name ++ codes ".idx") ∷ []) t
    → IsLine index path (q, a) (info_line (joined path q) name a t.directory)
unfolding info_line
info_line-IsLine index path name q a t h = (
  rows name t.directory,
  ap
      (λ u.
        joined path q ++ b' ' ∷ (print64 a.size ++ b' ' ∷ (print32 (rows name t.directory) ++ u)))
      (put_places-places_text a.location),
  rw h (rows-IsRows name t),
)

pub one_file :
    (index : List Text → Option Attr) (path n : Text) (a : Attr) (t : SNode) (result : List Text)
    → index (n ∷ []) ≡ attr_at ((n ++ codes ".idx") ∷ []) t
    → (ls : List Text) × ((if is_index n
          then result
          else result ++ info_line (path ++ slash ∷ n) n a t.directory ∷ [])
        ≡ result ++ ls)
      × AreLines index path (data_files ((n ∷ [], a) ∷ [])) ls
unfolding data_files joined
one_file index path n a t result h = elim (Bool-cases (is_index n)) [
  | inl e ↦ rw e ([], sym (append-nil result), tt)
  | inr e ↦ rw e (
    info_line (path ++ slash ∷ n) n a t.directory ∷ [],
    refl,
    (info_line-IsLine index path n (n ∷ []) a t h, tt),
  )
]

-- The lines that a result has more than another are those of the data files of a list.
abbrev pub Appends : (List Text → Option Attr) → Text → List File → List Text → List Text → Type 0
Appends index path fs result result' =
    (ls : List Text) × (result' ≡ result ++ ls) × AreLines index path (data_files fs) ls

pub Appends-append :
    (index : List Text → Option Attr) (path : Text) (fs gs : List File) (r r' r'' : List Text)
    → Appends index path fs r r'
    → Appends index path gs r' r''
    → Appends index path (fs ++ gs) r r''
Appends-append index path fs gs r r' r'' (ls, e, h) (ks, f, k) = (
  ls ++ ks,
  f ∙ ap (λ x. x ++ ks) e ∙ append_assoc r ls ks,
  rw (data_files-append fs gs)
      (AreLines-append index path (data_files fs) (data_files gs) ls ks h k),
)

pub Appends-prefixed :
    (index : List Text → Option Attr) (path n : Text) (d : Directory) (r r' : List Text)
    → Appends (λ q. index (n ∷ q)) (path ++ slash ∷ n) (files d) r r'
    → Appends index path (prefixed n (files d)) r r'
Appends-prefixed index path n d r r' (ls, e, h) = (
  ls,
  e,
  rw (data_files-prefixed n (files d) (AreNamed-files d))
      (AreLines-prefixed index path n (data_files (files d)) ls h),
)

pub either :
    (index : List Text → Option Attr) (b : Bool) (path n : Text) (a : Attr) (d : Directory)
    (r sub here : List Text)
    → Appends index path (prefixed n (files d)) r sub
    → Appends index path ((n ∷ [], a) ∷ []) r here
    → Appends index path
        (if b then prefixed n (files d) else (n ∷ [], a) ∷ [])
        r
        (if b then sub else here)
either index true path n a d r sub here h k = h
either index false path n a d r sub here h k = k
