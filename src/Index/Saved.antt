-- ===== src/Index/Saved.antt =====
-- common/index.cpp, the private serialize and deserialize: a directory as the text of a file. Texts hold no
-- NUL. Opening the file is left out. `none` is where
-- the C++ reads or writes behind a buffer, leaves an array or a map, or does not end.

pub mod Lines
pub mod Texts
pub mod Places
pub mod RoundTrip
mod Examples
use sector_sphere.Base.{
  ℕ, zero, suc, ◌+◌, ℤ, pos, negsuc, Text, Bool, true, false, not, ◌&&◌, ◌||◌, Option, none, some,
  List, [], ◌∷◌, ◌++◌, length, if◌then◌else◌, ◌==◌, ltb, leb,
}
use sector_sphere.Base.Decimal.{atoi, print32}
use sector_sphere.Address.{Address}
use sector_sphere.Node
use sector_sphere.Index.Tree.{Attr, Directory, nil, entry, SNode, find, put}

-- A line: the node in a buffer of 64 bytes more than its key, which holds a NUL too.
unfoldable pub put_node : Text → ℕ → Attr → Option Text
put_node n level a =
    let buf = Node.serialize a in
    if leb (length n + 64) (length buf)
    then none
    else some ((print32 level ++ b' ' ∷ buf) ++ b'\n' ∷ [])

unfoldable pub serialize : Directory → ℕ → Option Text
unfolding put_node
serialize nil level = some []
serialize (entry n a d rest) level =
    let sub = serialize d (suc level) in
    let more = serialize rest level in
    elim (put_node n level a) [
      | none ↦ none
      | some t ↦ elim (if a.is_dir then sub else some []) [
        | none ↦ none
        | some u ↦ elim more [ none ↦ none | some v ↦ some (t ++ (u ++ v)) ]
      ]
    ]

abbrev pub add_front : ℕ → List Text → List Text
add_front c [] = (c ∷ []) ∷ []
add_front c (l ∷ ls) = (c ∷ l) ∷ ls

-- What getline reads up to the end of the file: the last line has no line feed.
unfoldable pub get_lines : Text → List Text
get_lines [] = [] ∷ []
get_lines (c ∷ t) = let rest = get_lines t in if c == b'\n' then [] ∷ rest else add_front c rest

-- The loop up to the first space.
unfoldable pub cut_space : Text → Text × Option Text
cut_space [] = ([], none)
cut_space (c ∷ t) =
    let rest = cut_space t in if c == b' ' then ([], some t) else (c ∷ rest.0, rest.1)

-- SNode::SNode
abbrev pub blank_node : Attr
blank_node = record {
  name = [];
  is_dir = false;
  location = [];
  time_stamp = 0;
  size = 0;
  checksum = [];
}

abbrev pub located : Option Address → Attr → Attr
located none sn = sn
located (some addr) sn = if sn.is_dir then sn else record sn { location = addr ∷ [] }

-- The level and the node of a line. The code of SNode::deserialize is not looked at.
unfoldable pub read_line : Option Address → Text → Option (ℤ × Attr)
unfolding cut_space
read_line addr buf =
    let (level, rest) = cut_space buf in
    elim rest [
      | none ↦ none
      | some t ↦ elim (Node.deserialize t blank_node) [
        | none ↦ none
        | some r ↦ some (atoi level, located addr r.0)
      ]
    ]

-- The variables of the loop: currdir is the path that leads to it from `metadata`.
pub record Cursor : Type 0 where
  pub metadata : Directory
  pub currdir : List Text
  pub currlevel : ℕ
  pub dirs : ℕ → Text

-- A change of the directory that a path leads to; `none` where a step is end().
unfoldable pub below_at : Text → (Directory → Option Directory) → Directory → Option Directory
below_at n f d = elim (find n d) [
  | none ↦ none
  | some s ↦ elim (f s.directory) [
    | none ↦ none
    | some d' ↦ some (put n (record s { directory = d' }) d)
  ]
]

unfoldable pub update_at : List Text → (Directory → Option Directory) → Directory → Option Directory
unfolding below_at
update_at [] f d = f d
update_at (n ∷ p) f d = below_at n (update_at p f) d

-- dirs[1] to dirs[k].
unfoldable pub first_dirs : (ℕ → Text) → ℕ → List Text
first_dirs dirs zero = []
first_dirs dirs (suc k) = first_dirs dirs k ++ dirs (suc k) ∷ []

abbrev pub pred : ℕ → ℕ
pred zero = 0
pred (suc k) = k

abbrev pub path_for : ℕ → Cursor → List Text
path_for level c =
    if level == c.currlevel
    then c.currdir
    else if level == suc c.currlevel
    then c.currdir ++ c.dirs c.currlevel ∷ []
    else first_dirs c.dirs (pred level)

abbrev pub assign : Attr → Directory → Option Directory
assign sn d = some (put sn.name (record { attr = sn; directory = nil }) d)

-- The branches for a level. One that is more than one level deeper is passed over, and dirs has 1024
-- elements.
unfoldable pub place : ℕ → Attr → Cursor → Option Cursor
unfolding update_at first_dirs
place level sn c =
    let path = path_for level c in
    if ltb (suc c.currlevel) level
    then some c
    else if leb 1024 level
    then none
    else elim (update_at path (assign sn) c.metadata) [
      | none ↦ none
      | some m ↦ some (record {
        metadata = m;
        currdir = path;
        currlevel = level;
        dirs = λ i. if i == level then sn.name else c.dirs i;
      })
    ]

abbrev pub place_line : ℤ × Attr → Cursor → Option Cursor
place_line (pos level, sn) c = place level sn c
place_line (negsuc level, sn) c = none

-- After a line that does not fit the buffer of 4096 bytes the stream fails and the loop never ends:
-- `none` too.
unfoldable pub read_lines : Option Address → List Text → Cursor → Option Cursor
unfolding read_line place
read_lines addr [] c = some c
read_lines addr (buf ∷ lines) c =
    let skipped = read_lines addr lines c in
    if length buf == 0 || length buf == 4095
    then skipped
    else if ltb 4095 (length buf)
    then none
    else elim (read_line addr buf) [
      | none ↦ none
      | some l ↦ elim (place_line l c) [ none ↦ none | some c' ↦ read_lines addr lines c' ]
    ]

unfoldable pub deserialize : Option Address → Text → Directory → Option Directory
unfolding read_lines get_lines
deserialize addr text metadata =
    elim (read_lines addr (get_lines text)
      (record { metadata = metadata; currdir = []; currlevel = 1; dirs = λ i. [] })) [
        | none ↦ none
        | some c ↦ some c.metadata
      ]
