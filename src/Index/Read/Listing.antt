-- ===== src/Index/Read/Listing.antt =====
-- list_r, the totals and getUnderReplicated of common/index.cpp: what each makes of the files below.
use mathlib.Core.List.{append_assoc, append-nil}
use sector_sphere.Base.{
  ℕ, ◌≡◌, refl, pos, negsuc, Text, Map, ◌||◌, none, some, List, arith, [], ◌∷◌, ◌++◌, length,
  if◌then◌else◌, is_empty, ltb, Option-cases, inl, inr, length-append, sym,
}
use sector_sphere.Base.Words.{add64, add64_assoc, add64_word}
use sector_sphere.Meta.{parse_path, slash}
use sector_sphere.Index.Tree.{Attr, Directory, nil, entry, SNode, find}
use sector_sphere.Index.Walk.{locate}
use sector_sphere.Index.Read.Files.{File, files, prefixed}
use sector_sphere.Index.Read.{
  total_file_num, total_file_num_in, total_data_size, total_data_size_in, list_r, list_r_in,
  threshold, abs_path, under_replicated_in, get_under_replicated, minus_one, e_noexist,
}

length-prefixed : (n : Text) (fs : List File) → length (prefixed n fs) ≡ length fs
unfolding prefixed
length-prefixed n [] = refl
length-prefixed n ((q, a) ∷ fs) = omega (arith, length-prefixed n fs)

total_file_num_in-files : (d : Directory) → total_file_num_in d ≡ length (files d)
unfolding total_file_num_in files
total_file_num_in-files nil = refl
total_file_num_in-files (entry n a d rest) = ground (
  arith,
  length-append (prefixed n (files d)) (files rest),
  length-prefixed n (files d),
  total_file_num_in-files d,
  total_file_num_in-files rest,
)

-- The sum of the sizes, as a 64-bit word.
unfoldable pub sum_size : List File → ℕ
sum_size [] = 0
sum_size ((q, a) ∷ fs) = add64 a.size (sum_size fs)

zero_word : add64 0 0 ≡ 0
unfolding add64
zero_word = refl

sum_size_bound : (fs : List File) → add64 0 (sum_size fs) ≡ sum_size fs
unfolding sum_size
sum_size_bound [] = zero_word
sum_size_bound ((q, a) ∷ fs) = add64_word a.size (sum_size fs)

sum_size_one :
    (q : List Text) (a : Attr) (fs : List File)
    → sum_size ((q, a) ∷ fs) ≡ add64 a.size (sum_size fs)
unfolding sum_size
sum_size_one q a fs = refl

sum_size-append : (fs gs : List File) → sum_size (fs ++ gs) ≡ add64 (sum_size fs) (sum_size gs)
unfolding sum_size
sum_size-append [] gs = ground (arith, sum_size_bound gs)
sum_size-append ((q, a) ∷ fs) gs =
    ground (arith, sum_size-append fs gs, add64_assoc a.size (sum_size fs) (sum_size gs))

sum_size-prefixed : (n : Text) (fs : List File) → sum_size (prefixed n fs) ≡ sum_size fs
unfolding sum_size prefixed
sum_size-prefixed n [] = refl
sum_size-prefixed n ((q, a) ∷ fs) = rw (sum_size-prefixed n fs) refl

total_data_size_in-files : (d : Directory) → total_data_size_in d ≡ sum_size (files d)
unfolding total_data_size_in files
total_data_size_in-files nil = unfold sum_size in refl
total_data_size_in-files (entry n a d rest) = ground (
  arith,
  total_data_size_in-files d,
  total_data_size_in-files rest,
  sum_size-append (prefixed n (files d)) (files rest),
  sum_size-prefixed n (files d),
  sum_size_one (n ∷ []) a (files rest),
)

-- A path followed by names.
unfoldable pub joined : Text → List Text → Text
joined path [] = path
joined path (n ∷ q) = joined (path ++ slash ∷ n) q

unfoldable pub listed : Text → List File → List Text
unfolding joined
listed path [] = []
listed path ((q, a) ∷ fs) = joined path q ∷ listed path fs

-- Every node carries the name it stands under.
abbrev pub IsNamed : Directory → Type 0
IsNamed nil = Unit
IsNamed (entry n a d rest) = (a.name ≡ n) × IsNamed d × IsNamed rest

listed-append :
    (path : Text) (fs gs : List File) → listed path (fs ++ gs) ≡ listed path fs ++ listed path gs
unfolding listed
listed-append path [] gs = refl
listed-append path ((q, a) ∷ fs) gs = rw (listed-append path fs gs) refl

listed-prefixed :
    (path n : Text) (fs : List File) → listed path (prefixed n fs) ≡ listed (path ++ slash ∷ n) fs
unfolding listed prefixed joined
listed-prefixed path n [] = refl
listed-prefixed path n ((q, a) ∷ fs) = rw (listed-prefixed path n fs) refl

list_r_in-files :
    (path : Text) (d : Directory) (filelist : List Text)
    → IsNamed d
    → list_r_in path d filelist ≡ filelist ++ listed path (files d)
unfolding list_r_in files listed
list_r_in-files path nil filelist k = sym (append-nil filelist)
list_r_in-files path (entry n a d rest) filelist k =
    let sub = list_r_in (path ++ slash ∷ a.name) d filelist in
    let name = path ++ slash ∷ a.name in
    ground (
      arith,
      k.0,
      list_r_in-files name d filelist k.1,
      list_r_in-files path rest sub k.2,
      list_r_in-files path rest (filelist ++ name ∷ []) k.2,
      append_assoc filelist (name ∷ []) (listed path (files rest)),
      append_assoc filelist (listed name (files d)) (listed path (files rest)),
      listed-append path (prefixed n (files d)) (files rest),
      listed-prefixed path n (files d),
    )

-- The path that getUnderReplicated writes for names below another.
unfoldable pub below : Text → List Text → Text
below path [] = path
below path (n ∷ q) = below (abs_path path n) q

-- The paths of the files that have fewer replicas than their path's threshold asks for.
unfoldable pub under : ℕ → Map Text ℕ → Text → List File → List Text
unfolding below
under thresh special path [] = []
under thresh special path ((q, a) ∷ fs) =
    let rest = under thresh special path fs in
    let p = below path q in
    if ltb (length a.location) (threshold thresh special p) then p ∷ rest else rest

under-append :
    (thresh : ℕ) (special : Map Text ℕ) (path : Text) (fs gs : List File)
    → under thresh special path (fs ++ gs)
      ≡ under thresh special path fs ++ under thresh special path gs
unfolding under
under-append thresh special path [] gs = refl
under-append thresh special path ((q, a) ∷ fs) gs =
    ground (arith, under-append thresh special path fs gs)

under-prefixed :
    (thresh : ℕ) (special : Map Text ℕ) (path n : Text) (fs : List File)
    → under thresh special path (prefixed n fs) ≡ under thresh special (abs_path path n) fs
unfolding under prefixed below
under-prefixed thresh special path n [] = refl
under-prefixed thresh special path n ((q, a) ∷ fs) =
    ground (arith, under-prefixed thresh special path n fs)

under_replicated_in-files :
    (thresh : ℕ) (special : Map Text ℕ) (path : Text) (d : Directory) (replica : List Text)
    → under_replicated_in thresh special path d replica
      ≡ replica ++ under thresh special path (files d)
unfolding under_replicated_in files under below
under_replicated_in-files thresh special path nil replica = sym (append-nil replica)
under_replicated_in-files thresh special path (entry n a d rest) replica =
    let p = abs_path path n in
    let sub = under_replicated_in thresh special p d replica in
    ground (
      arith,
      under_replicated_in-files thresh special p d replica,
      under_replicated_in-files thresh special path rest sub,
      under_replicated_in-files thresh special path rest replica,
      under_replicated_in-files thresh special path rest (replica ++ p ∷ []),
      append_assoc replica (p ∷ []) (under thresh special path (files rest)),
      append_assoc replica (under thresh special p (files d))
          (under thresh special path (files rest)),
      under-append thresh special path (prefixed n (files d)) (files rest),
      under-prefixed thresh special path n (files d),
    )

-- Index::getTotalFileNum and Index::getTotalDataSize return -1 for a path that is missing, and else
-- the number of the files below the path and the sum of their sizes, modulo 2^64.
pub total_cases :
    (path : Text) (root : SNode)
    → (total_file_num path root ≡ elim (locate (parse_path path) root) [
      | none ↦ minus_one
      | some s ↦ length (files s.directory)
    ])
      × (total_data_size path root ≡ elim (locate (parse_path path) root) [
        | none ↦ minus_one
        | some s ↦ sum_size (files s.directory)
      ])
unfolding total_file_num total_data_size
total_cases path root = elim (Option-cases (locate (parse_path path) root)) [
  | inl e ↦ rw (e, total_file_num, total_data_size) (refl, refl)
  | inr (s, e) ↦
      rw (e, total_file_num, total_data_size)
        (total_file_num_in-files s.directory, total_data_size_in-files s.directory)
]

find-IsNamed :
    (n : Text) (d : Directory) (s : SNode) → IsNamed d → find n d ≡ some s → IsNamed s.directory
unfolding find
find-IsNamed n nil s o h = cc
find-IsNamed n (entry m a d rest) s o h = ground (arith, find-IsNamed n rest s o.2)

locate-IsNamed :
    (p : List Text) (s c : SNode) → IsNamed s.directory → locate p s ≡ some c → IsNamed c.directory
unfolding locate
locate-IsNamed [] s c o h = ground arith
locate-IsNamed (n ∷ p) s c o h = elim (Option-cases (find n s.directory)) [
  | inl e ↦ ground arith
  | inr (d, e) ↦ locate-IsNamed p d c (find-IsNamed n s.directory d o e) (ground arith)
]

-- Index::list_r appends to the list the path of a file, or the paths of all files below a
-- directory, and returns the length or 1; a path that is missing is E_NOEXIST. In the index every
-- node carries the name that it stands under.
pub list_r_cases :
    (path : Text) (filelist : List Text) (root : SNode)
    → IsNamed root.directory
    → list_r path filelist root ≡ elim (locate (parse_path path) root) [
      | none ↦ (filelist, e_noexist)
      | some s ↦
          let all = filelist ++ listed path (files s.directory) in
          if is_empty (parse_path path) || s.is_dir
          then (all, pos (length all))
          else (filelist ++ path ∷ [], pos 1)
    ]
unfolding list_r
list_r_cases path filelist root k = elim (Option-cases (locate (parse_path path) root)) [
  | inl e ↦ rw (e, list_r) refl
  | inr (s, e) ↦
      rw
        (
          e,
          list_r,
          list_r_in-files path s.directory filelist (locate-IsNamed (parse_path path) root s k e),
        )
        refl
]

-- Index::getUnderReplicated appends to the list the paths of exactly the files below the path that
-- have fewer replicas than the threshold of the file's own path, and returns the length; a path
-- that is missing is -1.
pub get_under_replicated_cases :
    (thresh : ℕ) (special : Map Text ℕ) (path : Text) (replica : List Text) (root : SNode)
    → get_under_replicated thresh special path replica root ≡ elim (locate (parse_path path) root) [
      | none ↦ (replica, negsuc 0)
      | some s ↦
          let all = replica ++ under thresh special path (files s.directory) in
          (all, pos (length all))
    ]
unfolding get_under_replicated
get_under_replicated_cases thresh special path replica root =
    elim (Option-cases (locate (parse_path path) root)) [
      | inl e ↦ rw (e, get_under_replicated) refl
      | inr (s, e) ↦
          rw
            (
              e,
              get_under_replicated,
              under_replicated_in-files thresh special path s.directory replica,
            )
            refl
    ]
