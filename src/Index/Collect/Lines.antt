-- ===== src/Index/Collect/Lines.antt =====
-- Index::collectDataInfo gives a line for each file that is not an index file.
use mathlib.Core.List.{append_assoc, append-nil}
use sector_sphere.Base.{
  ℤ, ◌<◌, ◌≢◌, ◌↔◌, subst, codes, none, Option, length-append, ◌≡◌, refl, ap, ◌∙◌, sym, pos, negsuc,
  Text, Bool, true, false, some, List, [], ◌∷◌, ◌++◌, length, if◌then◌else◌, is_empty, arith, inl,
  inr, ◌⊎◌, Bool-cases, Option-cases,
}
use sector_sphere.Base.Keys.{text_eq, text_eq_iff}
use sector_sphere.Index.Tree.Order.{IsOrdered}
use sector_sphere.Meta.{parse_path}
use sector_sphere.Index.Tree.{Attr, SNode}
use sector_sphere.Index.Walk.{locate, attr_at}
use sector_sphere.Index.Read.Files.{files}
use sector_sphere.Index.Read.Listing.{joined}
use sector_sphere.Index.Collect.{
  is_index, info_line, collect_in, collect_data_info, last_of, beside_of, ends_with,
}
use sector_sphere.Index.Collect.DataFiles.{data_files, index_of, AreLines, info_line-IsLine}
use sector_sphere.Index.Collect.Entries.{
  FoundIn-self, LooksIn, collect_in-files, index_of-append, index_of-beside_of, IsOrdered-locate,
}

-- The names that is_index takes are those with something before ".idx".
abbrev pub IsIndexed : Text → Type 0
IsIndexed n = (m : Text) × (is_empty m ≡ false) × (n ≡ m ++ codes ".idx")

ends_with-append : (s t : Text) → ends_with s t ≡ true → (m : Text) × (t ≡ m ++ s)
unfolding ends_with
ends_with-append s [] h = ([], ground (arith, h, text_eq_iff s []))
ends_with-append s (c ∷ t) h = elim (Bool-cases (text_eq s (c ∷ t))) [
  | inl e ↦ ([], ground (arith, e, text_eq_iff s (c ∷ t)))
  | inr e ↦ let r = ends_with-append s t (ground (arith, h, e)) in (c ∷ r.0, ap (λ x. c ∷ x) r.1)
]

append-ends_with : (s m : Text) → ends_with s (m ++ s) ≡ true
unfolding ends_with text_eq
append-ends_with [] [] = refl
append-ends_with (c ∷ s) [] = ground (arith, text_eq_iff (c ∷ s) (c ∷ s))
append-ends_with s (c ∷ m) = ground (arith, append-ends_with s m)

is_index-IsIndexed : (n : Text) → (is_index n ≡ true) ↔ IsIndexed n
unfolding is_index
is_index-IsIndexed n = (
  λ h.
      let r = ends_with-append (codes ".idx") n (ground (arith, h)) in
      (r.0, nonempty r.0 n (ground (arith, h)) r.1, r.1),
  λ (m, e, f). back m n e f,
)
  where
    nonempty : (m k : Text) → 4 < length k → k ≡ m ++ codes ".idx" → is_empty m ≡ false
    nonempty [] k h e = ground (arith, h, ap (λ x. length x) e)
    nonempty (c ∷ m) k h e = refl

    back : (m k : Text) → is_empty m ≡ false → k ≡ m ++ codes ".idx" → is_index k ≡ true
    back [] k h e = absurd (ground (arith, h))
    back (c ∷ m) k h e =
        rw e
          (ground (arith, append-ends_with (codes ".idx") (c ∷ m), length-append m (codes ".idx")))

top_lines :
    (b : Bool) (index : List Text → Option Attr) (file : Text) (s : SNode) (name : Text) (t : SNode)
    (result : List Text)
    → IsOrdered s.directory
    → LooksIn index s
    → index [] ≡ attr_at ((name ++ codes ".idx") ∷ []) t
    → let start = if b then result else result ++ info_line file name s.attr t.directory ∷ [] in
      (ls : List Text) × (collect_in s.directory file s.directory start ≡ result ++ ls)
      × (if b
          then AreLines index file (data_files (files s.directory)) ls
          else AreLines index file (([], s.attr) ∷ data_files (files s.directory)) ls)
top_lines true index file s name t result o k e =
    collect_in-files s.directory s index file result o (FoundIn-self s.directory o) k
top_lines false index file s name t result o k e =
    let line = info_line file name s.attr t.directory in
    let (ls, g, h) =
      collect_in-files s.directory s index file (result ++ line ∷ []) o (FoundIn-self s.directory o)
        k in
    (
      line ∷ ls,
      g ∙ append_assoc result (line ∷ []) ls,
      (unfold joined in info_line-IsLine index file name [] s.attr t e, h),
    )

-- What collectDataInfo does for the names `dir` of a path: what it gives, and how long that is.
abbrev pub IsCollected : List Text → Text → List Text → SNode → List Text × ℤ → Type 0
IsCollected dir file result root r =
    let index = λ (q : List Text). attr_at (index_of (dir ++ q)) root in
    ((dir ≡ []) × (r ≡ (result, negsuc 2)))
    ⊎ (((dir ≢ []) × (locate dir root ≡ none) × (r ≡ (result, negsuc 0)))
        ⊎ ((s : SNode) × (dir ≢ [])
            × (locate dir root ≡ some s)
            × ((ls : List Text) × (r.0 ≡ result ++ ls)
                × (r.1 ≡ pos (length r.0))
                × (if s.is_dir
                    then AreLines index file (data_files (files s.directory)) ls
                    else AreLines index file (([], s.attr) ∷ data_files (files s.directory)) ls))))

-- Index::collectDataInfo. A path without names is the code -3, a missing one -1, and they append nothing. Else
-- it appends to the result a line for a file itself, and one for each file below the path whose name does not end with
-- ".idx" behind something, in the order of the index, and returns the new length. A line is the path, the size, the
-- number of records, which is an eighth of the size of the index file at the same path with ".idx", less one, or -1 if there
-- is none, as an int, and the locations; an index file of not fewer than 2 ^ 63 bytes is left open. The maps of the index are in order.
pub collect_data_info_cases :
    (file : Text) (result : List Text) (root : SNode)
    → IsOrdered root.directory
    → IsCollected (parse_path file) file result root (collect_data_info file result root)
      × ((n : Text) → (is_index n ≡ true) ↔ IsIndexed n)
unfolding collect_data_info
collect_data_info_cases file result root o = (from (parse_path file) refl, is_index-IsIndexed)
  where
    from :
        (dir : List Text)
        → parse_path file ≡ dir
        → IsCollected dir file result root (collect_data_info file result root)
    from [] e = inl (refl, rw (collect_data_info, e) refl)
    from (n ∷ p) e = elim (Option-cases (locate (n ∷ p) root)) [
      | inl f ↦ inr (inl ((λ x. cc), f, rw (collect_data_info, e, f) refl))
      | inr (s, f) ↦
          let index = λ (q : List Text). attr_at (index_of (n ∷ p ++ q)) root in
          let dir = parse_path file in
          let t =
            top_lines s.is_dir index file s (last_of dir)
              (record { attr = root.attr; directory = beside_of dir root }) result
              (IsOrdered-locate (n ∷ p) root s f o) (λ m q. index_of-append (n ∷ p) m q root s f)
              (ap (λ d. attr_at (index_of d) root) (append-nil (n ∷ p))
                ∙ subst
                    (λ d.
                      attr_at (index_of (n ∷ p)) root
                      ≡ attr_at ((last_of d ++ codes ".idx") ∷ [])
                          (record { attr = root.attr; directory = beside_of d root }))
                    (sym e) (index_of-beside_of n p root s f)) in
          inr (
            inr (
              s,
              (λ x. cc),
              f,
              (t.0, rw (collect_data_info, e, f) t.1, rw (collect_data_info, e, f) refl, t.2),
            ))
    ]
