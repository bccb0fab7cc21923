-- ===== src/Index/Edit/Create.antt =====
-- Index::create and Index::utime: which paths change.
use sector_sphere.Base.{
  is_some, ℕ, ◌≡◌, ◌≢◌, refl, ◌∙◌, pos, negsuc, Text, Bool, true, false, Option, none, some, List,
  [], ◌∷◌, arith, if◌then◌else◌, is_empty, Option-cases, Bool-cases, inl, inr,
}
use sector_sphere.Base.Keys.{text_eq_iff}
use sector_sphere.Meta.{parse_path}
use sector_sphere.Index.Tree.{Attr, SNode, find}
use sector_sphere.Index.Walk.{
  attr_at, attr_at-locate, attr_at-modify, attr_at-ensure, ensure, ensure_found, modify, map_attr,
  made, or_made, names_eq, is_prefix,
}
use sector_sphere.Index.Edit.{create, utime, with_dir}

pub names_eq-eq : (p q : List Text) → names_eq p q ≡ true → p ≡ q
unfolding names_eq
names_eq-eq [] [] h = refl
names_eq-eq [] (m ∷ q) h = cc
names_eq-eq (n ∷ p) [] h = cc
names_eq-eq (n ∷ p) (m ∷ q) h = ground (arith, names_eq-eq p q, text_eq_iff n m)

pub is_prefix_self : (p : List Text) → is_prefix p p ≡ true
unfolding is_prefix
is_prefix_self [] = refl
is_prefix_self (n ∷ p) = ground (arith, is_prefix_self p, text_eq_iff n n)

-- What exists has its whole path.
pub is_some-prefix :
    (q p : List Text) (s : SNode)
    → is_prefix q p ≡ true
    → is_some (attr_at p s) ≡ true
    → is_some (attr_at q s) ≡ true
unfolding is_prefix attr_at
is_some-prefix [] p s h k = refl
is_some-prefix (m ∷ q) [] s h k = cc
is_some-prefix (m ∷ q) (n ∷ p) s h k = elim (Option-cases (find n s.directory)) [
  | inl e ↦ ground arith
  | inr (c, e) ↦ ground (arith, text_eq_iff m n, is_some-prefix q p c)
]

pub or_made_old :
    (b : Bool) (q : List Text) (o : Option Attr) → (b ≡ true → is_some o ≡ true) → or_made b q o ≡ o
or_made_old true q none h = ground (arith, h refl)
or_made_old false q none h = refl
or_made_old b q (some a) h = refl

-- What a new node shows.
abbrev pub created : Bool → List Text → Option Attr
created isdir p = map_attr (λ a. record a { is_dir = isdir }) (made p)

is_empty-false : (p : List Text) → p ≢ [] → is_empty p ≡ false
is_empty-false [] h = absurd (h refl)
is_empty-false (n ∷ p) h = refl

new_view :
    (dir : List Text) (isdir : Bool) (root : SNode) (q : List Text)
    → is_some (attr_at dir root) ≡ false
    → map_attr (λ a. record a { is_dir = isdir }) (or_made true dir (attr_at dir root))
      ≡ created isdir dir
new_view dir isdir root q h = ground arith

create_view :
    (dir : List Text) (isdir : Bool) (root : SNode) (q : List Text)
    → attr_at q (
        if is_some (attr_at dir root)
        then (ensure dir root).0
        else modify (with_dir isdir) dir (ensure dir root).0)
      ≡ (if is_some (attr_at dir root)
          then attr_at q root
          else if names_eq dir q
          then created isdir dir
          else or_made (is_prefix q dir) q (attr_at q root))
create_view dir isdir root q = elim (Bool-cases (is_some (attr_at dir root))) [
  | inl old ↦ rw old (
      attr_at-ensure dir q root
      ∙ or_made_old (is_prefix q dir) q (attr_at q root) (λ h. is_some-prefix q dir root h old))
  | inr new ↦ rw new (
      attr_at-modify (λ a. record a { is_dir = isdir }) dir q (ensure dir root).0
      ∙ elim (Bool-cases (names_eq dir q)) [
        | inl e ↦
            rw (e, ← names_eq-eq dir q e, attr_at-ensure dir dir root, is_prefix_self dir)
              (new_view dir isdir root q new)
        | inr e ↦ rw e (attr_at-ensure dir q root)
      ])
]

-- `create` fails with -1 exactly if the path exists, and then no path changes. Otherwise the path
-- shows an empty file or directory, as asked, the directories above it that were missing are made,
-- and no other path changes.
pub create_cases :
    (path : Text) (isdir : Bool) (root : SNode) (q : List Text)
    → parse_path path ≢ []
    → let dir = parse_path path in
      let exists = is_some (attr_at dir root) in
      ((create path isdir root).1 ≡ (if exists then negsuc 0 else pos 0))
      × (attr_at q (create path isdir root).0 ≡ (
          if exists
          then attr_at q root
          else if names_eq dir q
          then created isdir dir
          else or_made (is_prefix q dir) q (attr_at q root)))
unfolding create
create_cases path isdir root q h =
    let dir = parse_path path in
    (
      ground (arith, is_empty-false dir h, ensure_found dir root),
      ground (arith, is_empty-false dir h, ensure_found dir root, create_view dir isdir root q),
    )

-- `utime` sets the time of the path, if it exists, and no other path changes.
pub utime_cases :
    (path : Text) (ts : ℕ) (root : SNode) (q : List Text)
    → parse_path path ≢ []
    → let dir = parse_path path in
      ((utime path ts root).1 ≡ (if is_some (attr_at dir root) then pos 1 else negsuc 0))
      × (attr_at q (utime path ts root).0 ≡ (
          if names_eq dir q
          then map_attr (λ a. record a { time_stamp = ts }) (attr_at q root)
          else attr_at q root))
unfolding utime
utime_cases path ts root q h =
    let dir = parse_path path in
    (
      ground (arith, is_empty-false dir h, attr_at-locate dir root),
      ground (
        arith,
        is_empty-false dir h,
        attr_at-locate dir root,
        attr_at-modify (λ a. record a { time_stamp = ts }) dir q root,
        names_eq-eq dir q,
      ),
    )
