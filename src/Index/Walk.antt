-- ===== src/Index/Walk.antt =====
-- The loops of common/index.cpp that walk down a path: to a node, to a node that is then changed,
-- and the one that makes the directories that are missing.
use sector_sphere.Base.{
  is_some, ℕ, ◌≡◌, refl, Text, Bool, true, false, ◌&&◌, Option, none, some, List, [], ◌∷◌, arith,
  if◌then◌else◌, Option-cases, inl, inr,
}
use sector_sphere.Base.Keys.{text_eq, text_eq_iff}
use sector_sphere.Index.Tree.{Attr, nil, SNode, find, put, find-put}

-- The node under the names, from a node above them.
unfoldable pub locate : List Text → SNode → Option SNode
locate [] s = some s
locate (n ∷ ns) s = elim (find n s.directory) [ none ↦ none | some c ↦ locate ns c ]

-- The tree with the node under the names changed in place.
unfoldable pub modify : (SNode → SNode) → List Text → SNode → SNode
modify f [] s = f s
modify f (n ∷ ns) s = elim (find n s.directory) [
  | none ↦ s
  | some c ↦ record s { directory = put n (modify f ns c) s.directory }
]

-- SNode n; n.m_strName = name; n.m_bIsDir = true
abbrev pub fresh : Text → ℕ → SNode
fresh name ts = record {
  attr = record {
    name = name;
    is_dir = true;
    location = [];
    time_stamp = ts;
    size = 0;
    checksum = [];
  };
  directory = nil;
}

-- The names with a directory made for each that is missing, and whether none was.
unfoldable pub ensure : List Text → SNode → SNode × Bool
ensure [] s = (s, true)
ensure (n ∷ ns) s = elim (find n s.directory) [
  | none ↦ (record s { directory = put n (ensure ns (fresh n 0)).0 s.directory }, false)
  | some c ↦ let r = ensure ns c in (record s { directory = put n r.0 s.directory }, r.1)
]

-- What the file system shows of a path.
unfoldable pub attr_at : List Text → SNode → Option Attr
attr_at [] s = some s.attr
attr_at (n ∷ ns) s = elim (find n s.directory) [ none ↦ none | some c ↦ attr_at ns c ]

unfoldable pub names_eq : List Text → List Text → Bool
names_eq [] [] = true
names_eq [] (m ∷ ms) = false
names_eq (n ∷ ns) [] = false
names_eq (n ∷ ns) (m ∷ ms) = text_eq n m && names_eq ns ms

unfoldable pub is_prefix : List Text → List Text → Bool
is_prefix [] ms = true
is_prefix (n ∷ ns) [] = false
is_prefix (n ∷ ns) (m ∷ ms) = text_eq n m && is_prefix ns ms

pub attr_at-locate :
    (ns : List Text) (s : SNode)
    → attr_at ns s ≡ elim (locate ns s) [ none ↦ none | some c ↦ some c.attr ]
unfolding attr_at locate
attr_at-locate [] s = refl
attr_at-locate (n ∷ ns) s = elim (Option-cases (find n s.directory)) [
  | inl e ↦ rw (e, attr_at, locate)
  | inr (c, e) ↦ rw (e, attr_at, locate) (attr_at-locate ns c)
]

pub attr_at-put :
    (n m : Text) (q : List Text) (c s : SNode)
    → attr_at (m ∷ q) (record s { directory = put n c s.directory })
      ≡ (if text_eq n m then attr_at q c else attr_at (m ∷ q) s)
unfolding attr_at
attr_at-put n m q c s = ground (arith, find-put n m c s.directory)

abbrev pub map_attr : (Attr → Attr) → Option Attr → Option Attr
map_attr g none = none
map_attr g (some a) = some (g a)

-- A change of attributes shows at its own path only.
pub attr_at-modify :
    (g : Attr → Attr) (p q : List Text) (s : SNode)
    → attr_at q (modify (λ t. record t { attr = g t.attr }) p s)
      ≡ (if names_eq p q then map_attr g (attr_at q s) else attr_at q s)
unfolding modify names_eq
attr_at-modify g [] [] s = unfold attr_at in refl
attr_at-modify g [] (m ∷ q) s = unfold attr_at in refl
attr_at-modify g (n ∷ p) [] s = unfold attr_at in ground arith
attr_at-modify g (n ∷ p) (m ∷ q) s = elim (Option-cases (find n s.directory)) [
  | inl e ↦ unfold attr_at in ground (arith, text_eq_iff n m)
  | inr (c, e) ↦
      rw (e, modify)
        (simp (attr_at-put, attr_at-modify g p q c)
          (unfold attr_at in ground (arith, text_eq_iff n m)))
]

-- The path of one name less.
abbrev pub last_name : Text → List Text → Text
last_name n [] = n
last_name n (m ∷ ms) = last_name m ms

abbrev pub made : List Text → Option Attr
made [] = none
made (n ∷ ns) = some (fresh (last_name n ns) 0).attr

abbrev pub or_made : Bool → List Text → Option Attr → Option Attr
or_made b ns none = if b then made ns else none
or_made b ns (some a) = some a

or_made-false : (q : List Text) (o : Option Attr) → o ≡ or_made false q o
or_made-false q none = refl
or_made-false q (some a) = refl

or_made-fresh :
    (n : Text) (p q : List Text)
    → or_made (is_prefix q p) q (attr_at q (fresh n 0))
      ≡ (if is_prefix q p then made (n ∷ q) else none)
unfolding attr_at is_prefix find
or_made-fresh n p [] = refl
or_made-fresh n p (m ∷ q) = refl

-- Making the missing directories adds them, each under its own name, and nothing else.
pub attr_at-ensure :
    (p q : List Text) (s : SNode)
    → attr_at q (ensure p s).0 ≡ or_made (is_prefix q p) q (attr_at q s)
unfolding ensure is_prefix
attr_at-ensure [] [] s = unfold attr_at in refl
attr_at-ensure [] (m ∷ q) s = or_made-false (m ∷ q) (attr_at (m ∷ q) s)
attr_at-ensure (n ∷ p) [] s = unfold attr_at in ground arith
attr_at-ensure (n ∷ p) (m ∷ q) s = elim (Option-cases (find n s.directory)) [
  | inl e ↦
      rw (e, ensure)
        (simp (attr_at-put, attr_at-ensure p q (fresh n 0), or_made-fresh)
          (unfold attr_at in ground (arith, text_eq_iff n m, text_eq_iff m n)))
  | inr (c, e) ↦
      rw (e, ensure)
        (simp (attr_at-put, attr_at-ensure p q c)
          (unfold attr_at in ground (arith, text_eq_iff n m, text_eq_iff m n)))
]

pub ensure_found : (p : List Text) (s : SNode) → (ensure p s).1 ≡ is_some (attr_at p s)
unfolding ensure attr_at
ensure_found [] s = refl
ensure_found (n ∷ p) s = elim (Option-cases (find n s.directory)) [
  | inl e ↦ rw (e, ensure, attr_at)
  | inr (c, e) ↦ rw (e, ensure, attr_at) (ensure_found p c)
]
