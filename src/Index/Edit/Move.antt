-- ===== src/Index/Edit/Move.antt =====
-- Index::move.
use sector_sphere.Base.{
  is_some, ◌≡◌, ◌≢◌, refl, sym, ◌∙◌, pos, Text, true, false, Option, none, some, List, [], ◌∷◌,
  ◌++◌, arith, if◌then◌else◌, is_empty, Option-cases, inl, inr,
}
use mathlib.Core.Bool.{false≢true}
use sector_sphere.Meta.{parse_path}
use sector_sphere.Index.Tree.{Attr, SNode}
use sector_sphere.Index.Walk.{
  attr_at, attr_at-locate, attr_at-modify, attr_at-ensure, ensure, modify, map_attr, or_made,
  last_name, locate, names_eq, is_prefix,
}
use sector_sphere.Index.Edit.{move, move_node, with_name, graft}
use sector_sphere.Index.Edit.Create.{names_eq-eq, is_some-prefix, or_made_old, is_prefix_self}
use sector_sphere.Index.Edit.Remove.{attr_at-cut}
use sector_sphere.Index.Edit.Graft.{
  behind, attr_at-graft, attr_at-append, behind-append, is_prefix-append, is_prefix_of_append,
  places_apart, is_prefix_trans, is_prefix_either,
}

abbrev pub key_of : List Text → Text → Text
key_of old newname = if is_empty newname then last_name [] old else newname

-- The name that the moved node itself gets.
abbrev pub renamed : Text → List Text → Option Attr → Option Attr
renamed newname [] o = if is_empty newname then o else map_attr (λ a. record a { name = newname }) o
renamed newname (n ∷ r) o = o

abbrev renamed_node : Text → SNode → SNode
renamed_node newname s = if is_empty newname then s else with_name newname s

attr_at-renamed :
    (newname : Text) (r : List Text) (s : SNode)
    → attr_at r (renamed_node newname s) ≡ renamed newname r (attr_at r s)
unfolding attr_at
attr_at-renamed newname [] s = ground arith
attr_at-renamed newname (n ∷ r) s = ground arith

ensure_whole : (p : List Text) (s : SNode) → is_some (attr_at p (ensure p s).0) ≡ true
ensure_whole p s = rw (attr_at-ensure p p s, is_prefix_self p) (whole p)
  where
    whole : (p : List Text) → is_some (or_made true p (attr_at p s)) ≡ true
    whole [] = unfold attr_at in refl
    whole (n ∷ p) = ground arith

names_eq-prefix : (p q : List Text) → names_eq p q ≡ true → is_prefix p q ≡ true
names_eq-prefix p q h = rw (← names_eq-eq p q h) (is_prefix_self p)

-- Where every path of the moved tree ends up.
move_node_view :
    (o : Text) (os new : List Text) (newname : Text) (made s : SNode) (q : List Text)
    → locate (o ∷ os) made ≡ some s
    → is_some (attr_at new made) ≡ true
    → let dst = new ++ key_of (o ∷ os) newname ∷ [] in
      attr_at q (move_node (o ∷ os) new newname made) ≡ (
        if is_prefix (o ∷ os) q
        then none
        else if is_prefix dst q
        then renamed newname (behind dst q) (attr_at (behind dst q) s)
        else attr_at q made)
unfolding move_node
move_node_view o os new [] made s q h k =
    let key = last_name o os in
    rw (h, move_node)
      (ground (
        arith,
        attr_at-cut o os q (graft new key s made),
        attr_at-graft new key s made q k,
        attr_at-renamed [] (behind (new ++ key ∷ []) q) s,
      ))
move_node_view o os new (c ∷ t) made s q h k =
    let name = c ∷ t in
    let source = modify (with_name name) (o ∷ os) made in
    rw (h, move_node)
      (ground (
        arith,
        attr_at-cut o os q (graft new name (with_name name s) source),
        attr_at-graft new name (with_name name s) source q
            (ground (arith, k, attr_at-modify (λ a. record a { name = name }) (o ∷ os) new made)),
        attr_at-renamed name (behind (new ++ name ∷ []) q) s,
        attr_at-modify (λ a. record a { name = name }) (o ∷ os) q made,
        names_eq-prefix (o ∷ os) q,
      ))

abbrev pub destination : Text → Text → Text → List Text
destination oldpath newpath newname = parse_path newpath ++ key_of (parse_path oldpath) newname ∷ []

module _ (o : Text) (os new : List Text) (newname : Text) (root : SNode)
    (found : is_some (attr_at (o ∷ os) root) ≡ true) where
  abbrev old : List Text
  old = o ∷ os

  abbrev dst : List Text
  dst = new ++ key_of old newname ∷ []

  still_there : is_some (attr_at old (ensure new root).0) ≡ true
  still_there = ground (arith, found, attr_at-ensure new old root)

  source : (s : SNode) × (locate old (ensure new root).0 ≡ some s)
  source = elim (Option-cases (locate old (ensure new root).0)) [
    | inl e ↦ ground (arith, still_there, attr_at-locate old (ensure new root).0)
    | inr (s, e) ↦ (s, e)
  ]

  move_run :
      (oldpath newpath : Text)
      → parse_path oldpath ≡ old
      → parse_path newpath ≡ new
      → move oldpath newpath newname root ≡ (move_node old new newname (ensure new root).0, pos 1)
  unfolding move
  move_run oldpath newpath e f = ground (arith, found, attr_at-locate old root)

  pub move_view :
      (q : List Text)
      → is_prefix old new ≡ false
      → attr_at q (move_node old new newname (ensure new root).0) ≡ (
          if is_prefix old q
          then none
          else if is_prefix dst q
          then renamed newname (behind dst q) (attr_at (old ++ behind dst q) root)
          else or_made (is_prefix q new) q (attr_at q root))
  move_view q h =
      let (s, e) = source in
      let r = behind dst q in
      ground (
        arith,
        move_node_view o os new newname (ensure new root).0 s q e (ensure_whole new root),
        attr_at-append old r (ensure new root).0 s e,
        attr_at-ensure new (old ++ r) root,
        attr_at-ensure new q root,
        or_made_old (is_prefix (old ++ r) new) (old ++ r) (attr_at (old ++ r) root)
            (λ k. absurd (false≢true (sym h ∙ is_prefix_of_append old new r k))),
      )

  lost_view :
      (q : List Text)
      → is_prefix old new ≡ true
      → attr_at q (move_node old new newname (ensure new root).0)
        ≡ (if is_prefix old q then none else attr_at q root)
  lost_view q h =
      let (s, e) = source in
      ground (
        arith,
        move_node_view o os new newname (ensure new root).0 s q e (ensure_whole new root),
        is_prefix_of_append new q (key_of old newname ∷ []),
        is_prefix_trans old new q h,
        attr_at-ensure new q root,
        or_made_old (is_prefix q new) q (attr_at q root),
        is_prefix_either old q new h,
        is_some-prefix q old root,
        found,
      )

-- What a move is to do to the tree `t`, giving `t'`.
pub record Moves (old new dst : List Text) (newname : Text) (t t' : SNode) : Type 0 where
  pub there : (r : List Text) → attr_at (dst ++ r) t' ≡ renamed newname r (attr_at (old ++ r) t)
  pub gone : (r : List Text) → attr_at (old ++ r) t' ≡ none
  pub elsewhere :
      (q : List Text)
      → is_prefix old q ≡ false
      → is_prefix dst q ≡ false
      → attr_at q t' ≡ or_made (is_prefix q new) q (attr_at q t)

-- Moving an existing node to a place that is not below it, and not above it or its own: the whole
-- tree shows at the new place, its top under the new name if one is given, nothing is left at the
-- old place, and every other path shows what it did, but for the directories of the new path, which
-- are made if they were missing.
pub move_cases :
    (oldpath newpath newname : Text) (root : SNode)
    → parse_path oldpath ≢ []
    → is_some (attr_at (parse_path oldpath) root) ≡ true
    → is_prefix (parse_path oldpath) (parse_path newpath) ≡ false
    → is_prefix (destination oldpath newpath newname) (parse_path oldpath) ≡ false
    → ((move oldpath newpath newname root).1 ≡ pos 1)
      × Moves
          (parse_path oldpath)
          (parse_path newpath)
          (destination oldpath newpath newname)
          newname
          root
          (move oldpath newpath newname root).0
move_cases oldpath newpath newname root given found apart above =
    from (parse_path oldpath) refl given found apart above
  where
    new : List Text
    new = parse_path newpath

    from :
        (old : List Text)
        → parse_path oldpath ≡ old
        → old ≢ []
        → is_some (attr_at old root) ≡ true
        → is_prefix old new ≡ false
        → is_prefix (new ++ key_of old newname ∷ []) old ≡ false
        → ((move oldpath newpath newname root).1 ≡ pos 1)
          × Moves old new
              (new ++ key_of old newname ∷ [])
              newname
              root
              (move oldpath newpath newname root).0
    from [] e g f a b = absurd (g refl)
    from (o ∷ os) e g f a b =
        let view = λ (q : List Text). move_view o os new newname root f q a in
        let key = key_of (o ∷ os) newname in
        let dst = new ++ key ∷ [] in
        rw (move_run o os new newname root f oldpath newpath e refl) (
          refl,
          record {
            there = λ r. ground (
              arith,
              view (dst ++ r),
              places_apart (o ∷ os) new key r a b,
              is_prefix-append dst r,
              behind-append dst r,
            );
            gone = λ r. ground (arith, view ((o ∷ os) ++ r), is_prefix-append (o ∷ os) r);
            elsewhere = λ q h k. ground (arith, view q);
          },
        )

-- Moving a node into itself or into a directory below it reports success and loses it: no path
-- shows anything of it any more, and every path that is not below it shows what it did before.
pub move_into_self :
    (oldpath newpath newname : Text) (root : SNode)
    → parse_path oldpath ≢ []
    → is_some (attr_at (parse_path oldpath) root) ≡ true
    → is_prefix (parse_path oldpath) (parse_path newpath) ≡ true
    → (q : List Text)
    → ((move oldpath newpath newname root).1 ≡ pos 1)
      × (attr_at q (move oldpath newpath newname root).0
          ≡ (if is_prefix (parse_path oldpath) q then none else attr_at q root))
move_into_self oldpath newpath newname root given found inside q =
    from (parse_path oldpath) refl given found inside
  where
    from :
        (old : List Text)
        → parse_path oldpath ≡ old
        → old ≢ []
        → is_some (attr_at old root) ≡ true
        → is_prefix old (parse_path newpath) ≡ true
        → ((move oldpath newpath newname root).1 ≡ pos 1)
          × (attr_at q (move oldpath newpath newname root).0
              ≡ (if is_prefix old q then none else attr_at q root))
    from [] e g f a = absurd (g refl)
    from (o ∷ os) e g f a =
        rw (move_run o os (parse_path newpath) newname root f oldpath newpath e refl)
          (refl, lost_view o os (parse_path newpath) newname root f q a)
