-- ===== src/Index/Edit/Update.antt =====
-- Index::update: a slave's report of a file, new, changed or replicated.
use sector_sphere.Base.{
  ◌∙◌, ◌⊎◌, Bool, not, ◌&&◌, ◌||◌, ◌==◌, length, Bool-cases, ℕ, ◌≡◌, refl, ℤ, pos, negsuc, Text,
  true, false, Option, none, some, List, [], ◌∷◌, arith, if◌then◌else◌, Option-cases, inl, inr,
}
use sector_sphere.Base.Sets
use sector_sphere.Base.Keys.{text_eq, text_eq_iff}
use sector_sphere.Meta.{parse_path}
use sector_sphere.Address.{Address, addr_key, addr_eq}
use sector_sphere.Index.Tree.{Attr, nil, SNode, find}
use sector_sphere.Index.Walk.{attr_at, attr_at-put, fresh, last_name, names_eq, is_prefix}
use sector_sphere.Index.Edit.{update, update_in, update_file, for_old, with_time, differs}

module _ (sn : Attr) (loc : Address) (type : ℕ) where
  -- What the report makes of the attributes at its own path, and of a directory above it.
  abbrev pub at_file : List Text → Option Attr → Option Attr
  at_file [] o = o
  at_file (n ∷ ns) none = if for_old type then none else some (record sn { name = last_name n ns })
  at_file (n ∷ ns) (some a) = some (update_file sn loc type a).0

  abbrev pub at_dir : List Text → Option Attr → Option Attr
  at_dir [] o = o
  at_dir (n ∷ ns) none =
      if for_old type then none else some (fresh (last_name n ns) sn.time_stamp).attr
  at_dir (n ∷ ns) (some a) = some (record a { time_stamp = sn.time_stamp })

  abbrev pub updated : List Text → List Text → Option Attr → Option Attr
  updated dir q o =
      if names_eq dir q then at_file q o else if is_prefix q dir then at_dir q o else o

  abbrev pub code : Option Attr → ℤ
  code none = if for_old type then negsuc 0 else pos 1
  code (some a) = (update_file sn loc type a).1

  update_in-code :
      (n : Text) (ns : List Text) (s : SNode)
      → (update_in sn loc type (n ∷ ns) s).1 ≡ code (attr_at (n ∷ ns) s)
  unfolding update_in attr_at find
  update_in-code n [] s = ground arith
  update_in-code n (m ∷ ns) s = elim (Option-cases (find n s.directory)) [
    | inl e ↦ ground (arith, e, update_in-code m ns (fresh n sn.time_stamp))
    | inr (c, e) ↦ rw (e, update_in, attr_at) (update_in-code m ns (with_time sn.time_stamp c))
  ]

  abbrev new_file : Text → SNode
  new_file n = record { attr = record sn { name = n }; directory = nil }

  abbrev old_file : SNode → SNode
  old_file c = record c { attr = (update_file sn loc type c.attr).0 }

  abbrev stamped : SNode → SNode
  stamped c = with_time sn.time_stamp c

  abbrev new_dir : Text → SNode
  new_dir n = fresh n sn.time_stamp

  -- The same below the first name of the path.
  abbrev inside : List Text → Text → List Text → Option Attr → Option Attr
  inside ns k q o =
      if names_eq ns q then at_file (k ∷ q) o else if is_prefix q ns then at_dir (k ∷ q) o else o

  updated-cons :
      (n k : Text) (ns q : List Text) (o : Option Attr)
      → updated (n ∷ ns) (k ∷ q) o ≡ (if text_eq n k then inside ns k q o else o)
  unfolding names_eq is_prefix
  updated-cons n k ns q o = ground (arith, text_eq_iff n k, text_eq_iff k n)

  inside-refused : (ns q : List Text) (k : Text) → for_old type ≡ true → none ≡ inside ns k q none
  inside-refused ns q k h = ground arith

  inside-new_file :
      (k : Text) (q : List Text)
      → for_old type ≡ false
      → attr_at q (new_file k) ≡ inside [] k q none
  unfolding attr_at find names_eq is_prefix
  inside-new_file k [] h = ground arith
  inside-new_file k (l ∷ q) h = ground arith

  inside-old_file :
      (k : Text) (q : List Text) (c : SNode) → attr_at q (old_file c) ≡ inside [] k q (attr_at q c)
  unfolding attr_at names_eq is_prefix
  inside-old_file k [] c = refl
  inside-old_file k (l ∷ q) c = refl

  inside-new_dir :
      (m k : Text) (ns q : List Text)
      → for_old type ≡ false
      → updated (m ∷ ns) q (attr_at q (new_dir k)) ≡ inside (m ∷ ns) k q none
  unfolding attr_at find names_eq is_prefix
  inside-new_dir m k ns [] h = ground arith
  inside-new_dir m k ns (l ∷ q) h = ground arith

  inside-old_dir :
      (m k : Text) (ns q : List Text) (c : SNode)
      → updated (m ∷ ns) q (attr_at q (stamped c)) ≡ inside (m ∷ ns) k q (attr_at q c)
  unfolding attr_at names_eq is_prefix
  inside-old_dir m k ns [] c = refl
  inside-old_dir m k ns (l ∷ q) c = at_same (attr_at (l ∷ q) c)
    where
      at_same : (o : Option Attr) → updated (m ∷ ns) (l ∷ q) o ≡ inside (m ∷ ns) k (l ∷ q) o
      at_same none = ground arith
      at_same (some a) = ground arith

  attr_at-child :
      (k : Text) (q : List Text) (s : SNode)
      → attr_at (k ∷ q) s ≡ elim (find k s.directory) [ none ↦ none | some c ↦ attr_at q c ]
  unfolding attr_at
  attr_at-child k q s = refl

  -- The update one level down, at the child that the walk goes on with.
  attr_at-update_in :
      (n : Text) (ns q : List Text) (s : SNode)
      → attr_at q (update_in sn loc type (n ∷ ns) s).0 ≡ updated (n ∷ ns) q (attr_at q s)
  unfolding update_in
  attr_at-update_in n [] [] s = unfold attr_at names_eq is_prefix in ground arith
  attr_at-update_in n [] (k ∷ q) s = elim (Option-cases (find n s.directory)) [
    | inl e ↦
        rw (e, update_in)
          (ground (
            arith,
            updated-cons n k [] q (attr_at (k ∷ q) s),
            text_eq_iff n k,
            attr_at-child k q s,
            inside-new_file k q,
            inside-refused [] q k,
            attr_at-put n k q (new_file n) s,
          ))
    | inr (c, e) ↦
        rw (e, update_in)
          (ground (
            arith,
            updated-cons n k [] q (attr_at (k ∷ q) s),
            text_eq_iff n k,
            attr_at-child k q s,
            inside-old_file k q c,
            attr_at-put n k q (old_file c) s,
          ))
  ]
  attr_at-update_in n (m ∷ ns) [] s = unfold attr_at names_eq is_prefix in ground arith
  attr_at-update_in n (m ∷ ns) (k ∷ q) s = elim (Option-cases (find n s.directory)) [
    | inl e ↦
        rw (e, update_in)
          (ground (
            arith,
            updated-cons n k (m ∷ ns) q (attr_at (k ∷ q) s),
            text_eq_iff n k,
            attr_at-child k q s,
            inside-new_dir m k ns q,
            inside-refused (m ∷ ns) q k,
            attr_at-update_in m ns q (new_dir n),
            attr_at-put n k q (update_in sn loc type (m ∷ ns) (new_dir n)).0 s,
          ))
    | inr (c, e) ↦
        rw (e, update_in)
          (ground (
            arith,
            updated-cons n k (m ∷ ns) q (attr_at (k ∷ q) s),
            text_eq_iff n k,
            attr_at-child k q s,
            inside-old_dir m k ns q c,
            attr_at-update_in m ns q (stamped c),
            attr_at-put n k q (update_in sn loc type (m ∷ ns) (stamped c)).0 s,
          ))
  ]

-- The size and the time of the report are those of the file.
abbrev pub same_copy : Attr → Attr → Bool
same_copy sn a = a.size == sn.size && a.time_stamp == sn.time_stamp

-- The addresses of a file are those of another, and one more if a test holds.
abbrev pub HasAlso : Address → Bool → Attr → Attr → Type 0
HasAlso loc b a a' =
    (x : Address) → Sets.has x a'.location ≡ ((b && addr_eq loc x) || Sets.has x a.location)

-- What a report does to a file: type 1 and 2 are for changes, 3 is for a replica.
abbrev pub IsChanged : Attr → Address → ℕ → Attr → Attr → ℤ → Type 0
IsChanged sn loc type a a' c =
    if type == 1 || type == 2
    then (a'.size ≡ sn.size)
      × (a'.time_stamp ≡ sn.time_stamp)
      × HasAlso loc (not (same_copy sn a)) a a'
      × (c ≡ pos (length a'.location))
    else if type == 3 && (not (Sets.has loc a.location) && same_copy sn a)
    then (a'.size ≡ a.size)
      × (a'.time_stamp ≡ a.time_stamp)
      × HasAlso loc true a a'
      × (c ≡ pos (length a'.location))
    else (a' ≡ a) × (c ≡ negsuc 0)

-- What it does to what stands at the path of its file.
abbrev pub IsReported : Attr → Address → ℕ → List Text → Option Attr → Option Attr → ℤ → Type 0
IsReported sn loc type dir none o' c =
    if type == 3 || type == 2
    then (o' ≡ none) × (c ≡ negsuc 0)
    else (o' ≡ some (record sn { name = last_name [] dir })) × (c ≡ pos 1)
IsReported sn loc type dir (some a) o' c =
    (a' : Attr) × (o' ≡ some a')
    × (a'.name ≡ a.name)
    × (a'.is_dir ≡ a.is_dir)
    × (a'.checksum ≡ a.checksum)
    × IsChanged sn loc type a a' c

update_file-IsChanged :
    (sn : Attr) (loc : Address) (type : ℕ) (a : Attr)
    → let r = update_file sn loc type a in
      (r.0.name ≡ a.name)
      × (r.0.is_dir ≡ a.is_dir)
      × (r.0.checksum ≡ a.checksum)
      × IsChanged sn loc type a r.0 r.1
unfolding update_file
update_file-IsChanged sn loc type a = elim (Bool-cases (type == 1 || type == 2)) [
  | inl e ↦ elim (Bool-cases (differs a sn)) [
    | inl f ↦
        rw (update_file, e, f)
          (
            refl,
            refl,
            refl,
            (refl, refl, (λ x. ground (arith, f, Sets.has-add loc x a.location)), refl),
          )
    | inr f ↦
        rw (update_file, e, f)
          (refl, refl, refl, (ground (arith, f), ground (arith, f), (λ x. ground (arith, f)), refl))
  ]
  | inr e ↦ elim (Bool-cases (type == 3 && (not (Sets.has loc a.location) && same_copy sn a))) [
    | inl f ↦
        let three : (type == 3) ≡ true = ground (arith, f) in
        let absent : Sets.has loc a.location ≡ false = ground (arith, f) in
        let same : differs a sn ≡ false = ground (arith, f) in
        let copy : same_copy sn a ≡ true = ground (arith, f) in
        rw (update_file, e, three, absent, same, copy)
          (refl, refl, refl, (refl, refl, (λ x. Sets.has-add loc x a.location), refl))
    | inr f ↦ elim (Bool-cases (type == 3)) [
      | inr g ↦ rw (update_file, e, g) (refl, refl, refl, (refl, refl))
      | inl g ↦ elim (Bool-cases (Sets.has loc a.location)) [
        | inl h ↦ rw (update_file, e, g, h) (refl, refl, refl, (refl, refl))
        | inr h ↦
            let copy : same_copy sn a ≡ false = ground (arith, f, g, h) in
            let other : differs a sn ≡ true = ground (arith, copy) in
            rw (update_file, e, g, h, copy, other) (refl, refl, refl, (refl, refl))
      ]
    ]
  ]
]

-- The report at its own path.
at_file-IsReported :
    (sn : Attr) (loc : Address) (type : ℕ) (n : Text) (ns : List Text) (o : Option Attr)
    → IsReported sn loc type (n ∷ ns) o (at_file sn loc type (n ∷ ns) o) (code sn loc type o)
at_file-IsReported sn loc type n ns none = elim (Bool-cases (for_old type)) [
  | inl e ↦ rw e (refl, refl)
  | inr e ↦ rw e (refl, refl)
]
at_file-IsReported sn loc type n ns (some a) =
    let t = update_file-IsChanged sn loc type a in
    ((update_file sn loc type a).0, refl, t.0, t.1, t.2, t.3)

names_eq_refl : (ns : List Text) → names_eq ns ns ≡ true
unfolding names_eq
names_eq_refl [] = refl
names_eq_refl (n ∷ ns) = ground (arith, names_eq_refl ns, text_eq_iff n n)

-- A report on every branch. Of a name without parts it is the code -1 and changes nothing. Otherwise, at the path of the
-- file: if nothing is there, a report of type 2 or 3 is the code -1 and any other enters the file as
-- reported, with the code 1; if a file is there, types 1 and 2 give it the size and the time of the report,
-- and the address unless both were so before; type 3 gives it the address, if it does not have it
-- and the size and the time are those of the report; the code is then the number of its addresses. All other
-- reports are the code -1 and leave it, and nothing else of it changes. Of the other paths, the directories above the file
-- take the time of the report, and missing ones are made unless the type is 2 or 3; no other path changes.
pub update_cases :
    (fileinfo : Attr) (loc : Address) (type : ℕ) (root : SNode)
    → let dir = parse_path fileinfo.name in
      let sn = record fileinfo { location = Sets.add loc fileinfo.location } in
      let r = update fileinfo loc type root in
      ((dir ≡ []) × (r ≡ (root, negsuc 0)))
      ⊎ (IsReported sn loc type dir (attr_at dir root) (attr_at dir r.0) r.1
          × ((q : List Text)
              → names_eq dir q ≡ false
              → attr_at q r.0 ≡ (
                  if is_prefix q dir
                  then at_dir sn loc type q (attr_at q root)
                  else attr_at q root)))
update_cases fileinfo loc type root = from (parse_path fileinfo.name) refl
  where
    sn : Attr
    sn = record fileinfo { location = Sets.add loc fileinfo.location }

    from :
        (dir : List Text)
        → parse_path fileinfo.name ≡ dir
        → let r = update fileinfo loc type root in
          ((dir ≡ []) × (r ≡ (root, negsuc 0)))
          ⊎ (IsReported sn loc type dir (attr_at dir root) (attr_at dir r.0) r.1
              × ((q : List Text)
                  → names_eq dir q ≡ false
                  → attr_at q r.0 ≡ (
                      if is_prefix q dir
                      then at_dir sn loc type q (attr_at q root)
                      else attr_at q root)))
    from [] e = unfold update update_in in rw e (inl (refl, refl))
    from (n ∷ ns) e =
        let r = update_in sn loc type (n ∷ ns) root in
        let here : attr_at (n ∷ ns) r.0 ≡ at_file sn loc type (n ∷ ns) (attr_at (n ∷ ns) root) =
          attr_at-update_in sn loc type n ns (n ∷ ns) root ∙ rw (names_eq_refl (n ∷ ns)) refl in
        unfold update in
        rw e (
          inr (
            rw (here, update_in-code sn loc type n ns root)
                (at_file-IsReported sn loc type n ns (attr_at (n ∷ ns) root)),
            λ q h. attr_at-update_in sn loc type n ns q root ∙ rw h refl,
          ))
