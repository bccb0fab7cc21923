-- ===== src/Index/Saved/RoundTrip.antt =====
-- Index::deserialize of the lines that Index::serialize writes.
use sector_sphere.Base.{
  ℕ, suc, ◌≤◌, ◌<◌, ◌≡◌, ◌⊎◌, refl, ap, ◌∙◌, sym, subst, Text, true, false, none, some, List, [],
  ◌∷◌, ◌++◌, if◌then◌else◌, ◌==◌, ltb, arith, inl, inr, Bool-cases,
}
use mathlib.Core.List.{append_assoc}
use sector_sphere.Address.{addr_key}
use sector_sphere.Index.Tree.{Attr, Directory, nil, entry, put, SNode}
use sector_sphere.Index.Tree.Order.{IsOrdered}
use sector_sphere.Index.Saved.{
  serialize, Cursor, first_dirs, path_for, assign, place, read_lines, deserialize,
}
use sector_sphere.Index.Saved.Lines.{IsKept, line, not_skipped, not_too_long, read_line_back}
use sector_sphere.Index.Saved.Texts.{
  saved_lines, IsWritten, joined_text, serialize-saved_lines, get_lines-joined_text,
  saved_lines-NoFeed,
}
use sector_sphere.Index.Saved.Places.{
  join, join_assoc, join_nil, Under, put_last, IsAt, IsAt_top, IsAt_below, first_dirs_kept,
  IsOrdered-join,
}

-- The loop is at a level from which the level k + 1 can be reached.
record IsReady (k : ℕ) (c : Cursor) : Type 0 where
  j : ℕ
  at_level : c.currlevel ≡ suc j
  at_dir : c.currdir ≡ first_dirs c.dirs j
  deep : k ≤ suc j

path_for-first_dirs :
    (k j : ℕ) (m : Directory) (dirs : ℕ → Text)
    → path_for
        (suc k)
        (record { metadata = m; currdir = first_dirs dirs j; currlevel = suc j; dirs = dirs })
      ≡ first_dirs dirs k
unfolding first_dirs
path_for-first_dirs k j m dirs = elim (Bool-cases (k == j)) [
  | inl e ↦ let f : k ≡ j = ground (arith, e) in rw f (ground (arith))
  | inr e ↦ elim (Bool-cases (k == suc j)) [
    | inl g ↦ let f : k ≡ suc j = ground (arith, g) in rw f (ground (arith))
    | inr g ↦ ground (arith, e, g)
  ]
]

path_ready : (k : ℕ) (c : Cursor) → IsReady k c → path_for (suc k) c ≡ first_dirs c.dirs k
path_ready k c r = rw (r.at_level, r.at_dir) (path_for-first_dirs k r.j c.metadata c.dirs)

not_deeper : (k : ℕ) (c : Cursor) → IsReady k c → ltb (suc c.currlevel) (suc k) ≡ false
not_deeper k c r = ground (arith, r.at_level, r.deep)

set_dir : ℕ → Text → (ℕ → Text) → ℕ → Text
set_dir i n dirs = λ j. if j == i then n else dirs j

-- After a node of the level k + 1.
moved : ℕ → Text → Directory → Cursor → Cursor
unfolding set_dir
moved k n m c = record {
  metadata = m;
  currdir = first_dirs c.dirs k;
  currlevel = suc k;
  dirs = set_dir (suc k) n c.dirs;
}

placed :
    (k : ℕ) (a : Attr) (h : Directory → Directory) (d : Directory) (c : Cursor)
    → IsReady k c
    → suc k < 1024
    → IsAt (first_dirs c.dirs k) h
    → c.metadata ≡ h d
    → place (suc k) a c
      ≡ some (moved k a.name (h (put a.name (record { attr = a; directory = nil }) d)) c)
unfolding place moved set_dir
placed k a h d c r b i e =
    rw
      (
        place,
        not_deeper k c r,
        path_ready k c r,
        e,
        i (assign a) d (put a.name (record { attr = a; directory = nil }) d) refl,
      )
      (ground (arith, b))

run_line :
    (k : ℕ) (a : Attr) (h : Directory → Directory) (d : Directory) (c : Cursor) (lines : List Text)
    → IsKept a
    → IsReady k c
    → suc k < 1024
    → IsAt (first_dirs c.dirs k) h
    → c.metadata ≡ h d
    → read_lines none (line (suc k) a ∷ lines) c
      ≡ read_lines none lines
          (moved k a.name (h (put a.name (record { attr = a; directory = nil }) d)) c)
unfolding read_lines
run_line k a h d c lines w r b i e =
    rw
      (
        read_lines,
        not_skipped (suc k) a b w,
        not_too_long (suc k) a b w,
        read_line_back (suc k) a b w,
        placed k a h d c r b i e,
      )
      refl

-- What the lines of a directory leave: the loop is where it can go on at their level.
record Restored (k : ℕ) (lines more : List Text) (cur : Cursor) (m : Directory) : Type 0 where
  after : Cursor
  runs : read_lines none (lines ++ more) cur ≡ read_lines none more after
  ready : IsReady k after
  same : (i : ℕ) → i ≤ k → after.dirs i ≡ cur.dirs i
  holds : after.metadata ≡ m

moved-dirs :
    (k : ℕ) (n : Text) (m : Directory) (c : Cursor) (i : ℕ)
    → i ≤ k
    → (moved k n m c).dirs i ≡ c.dirs i
unfolding moved set_dir
moved-dirs k n m c i l = ground (arith, l)

moved-IsReady : (k : ℕ) (n : Text) (m : Directory) (c : Cursor) → IsReady (suc k) (moved k n m c)
unfolding moved
moved-IsReady k n m c = record {
  j = k;
  at_level = refl;
  at_dir = sym (first_dirs_kept c.dirs (set_dir (suc k) n c.dirs) k (moved-dirs k n m c));
  deep = omega (arith);
}

moved_path :
    (k : ℕ) (n : Text) (m : Directory) (c : Cursor)
    → first_dirs (moved k n m c).dirs (suc k) ≡ first_dirs c.dirs k ++ n ∷ []
unfolding moved set_dir first_dirs
moved_path k n m c =
    rw (first_dirs_kept c.dirs (set_dir (suc k) n c.dirs) k (moved-dirs k n m c)) (ground (arith))

body_lines :
    (a : Attr) (x : Directory) (level : ℕ)
    → (a.is_dir ≡ true) ⊎ (x ≡ nil)
    → (if a.is_dir then saved_lines x level else []) ≡ saved_lines x level
unfolding saved_lines
body_lines a x level (inl e) = rw e refl
body_lines a x level (inr e) = rw e (ground (arith))

split_lines :
    (a : Attr) (x : Directory) (level : ℕ) (further more : List Text)
    → (a.is_dir ≡ true) ⊎ (x ≡ nil)
    → ((if a.is_dir then saved_lines x level else []) ++ further) ++ more
      ≡ saved_lines x level ++ (further ++ more)
split_lines a x level further more b =
    ap (λ l. (l ++ further) ++ more) (body_lines a x level b)
    ∙ append_assoc (saved_lines x level) further more

weaker : (k : ℕ) (c : Cursor) → IsReady (suc k) c → IsReady k c
weaker k c r = record {
  j = r.j;
  at_level = r.at_level;
  at_dir = r.at_dir;
  deep = omega (arith, r.deep);
}

entered :
    (k : ℕ) (n : Text) (a : Attr) (h : Directory → Directory) (c : Directory) (cur : Cursor)
    (lines : List Text)
    → n ≡ a.name
    → Under n c
    → IsKept a
    → IsReady k cur
    → suc k < 1024
    → IsAt (first_dirs cur.dirs k) h
    → cur.metadata ≡ h c
    → read_lines none (line (suc k) a ∷ lines) cur
      ≡ read_lines none lines (moved k n (h (join c (entry n a nil nil))) cur)
entered k n a h c cur lines named u w r b i e =
    let s : SNode = record { attr = a; directory = nil } in
    run_line k a h c cur lines w r b i e
    ∙ ap (λ z. read_lines none lines (moved k z (h (put z s c)) cur)) (sym named)
    ∙ ap (λ y. read_lines none lines (moved k n (h y) cur)) (put_last n s c u)

below :
    (k : ℕ) (n : Text) (a : Attr) (h : Directory → Directory) (c m : Directory) (cur : Cursor)
    → Under n c
    → IsAt (first_dirs cur.dirs k) h
    → IsAt (first_dirs (moved k n m cur).dirs (suc k)) (λ y. h (join c (entry n a y nil)))
below k n a h c m cur u i =
    rw (moved_path k n m cur) (IsAt_below (first_dirs cur.dirs k) h n a c u i)

restored :
    (d : Directory) (k : ℕ) (h : Directory → Directory) (c : Directory) (more : List Text)
    (cur : Cursor)
    → IsReady k cur
    → IsAt (first_dirs cur.dirs k) h
    → cur.metadata ≡ h c
    → IsOrdered (join c d)
    → IsWritten k d
    → Restored k (saved_lines d (suc k)) more cur (h (join c d))
unfolding saved_lines IsWritten moved join
restored nil k h c more cur r i e o w = record {
  after = cur;
  runs = refl;
  ready = r;
  same = λ j l. refl;
  holds = e ∙ ap h (sym (join_nil c));
}
restored (entry n a x rest) k h c more cur r i e o (named, kept, b, body, deeper, further) =
    let oo = IsOrdered-join n a x c rest o in
    let m = h (join c (entry n a nil nil)) in
    let cur1 = moved k n m cur in
    let sub =
      restored x (suc k) (λ y. h (join c (entry n a y nil))) nil (saved_lines rest (suc k) ++ more)
        cur1 (moved-IsReady k n m cur) (below k n a h c m cur oo.0 i) refl oo.1 deeper in
    let cur2 = sub.after in
    let dirs2 : (j : ℕ) → j ≤ k → cur2.dirs j ≡ cur.dirs j =
      λ j l. sub.same j (omega (arith, l)) ∙ moved-dirs k n m cur j l in
    let next =
      restored rest k h (join c (entry n a x nil)) more cur2 (weaker k cur2 sub.ready)
        (subst (λ p. IsAt p h) (sym (first_dirs_kept cur.dirs cur2.dirs k dirs2)) i) (sub.holds)
        (subst IsOrdered (sym (join_assoc c (entry n a x nil) rest)) o) further in
    record {
      after = next.after;
      runs =
          entered k n a h c cur
            (((if a.is_dir then saved_lines x (suc (suc k)) else []) ++ saved_lines rest (suc k))
              ++ more)
            named oo.0 kept r b i e
          ∙ ap (λ l. read_lines none l cur1)
              (split_lines a x (suc (suc k)) (saved_lines rest (suc k)) more body)
          ∙ sub.runs
          ∙ next.runs;
      ready = next.ready;
      same = λ j l. next.same j l ∙ dirs2 j l;
      holds = next.holds ∙ ap h (join_assoc c (entry n a x nil) rest);
    }

at_start : (dirs : ℕ → Text) → IsAt (first_dirs dirs 0) (λ d. d)
unfolding first_dirs
at_start dirs = IsAt_top

-- The text that serialize writes for a directory is made by deserialize, without an address, into that directory
-- again, if: its names stand in the map's order, each is the name of its node, at most 1023 levels lie one below
-- another, a node that is no directory has no entries, and each node has no checksum, its locations in order, 64
-- bit times and sizes, addresses without commas, 16 bit ports and a text of fewer than 4083 characters, which is shorter
-- than the name and 64 bytes and has no line feed.
pub deserialize-serialize_index :
    (d : Directory)
    → IsOrdered d
    → IsWritten 0 d
    → (text : Text) × (serialize d 1 ≡ some text) × (deserialize none text nil ≡ some d)
unfolding deserialize join first_dirs read_lines
deserialize-serialize_index d o w =
    let start : Cursor = record { metadata = nil; currdir = []; currlevel = 1; dirs = λ i. [] } in
    let r =
      restored d 0 (λ c. c) nil ([] ∷ []) start
        (record { j = 0; at_level = refl; at_dir = refl; deep = omega (arith) })
        (at_start start.dirs) refl o w in
    let split = get_lines-joined_text (saved_lines d 1) (saved_lines-NoFeed 0 d w) in
    (
      joined_text (saved_lines d 1),
      serialize-saved_lines 0 d w,
      rw (deserialize, split, r.runs, r.holds) (ground (arith)),
    )
