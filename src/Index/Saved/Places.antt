-- ===== src/Index/Saved/Places.antt =====
-- Where the loop of Index::deserialize puts a node.
use sector_sphere.Base.{
  ℕ, zero, suc, ◌≤◌, ◌≡◌, refl, ap, Text, true, Option, some, List, [], ◌∷◌, ◌++◌, arith, inl, inr,
  Option-cases,
}
use sector_sphere.Base.Keys.{text_lt, text_eq_iff, text_lt_irrefl, text_lt_trans}
use sector_sphere.Index.Tree.{Attr, Directory, nil, entry, SNode, find, put}
use sector_sphere.Index.Tree.Order.{IsOrdered, Above}
use sector_sphere.Index.Saved.{below_at, update_at, first_dirs}

-- A directory, and behind it the entries of another.
unfoldable pub join : Directory → Directory → Directory
join nil e = e
join (entry n a d rest) e = entry n a d (join rest e)

pub join_assoc : (c d e : Directory) → join (join c d) e ≡ join c (join d e)
unfolding join
join_assoc nil d e = refl
join_assoc (entry n a x c) d e = ap (entry n a x) (join_assoc c d e)

pub join_nil : (c : Directory) → join c nil ≡ c
unfolding join
join_nil nil = refl
join_nil (entry n a x c) = ap (entry n a x) (join_nil c)

-- All the names of a directory stand before a name.
abbrev pub Under : Text → Directory → Type 0
Under n nil = Unit
Under n (entry m a d rest) = (text_lt m n ≡ true) × Under n rest

pub put_last :
    (n : Text) (s : SNode) (c : Directory)
    → Under n c
    → put n s c ≡ join c (entry n s.attr s.directory nil)
unfolding put join
put_last n s nil u = refl
put_last n s (entry m a d c) u =
    ground (arith, u.0, put_last n s c u.1, text_eq_iff n m, text_lt_irrefl n, text_lt_trans n m n)

find_last :
    (n : Text) (a : Attr) (x : Directory) (c : Directory)
    → Under n c
    → find n (join c (entry n a x nil)) ≡ some (record { attr = a; directory = x })
unfolding find join
find_last n a x nil u = ground (arith, text_eq_iff n n)
find_last n a x (entry m b d c) u =
    ground (arith, u.0, find_last n a x c u.1, text_eq_iff n m, text_lt_irrefl n)

put_over :
    (n : Text) (a : Attr) (x y : Directory) (c : Directory)
    → Under n c
    → put n (record { attr = a; directory = y }) (join c (entry n a x nil))
      ≡ join c (entry n a y nil)
unfolding put join
put_over n a x y nil u = ground (arith, text_eq_iff n n)
put_over n a x y (entry m b d c) u =
    ground
      (arith, u.0, put_over n a x y c u.1, text_eq_iff n m, text_lt_irrefl n, text_lt_trans n m n)

update_at-append :
    (p : List Text) (n : Text) (f : Directory → Option Directory) (d : Directory)
    → update_at (p ++ n ∷ []) f d ≡ update_at p (below_at n f) d
unfolding update_at below_at
update_at-append [] n f d = refl
update_at-append (m ∷ p) n f d = elim (Option-cases (find m d)) [
  | inl e ↦ rw (below_at, e) refl
  | inr (s, e) ↦ rw (below_at, e, update_at-append p n f s.directory) refl
]

-- The directory at a path is a hole of the whole.
abbrev pub IsAt : List Text → (Directory → Directory) → Type 0
IsAt p k =
    (f : Directory → Option Directory) (c d : Directory)
    → f c ≡ some d
    → update_at p f (k c) ≡ some (k d)

pub IsAt_top : IsAt [] (λ c. c)
unfolding update_at
IsAt_top f c d h = h

-- The hole below the last entry.
pub IsAt_below :
    (p : List Text) (k : Directory → Directory) (n : Text) (a : Attr) (c : Directory)
    → Under n c
    → IsAt p k
    → IsAt (p ++ n ∷ []) (λ x. k (join c (entry n a x nil)))
unfolding below_at
IsAt_below p k n a c u h f x y e = rw (update_at-append p n f (k (join c (entry n a x nil)))) (
    h (below_at n f) (join c (entry n a x nil)) (join c (entry n a y nil))
      (rw (below_at, find_last n a x c u, e, put_over n a x y c u) refl))

pub first_dirs_kept :
    (dirs dirs' : ℕ → Text) (k : ℕ)
    → ((i : ℕ) → i ≤ k → dirs' i ≡ dirs i)
    → first_dirs dirs' k ≡ first_dirs dirs k
unfolding first_dirs
first_dirs_kept dirs dirs' zero h = refl
first_dirs_kept dirs dirs' (suc k) h =
    rw (first_dirs_kept dirs dirs' k (λ i l. h i (omega (arith, l))), h (suc k) (omega (arith)))
      refl

Under-Above :
    (n m : Text) (a : Attr) (x c rest : Directory)
    → Above m (join c (entry n a x rest))
    → text_lt m n ≡ true
unfolding join
Under-Above n m a x nil rest h = h.0
Under-Above n m a x (entry l b y c) rest h = Under-Above n m a x c rest h.1

pub IsOrdered-join :
    (n : Text) (a : Attr) (x c rest : Directory)
    → IsOrdered (join c (entry n a x rest))
    → Under n c × IsOrdered x
unfolding join
IsOrdered-join n a x nil rest o = (tt, o.1)
IsOrdered-join n a x (entry l b y c) rest o =
    let r = IsOrdered-join n a x c rest o.2 in ((Under-Above n l a x c rest o.0, r.0), r.1)
