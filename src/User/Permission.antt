-- ===== src/User/Permission.antt =====
-- User::match against the names of directories.
use sector_sphere.Base.{
  ℕ, ◌/◌, ◌%◌, ◌≡◌, refl, Text, Bool, false, not, none, some, List, [], ◌∷◌, ◌&&◌, ◌||◌, ◌++◌, map,
  All, arith, Option-cases, inl, inr, is_empty, ◌==◌,
}
use sector_sphere.Base.Keys.{text_eq}
use sector_sphere.Meta.{slash, parse_path, revise_path}
use sector_sphere.Meta.Paths.{join, render, IsName, NoSlash, revise_path-render, parse_path-IsName}
use sector_sphere.Index.Walk.{is_prefix}
use sector_sphere.User.{User, after, starts_slash, covers, covered, match}

-- What follows at the front ends a name.
ends : Text → Text → Bool
ends i path = elim (after i path) [ none ↦ false | some rest ↦ is_empty rest || starts_slash rest ]

ends-join :
    (n q : Text) (ns qs : List Text)
    → NoSlash n
    → NoSlash q
    → ends (n ++ join ns) (q ++ join qs) ≡ (text_eq n q && ends (join ns) (join qs))
unfolding ends after text_eq
ends-join [] [] ns qs f g = refl
ends-join [] (d ∷ q) [] qs f g = ground (arith, g.0)
ends-join [] (d ∷ q) (m ∷ ns) qs f g = ground (arith, g.0)
ends-join (c ∷ n) [] ns [] f g = refl
ends-join (c ∷ n) [] ns (m ∷ qs) f g = ground (arith, f.0)
ends-join (c ∷ n) (d ∷ q) ns qs f g = ground (arith, ends-join n q ns qs f.1 g.1)

join-is_prefix :
    (ns qs : List Text) → All IsName ns → All IsName qs → ends (join ns) (join qs) ≡ is_prefix ns qs
unfolding ends after is_prefix
join-is_prefix [] [] f g = refl
join-is_prefix [] (q ∷ qs) f g = refl
join-is_prefix (n ∷ ns) [] f g = refl
join-is_prefix (n ∷ ns) (q ∷ qs) f g =
    ground (arith, ends-join n q ns qs f.0.1 g.0.1, join-is_prefix ns qs f.1 g.1)

covers-ends : (i path : Text) → text_eq i (slash ∷ []) ≡ false → covers i path ≡ ends i path
unfolding covers ends
covers-ends i path h = elim (Option-cases (after i path)) [
  | inl e ↦ rw (e, covers, ends)
  | inr (rest, e) ↦ rw (e, covers, ends) (ground arith)
]

covers-render :
    (ns qs : List Text)
    → All IsName ns
    → All IsName qs
    → covers (render ns) (render qs) ≡ is_prefix ns qs
unfolding covers is_prefix after text_eq
covers-render [] [] f g = refl
covers-render [] (q ∷ qs) f g = ground arith
covers-render ([] ∷ ns) qs f g = elim (f.0.0 refl) [ ]
covers-render ((c ∷ n) ∷ ns) [] f g = refl
covers-render ((c ∷ n) ∷ ns) (q ∷ qs) f g = ground (
  arith,
  join-is_prefix ((c ∷ n) ∷ ns) (q ∷ qs) f g,
  covers-ends (join ((c ∷ n) ∷ ns)) (join (q ∷ qs)),
)

-- Whether one of some directories is the path or lies above it.
unfoldable pub granted : List (List Text) → List Text → Bool
granted [] qs = false
granted (ns ∷ dirs) qs = is_prefix ns qs || granted dirs qs

covered-granted :
    (dirs : List (List Text)) (qs : List Text)
    → All (All IsName) dirs
    → All IsName qs
    → covered (map render dirs) (render qs) ≡ granted dirs qs
unfolding covered granted
covered-granted [] qs f g = refl
covered-granted (ns ∷ dirs) qs f g =
    ground (arith, covers-render ns qs f.0 g, covered-granted dirs qs f.1 g)

match_flags :
    (path : Text) (rwx : ℕ) (user : User)
    → match path rwx user ≡ (
        (not (rwx % 2 == 1) || covered user.read_list path)
        && (not (rwx / 2 % 2 == 1) || covered user.write_list path))
unfolding match
match_flags path rwx user = ground arith

-- User::match with a path as Metadata::revisePath leaves it holds exactly if, where the read flag is
-- asked for, a readable directory is the path or above it, name by name, and where the write flag
-- is asked for, a writable one is. The lists hold paths of names.
pub match-granted :
    (path : Text) (rwx : ℕ) (user : User) (reads writes : List (List Text))
    → All (All IsName) reads
    → All (All IsName) writes
    → user.read_list ≡ map render reads
    → user.write_list ≡ map render writes
    → match (revise_path path) rwx user ≡ (
        (not (rwx % 2 == 1) || granted reads (parse_path path))
        && (not (rwx / 2 % 2 == 1) || granted writes (parse_path path)))
match-granted path rwx user reads writes f g h k =
    let n = parse_path-IsName path in
    rw (match_flags (revise_path path) rwx user, h, k, revise_path-render path)
      (ground (
        arith,
        covered-granted reads (parse_path path) f n,
        covered-granted writes (parse_path path) g n,
      ))
