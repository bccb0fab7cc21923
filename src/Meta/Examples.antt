-- ===== src/Meta/Examples.antt =====
-- Paths and locks at concrete inputs.
use sector_sphere.Base.{◌≡◌, ◌↔◌, refl, codes, List, [], ◌∷◌, arith}
use sector_sphere.Base.Maps
use sector_sphere.Meta.{LockTable, parse_path, revise_path, lock_of}
use sector_sphere.Meta.Paths.{render, revise_path-render, revise_path_iff}
use sector_sphere.Meta.Locks.{IsExclusive, Request, locks, unlocks, serve, serve-IsExclusive}

messy : revise_path (codes "a//b/") ≡ codes "/a/b"
unfolding revise_path
messy = refl

revise_path-render_example : revise_path (codes "a//b/") ≡ render (parse_path (codes "a//b/"))
revise_path-render_example = revise_path-render (codes "a//b/")

revise_path_iff_example :
    (revise_path (codes "a//b/") ≡ revise_path (codes "/a/b"))
    ↔ (parse_path (codes "a//b/") ≡ parse_path (codes "/a/b"))
revise_path_iff_example = revise_path_iff (codes "a//b/") (codes "/a/b")

-- User 1 writes "/a".
abbrev held : LockTable
held = (codes "/a", record { read_lock = []; write_lock = 1 ∷ [] }) ∷ []

abbrev requests : List Request
requests = locks (codes "/b") 3 3 ∷ locks (codes "/b") 4 2 ∷ unlocks (codes "/a") 1 2 ∷ []

held-IsExclusive : IsExclusive held
unfolding lock_of Maps.find
held-IsExclusive path = ground arith

serve-IsExclusive_example : IsExclusive (serve requests held)
serve-IsExclusive_example = serve-IsExclusive requests held held-IsExclusive
