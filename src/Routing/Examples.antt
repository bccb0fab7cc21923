-- ===== src/Routing/Examples.antt =====
-- Three masters, of which one has left.
use sector_sphere.Base.{codes, Text, List, [], ◌∷◌}
use sector_sphere.Address.{Address}
use sector_sphere.Routing.{init}
use sector_sphere.Routing.Table.{Call, inserts, removes, run, run-IsValid, IsValid}

abbrev host : Text → Address
host name = record { ip = name; port = 5000 }

abbrev calls : List Call
calls =
    inserts 7 (host (codes "a"))
    ∷ inserts 9 (host (codes "b"))
    ∷ inserts 3 (host (codes "c"))
    ∷ removes 9
    ∷ []

run-IsValid_example : IsValid (run calls init)
run-IsValid_example = run-IsValid calls
