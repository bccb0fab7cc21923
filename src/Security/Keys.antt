-- ===== src/Security/Keys.antt =====
-- The keys that the security server gives to users.
use sector_sphere.Base.{◌≡◌, ℕ, suc, ◌+◌, ◌≤◌, ℤ, Text, Option, none, some, List, [], ◌∷◌}
use sector_sphere.Security.{SServer, Query, Answer, answered, granted, serve}

-- Queries of any addresses, and what is answered.
unfoldable pub run : (Text → ℤ × ℕ) → List (Text × Query) → SServer → SServer × List Answer
run inet_pton [] s = (s, [])
run inet_pton ((from, q) ∷ l) s =
    let r = serve inet_pton from q s in
    let rest = run inet_pton l r.0 in (rest.0, elim r.1 [ none ↦ rest.1 | some a ↦ a ∷ rest.1 ])

-- The keys of the users that were let in.
unfoldable pub issued : List Answer → List ℕ
issued [] = []
issued (answered k ∷ l) = issued l
issued (granted k r w e ∷ l) = k ∷ issued l

-- Strictly ascending, from a bound on.
abbrev pub IsAscending : ℕ → List ℕ → Type 0
IsAscending n [] = Unit
IsAscending n (k ∷ l) = (n ≤ k) × IsAscending (suc k) l

-- What one query does to the seed, and the key that it may give.
abbrev IsNext : SServer → SServer × Option Answer → Type 0
IsNext s (s', none) = s'.key_seed ≡ s.key_seed
IsNext s (s', some (answered k)) = (s.key_seed ≤ s'.key_seed) × (s'.key_seed ≤ s.key_seed + 1)
IsNext s (s', some (granted k r w e)) = (k ≡ s.key_seed) × (s'.key_seed ≡ s.key_seed + 1)
