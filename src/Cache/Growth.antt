-- ===== src/Cache/Growth.antt =====
-- The size that ReadCache keeps of itself.
use sector_sphere.Base.{
  ℕ, ◌≡◌, refl, ◌∙◌, ap, Text, Option, none, some, List, [], ◌∷◌, arith, Option-cases, inl, inr,
}
use sector_sphere.Base.Words.{add64}
use sector_sphere.Base.Maps
use sector_sphere.Base.Keys.{text_key}
use sector_sphere.Cache.{ReadCache, shrink, insert_block, remove_blocks, read, read_loop}

pub data Call : Type 0 where
  inserts : ℕ → List ℕ → Text → ℕ → ℕ → Call
  removes : Text → Call
  reads : ℕ → Text → ℕ → ℕ → Call

abbrev pub or_same : ReadCache → Option (ReadCache × Option (List ℕ)) → ReadCache
or_same c none = c
or_same c (some r) = r.0

unfoldable pub apply : Call → ReadCache → ReadCache
apply (inserts now block path offset size) c = insert_block now block path offset size c
apply (removes path) c = remove_blocks path c
apply (reads now path offset size) c = or_same c (read now path offset size c)

unfoldable pub run : List Call → ReadCache → ReadCache
unfolding apply
run [] c = c
run (call ∷ calls) c = run calls (apply call c)

-- A size with those of all the blocks that were ever inserted.
unfoldable pub inserted : List Call → ℕ → ℕ
inserted [] size = size
inserted (inserts now block path offset n ∷ calls) size = inserted calls (add64 size n)
inserted (removes path ∷ calls) size = inserted calls size
inserted (reads now path offset n ∷ calls) size = inserted calls size

shrink_size : (now : ℕ) (c : ReadCache) → (shrink now c).cache_size ≡ c.cache_size
unfolding shrink
shrink_size now c = ground arith

read_size :
    (now : ℕ) (path : Text) (offset size : ℕ) (c : ReadCache)
    → (or_same c (read now path offset size c)).cache_size ≡ c.cache_size
unfolding read
read_size now path offset size c = elim (Option-cases (Maps.find path c.cache_blocks)) [
  | inl e ↦ rw (e, read) refl
  | inr (l, e) ↦ elim (Option-cases (read_loop now offset size l)) [
    | inl f ↦ rw (e, f, read) refl
    | inr (r, f) ↦ rw (e, f, read) refl
  ]
]

-- Whatever blocks are removed or dropped for their age, m_llCacheSize is the size at first with those
-- of all the blocks that were ever inserted: nothing is taken off again.
pub run_size :
    (calls : List Call) (c : ReadCache) → (run calls c).cache_size ≡ inserted calls c.cache_size
unfolding run inserted apply insert_block remove_blocks
run_size [] c = refl
run_size (inserts now block path offset n ∷ calls) c =
    run_size calls (insert_block now block path offset n c)
    ∙ ap (inserted calls) (shrink_size now _)
run_size (removes path ∷ calls) c = run_size calls (remove_blocks path c)
run_size (reads now path offset n ∷ calls) c =
    run_size calls (or_same c (read now path offset n c))
    ∙ ap (inserted calls) (read_size now path offset n c)
