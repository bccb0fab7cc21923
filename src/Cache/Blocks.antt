-- ===== src/Cache/Blocks.antt =====
-- ReadCache::read: which requests are served from the blocks of a file, and what becomes of the size.
use sector_sphere.Base.{
  ℕ, ◌+◌, ◌-◌, ◌^◌, ◌<◌, ◌≡◌, refl, subst, Text, true, not, Option, none, some, List, [], ◌∷◌,
  if◌then◌else◌, ◌==◌, leb, arith, All, Option-cases, inl, inr,
}
use sector_sphere.Base.Maps
use sector_sphere.Base.Words.{add64, slt64, add64_small, slt64_small}
use sector_sphere.Base.Keys.{text_key}
use sector_sphere.Cache.{CacheBlock, ReadCache, blocks_of, copy, read_loop, read}

-- The first block that starts at an offset or behind it.
unfoldable pub first_from : ℕ → List CacheBlock → Option CacheBlock
first_from offset [] = none
first_from offset (i ∷ l) = if leb offset i.offset then some i else first_from offset l

-- What such a block makes of a request: its first bytes if it starts at the offset, and else `none`,
-- a read in front of the block or behind it. Without such a block there are no bytes.
abbrev pub served : ℕ → ℕ → Option CacheBlock → Option (Option (List ℕ))
served offset size none = some none
served offset size (some i) =
    if i.offset == offset
    then elim (copy 0 size i.block) [ none ↦ none | some bytes ↦ some (some bytes) ]
    else none

abbrev pub bytes_of {ℓ} : {A : Type ℓ} → Option (A × Option (List ℕ)) → Option (Option (List ℕ))
bytes_of none = none
bytes_of (some r) = some r.1

meets_request :
    (i : CacheBlock) (offset size : ℕ)
    → i.offset + size < 2 ^ 63
    → offset + size < 2 ^ 63
    → not (slt64 (add64 i.offset size) (add64 offset size)) ≡ leb offset i.offset
meets_request i offset size h k = ground (
  arith,
  add64_small i.offset size h,
  add64_small offset size k,
  slt64_small (i.offset + size) (offset + size) h k,
)

read_loop_bytes :
    (now offset size : ℕ) (l : List CacheBlock)
    → All (λ i. i.offset + size < 2 ^ 63) l
    → offset + size < 2 ^ 63
    → bytes_of (read_loop now offset size l) ≡ served offset size (first_from offset l)
unfolding read_loop first_from
read_loop_bytes now offset size [] a h = refl
read_loop_bytes now offset size (i ∷ l) a h =
    let zero_start : (i.offset == offset) ≡ true → offset - i.offset ≡ 0 = λ e. ground arith in
    ground (
      arith,
      zero_start,
      meets_request i offset size a.0 h,
      read_loop_bytes now offset size l a.1 h,
    )

-- If neither the request nor a block with its size reaches 2^63, ReadCache::read gives exactly the first
-- bytes of the first block of the file that starts at the offset or behind it, and only if that block
-- starts at the offset and has as many bytes; if it starts behind the offset, or is too short,
-- memory outside the block is read. Without such a block, as for a request that starts inside one,
-- nothing is found.
pub read_cases :
    (now : ℕ) (path : Text) (offset size : ℕ) (c : ReadCache)
    → All (λ i. i.offset + size < 2 ^ 63) (blocks_of (Maps.find path c.cache_blocks))
    → offset + size < 2 ^ 63
    → bytes_of (read now path offset size c)
      ≡ served offset size (first_from offset (blocks_of (Maps.find path c.cache_blocks)))
unfolding read
read_cases now path offset size c a h = elim (Option-cases (Maps.find path c.cache_blocks)) [
  | inl e ↦ rw (e, read) (unfold first_from in refl)
  | inr (l, e) ↦
      rw (e, read)
        (ground (
          arith,
          read_loop_bytes now offset size l
              (subst (λ x. All (λ i. i.offset + size < 2 ^ 63) (blocks_of x)) e a) h,
        ))
]
