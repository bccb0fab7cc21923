-- ===== src/Cache.antt =====
-- client/fscache.h and client/fscache.cpp: what a client remembers of the files that it has open
-- (class StatCache) and of the blocks that it has read (class ReadCache).
pub mod Stat
pub mod Blocks
pub mod Growth
mod Examples
use sector_sphere.Base.{
  ℕ, zero, suc, ◌+◌, ◌-◌, ◌≤◌, ℤ, pos, negsuc, Text, Map, Bool, true, false, not, Option, none,
  some, List, [], ◌∷◌, ◌++◌, length, if◌then◌else◌, ◌==◌, leb, add64, sub64, slt64,
}
use sector_sphere.Base.Maps
use sector_sphere.Base.Keys.{text_key}
use sector_sphere.Index.Tree.{Attr}

pub record StatRec : Type 0 where
  pub count : ℕ
  pub change : Bool
  pub time_stamp : ℕ
  pub size : ℕ

abbrev pub StatCache : Type 0
StatCache = Map Text StatRec

-- The time and the size of a new record are not set: they are what `blank` holds.
unfoldable pub insert : StatRec → Text → StatCache → StatCache
insert blank path c = elim (Maps.find path c) [
  | none ↦ Maps.put path (record blank { count = 1; change = false }) c
  | some s ↦ Maps.put path (record s { count = suc s.count }) c
]

unfoldable pub update : Text → ℕ → ℕ → StatCache → StatCache
update path ts size c = elim (Maps.find path c) [
  | none ↦ c
  | some s ↦ Maps.put path (record s { time_stamp = ts; size = size; change = true }) c
]

unfoldable pub stat : Text → Attr → StatCache → Attr × ℤ
stat path attr c = elim (Maps.find path c) [
  | none ↦ (attr, negsuc 0)
  | some s ↦
      if not s.change
      then (attr, pos 0)
      else (record attr { time_stamp = s.time_stamp; size = s.size }, pos 1)
]

-- A count is never 0 in the map.
unfoldable pub remove : Text → StatCache → StatCache
remove path c = elim (Maps.find path c) [
  | none ↦ c
  | some s ↦
      let s' : StatRec = record s { count = s.count - 1 } in
      if s'.count == 0 then Maps.erase path c else Maps.put path s' c
]

-- The bytes of a block are those that m_pcBlock points to.
pub record CacheBlock : Type 0 where
  pub file_name : Text
  pub offset : ℕ
  pub size : ℕ
  pub create_time : ℕ
  pub last_access_time : ℕ
  pub block : List ℕ

pub record ReadCache : Type 0 where
  pub cache_blocks : Map Text (List CacheBlock)
  pub cache_size : ℕ
  pub max_cache_size : ℕ
  pub max_cache_time : ℕ

abbrev pub blocks_of : Option (List CacheBlock) → List CacheBlock
blocks_of none = []
blocks_of (some l) = l

unfoldable pub fresh_blocks : ℕ → ℕ → List CacheBlock → List CacheBlock
fresh_blocks now max_time [] = []
fresh_blocks now max_time (j ∷ l) =
    let rest = fresh_blocks now max_time l in
    if slt64 max_time (sub64 now j.last_access_time) then rest else j ∷ rest

unfoldable pub shrink_all : ℕ → ℕ → Map Text (List CacheBlock) → Map Text (List CacheBlock)
unfolding fresh_blocks
shrink_all now max_time [] = []
shrink_all now max_time ((path, l) ∷ m) =
    (path, fresh_blocks now max_time l) ∷ shrink_all now max_time m

unfoldable pub shrink : ℕ → ReadCache → ReadCache
unfolding shrink_all
shrink now c =
    if slt64 c.cache_size c.max_cache_size
    then c
    else record c { cache_blocks = shrink_all now c.max_cache_time c.cache_blocks }

-- The first block of a path stands alone in its list, and each later one behind the others.
unfoldable pub insert_block : ℕ → List ℕ → Text → ℕ → ℕ → ReadCache → ReadCache
unfolding shrink
insert_block now block path offset size c =
    let cb : CacheBlock = record {
      file_name = path;
      offset = offset;
      size = size;
      create_time = now;
      last_access_time = now;
      block = block;
    } in
    let l = blocks_of (Maps.find path c.cache_blocks) in
    shrink now (record c {
      cache_blocks = Maps.put path (l ++ cb ∷ []) c.cache_blocks;
      cache_size = add64 c.cache_size size;
    })

unfoldable pub remove_blocks : Text → ReadCache → ReadCache
remove_blocks path c = record c { cache_blocks = Maps.erase path c.cache_blocks }

-- memcpy from a position of a block; `none` where it reads behind the block.
unfoldable pub copy : ℕ → ℕ → List ℕ → Option (List ℕ)
copy zero zero block = some []
copy zero (suc n) [] = none
copy zero (suc n) (b ∷ block) = elim (copy zero n block) [ none ↦ none | some l ↦ some (b ∷ l) ]
copy (suc k) n [] = none
copy (suc k) n (b ∷ block) = copy k n block

-- memcpy from m_pcBlock + offset - m_llOffset; `none` where that lies outside the block.
unfoldable pub copy_at : ℕ → ℕ → CacheBlock → Option (List ℕ)
copy_at offset size i = if leb i.offset offset then copy (offset - i.offset) size i.block else none

-- The loop over the blocks: `none` for a read outside a block, else the blocks, and the bytes if one
-- of the blocks is used.
unfoldable pub read_loop : ℕ → ℕ → ℕ → List CacheBlock → Option (List CacheBlock × Option (List ℕ))
unfolding copy_at
read_loop now offset size [] = some ([], none)
read_loop now offset size (i ∷ l) =
    let rest = read_loop now offset size l in
    if not (slt64 (add64 i.offset size) (add64 offset size))
    then elim (copy_at offset size i) [
      | none ↦ none
      | some bytes ↦ some (record i { last_access_time = now } ∷ l, some bytes)
    ]
    else elim rest [ none ↦ none | some r ↦ some (i ∷ r.0, r.1) ]

-- The number that is returned is the size, or 0 if there are no bytes.
unfoldable pub read : ℕ → Text → ℕ → ℕ → ReadCache → Option (ReadCache × Option (List ℕ))
unfolding read_loop
read now path offset size c = elim (Maps.find path c.cache_blocks) [
  | none ↦ some (c, none)
  | some l ↦ elim (read_loop now offset size l) [
    | none ↦ none
    | some r ↦ some (record c { cache_blocks = Maps.put path r.0 c.cache_blocks }, r.1)
  ]
]
