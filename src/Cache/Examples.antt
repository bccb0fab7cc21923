-- ===== src/Cache/Examples.antt =====
-- The caches at concrete inputs.
use sector_sphere.Base.{◌≡◌, codes, [], ◌∷◌, pos, false, true}
use sector_sphere.Base.Keys.{text_eq}
use sector_sphere.Index.Tree.{Attr}
use sector_sphere.Cache.{StatRec, CacheBlock, ReadCache, stat}
use sector_sphere.Cache.Stat.{opens, reports, closes, run, remembered, stat-run}

abbrev blank : StatRec
blank = record { count = 9; change = true; time_stamp = 9; size = 9 }

abbrev attr : Attr
attr = record {
  name = codes "f";
  is_dir = false;
  location = [];
  time_stamp = 1;
  size = 2;
  checksum = [];
}

-- Opened twice and closed once, with a report in between.
stat-run_example :
    stat (codes "/f") attr (
      run blank
        ((codes "/f", opens)
          ∷ (codes "/f", reports 5 6)
          ∷ (codes "/f", opens)
          ∷ (codes "/f", closes)
          ∷ [])
        [])
    ≡ (record attr { time_stamp = 5; size = 6 }, pos 1)
unfolding remembered text_eq
stat-run_example = stat-run blank (codes "/f") attr (
    (codes "/f", opens)
    ∷ (codes "/f", reports 5 6)
    ∷ (codes "/f", opens)
    ∷ (codes "/f", closes)
    ∷ [])

abbrev block : CacheBlock
block = record {
  file_name = codes "/f";
  offset = 10;
  size = 3;
  create_time = 0;
  last_access_time = 0;
  block = 7 ∷ 8 ∷ 9 ∷ [];
}

abbrev cache : ReadCache
cache = record {
  cache_blocks = (codes "/f", block ∷ []) ∷ [];
  cache_size = 3;
  max_cache_size = 0;
  max_cache_time = 10000000;
}
