-- ===== src/Meta.antt =====
-- common/meta.h and common/meta.cpp: the names of files, and the locks on opened files.
-- A path is its bytes, none of which is zero.
pub mod Paths
pub mod Locks
mod Examples
use sector_sphere.Base.{
  ℕ, zero, suc, ◌+◌, ◌%◌, ◌/◌, ℤ, pos, negsuc, Text, Map, Set, Bool, true, false, Option, none,
  some, List, [], ◌∷◌, ◌++◌, ◌&&◌, length, if◌then◌else◌, ◌==◌, ltb, is_empty,
}
use sector_sphere.Base.Maps
use sector_sphere.Base.Sets
use sector_sphere.Base.Keys.{nat_key, text_key}

abbrev pub slash : ℕ
slash = b'/'

-- The token that is being read, and the names before it.
pub record Scan : Type 0 where
  pub token : Text
  pub result : List Text

abbrev pub end_token : Scan → Scan
end_token s =
    if ltb 0 (length s.token) then record { token = []; result = s.result ++ s.token ∷ [] } else s

unfoldable pub parse_step : ℕ → Scan → Scan
parse_step c s = if c == slash then end_token s else record s { token = s.token ++ c ∷ [] }

unfoldable pub parse_loop : Text → Scan → Scan
parse_loop [] s = s
parse_loop (c ∷ path) s = parse_loop path (parse_step c s)

-- Metadata::parsePath; the number that it returns is the length.
unfoldable pub parse_path : Text → List Text
unfolding parse_loop parse_step
parse_path path = (end_token (parse_loop path (record { token = []; result = [] }))).result

pub record Revision : Type 0 where
  pub newpath : Text
  pub after_slash : Bool

unfoldable pub revise_step : ℕ → Revision → Revision
revise_step c r =
    if c == slash
    then record {
      newpath = if r.after_slash then r.newpath else r.newpath ++ slash ∷ [];
      after_slash = true;
    }
    else record { newpath = r.newpath ++ c ∷ []; after_slash = false }

unfoldable pub revise_loop : Text → Revision → Revision
revise_loop [] r = r
revise_loop (c ∷ path) r = revise_loop path (revise_step c r)

unfoldable pub drop_last : Text → Text
drop_last [] = []
drop_last (c ∷ []) = []
drop_last (c ∷ d ∷ s) = c ∷ drop_last (d ∷ s)

unfoldable pub close_revision : Revision → Text
close_revision r =
    if ltb 1 (length r.newpath) && r.after_slash then drop_last r.newpath else r.newpath

-- Metadata::revisePath.
unfoldable pub revise_path : Text → Text
unfolding revise_loop revise_step close_revision drop_last
revise_path path =
    close_revision (revise_loop path (record { newpath = slash ∷ []; after_slash = true }))

pub record LockSet : Type 0 where
  pub read_lock : Set ℕ
  pub write_lock : Set ℕ

abbrev pub LockTable : Type 0
LockTable = Map Text LockSet

abbrev pub or_unlocked : Option LockSet → LockSet
or_unlocked none = record { read_lock = []; write_lock = [] }
or_unlocked (some l) = l

-- SF_MODE::READ is bit 0 and SF_MODE::WRITE is bit 1.
abbrev pub reads : ℕ → Bool
reads mode = mode % 2 == 1

abbrev pub writes : ℕ → Bool
writes mode = (mode / 2) % 2 == 1

-- m_mLock[path]
unfoldable pub lock_of : Text → LockTable → LockSet
lock_of path m = or_unlocked (Maps.find path m)

abbrev pub with_reader : ℕ → ℕ → LockSet → LockSet
with_reader user mode l =
    if reads mode then record l { read_lock = Sets.add user l.read_lock } else l

unfoldable pub lock_read : Text → ℕ → ℕ → LockTable → LockTable
lock_read path user mode m =
    if reads mode then Maps.put path (with_reader user mode (lock_of path m)) m else m

unfoldable pub lock_write : Text → ℕ → LockTable → LockTable
lock_write path user m =
    let l = lock_of path m in
    let l' : LockSet = record l { write_lock = Sets.add user l.write_lock } in Maps.put path l' m

unfoldable pub lock : Text → ℕ → ℕ → LockTable → LockTable × ℤ
unfolding lock_read lock_write
lock path user mode m =
    if writes mode
    then if is_empty (lock_of path m).write_lock
      then (lock_read path user mode (lock_write path user m), pos 0)
      else (Maps.put path (lock_of path m) m, negsuc 0)
    else (lock_read path user mode m, pos 0)

abbrev pub unlocked : ℕ → ℕ → LockSet → LockSet
unlocked user mode l = record {
  read_lock = if reads mode then Sets.del user l.read_lock else l.read_lock;
  write_lock = if writes mode then Sets.del user l.write_lock else l.write_lock;
}

abbrev pub is_unlocked : LockSet → Bool
is_unlocked l = is_empty l.read_lock && is_empty l.write_lock

unfoldable pub unlock : Text → ℕ → ℕ → LockTable → LockTable × ℤ
unlock path user mode m = elim (Maps.find path m) [
  | none ↦ (m, negsuc 0)
  | some l ↦
      let l' = unlocked user mode l in
      (if is_unlocked l' then Maps.erase path m else Maps.put path l' m, pos 0)
]
