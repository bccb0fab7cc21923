-- ===== src/Meta/Locks.antt =====
-- Metadata::lock and Metadata::unlock: one writer for each path.
use sector_sphere.Base.{
  ℕ, ◌≡◌, refl, Text, pos, negsuc, Set, true, false, not, ◌&&◌, none, List, [], ◌∷◌, arith,
  if◌then◌else◌, is_empty, inl, inr, length, ◌≤◌, Option-cases,
}
use sector_sphere.Base.Maps
use sector_sphere.Base.Maps.{find-put, find-erase}
use sector_sphere.Base.Sets
use sector_sphere.Base.Sets.{del-add_absent}
use sector_sphere.Base.Keys.{nat_key, text_key, text_eq, text_eq_iff}
use sector_sphere.Meta.{
  LockSet, LockTable, or_unlocked, writes, lock_of, lock_read, lock_write, lock, unlocked,
  is_unlocked, unlock, with_reader,
}

-- What a granted request leaves of the locks of its path.
abbrev pub granted : ℕ → ℕ → LockSet → LockSet
granted user mode l =
    with_reader user mode
      (record l { write_lock = if writes mode then user ∷ [] else l.write_lock })

lock_of-put :
    (path q : Text) (l : LockSet) (m : LockTable)
    → lock_of q (Maps.put path l m) ≡ (if text_eq path q then l else lock_of q m)
unfolding lock_of
lock_of-put path q l m = ground (arith, find-put path q l m)

lock_of-lock_read :
    (path q : Text) (user mode : ℕ) (m : LockTable)
    → lock_of q (lock_read path user mode m)
      ≡ (if text_eq path q then with_reader user mode (lock_of path m) else lock_of q m)
unfolding lock_read
lock_of-lock_read path q user mode m =
    ground
      (arith, lock_of-put path q (with_reader user mode (lock_of path m)) m, text_eq_iff path q)

lock_of-lock_write :
    (path q : Text) (user : ℕ) (m : LockTable)
    → (lock_of path m).write_lock ≡ []
    → lock_of q (lock_write path user m)
      ≡ (if text_eq path q then record (lock_of path m) { write_lock = user ∷ [] } else lock_of q m)
unfolding lock_write Sets.add
lock_of-lock_write path q user m h =
    ground (arith, lock_of-put path q (record (lock_of path m) { write_lock = user ∷ [] }) m)

is_empty-nil : (s : Set ℕ) → is_empty s ≡ true → s ≡ []
is_empty-nil [] h = refl
is_empty-nil (x ∷ s) h = cc

-- A request is refused exactly if it is to write and the path has a writer, and then it changes no
-- lock. A granted one makes the user the path's one writer, and a reader, as the mode asks, and
-- leaves every other path alone.
pub lock_cases :
    (path q : Text) (user mode : ℕ) (m : LockTable)
    → let (m', r) = lock path user mode m in
      let refused = writes mode && not (is_empty (lock_of path m).write_lock) in
      (r ≡ (if refused then negsuc 0 else pos 0))
      × (lock_of q m' ≡ (
          if refused
          then lock_of q m
          else if text_eq path q
          then granted user mode (lock_of path m)
          else lock_of q m))
unfolding lock
lock_cases path q user mode m = ground (
  arith,
  is_empty-nil (lock_of path m).write_lock,
  lock_of-put path q (lock_of path m) m,
  lock_of-lock_write path q user m,
  lock_of-lock_write path path user m,
  lock_of-lock_read path q user mode m,
  lock_of-lock_read path q user mode (lock_write path user m),
  text_eq_iff path q,
  text_eq_iff path path,
)

is_unlocked-eq : (l : LockSet) → is_unlocked l ≡ true → l ≡ or_unlocked none
is_unlocked-eq l h = ground (arith, is_empty-nil l.read_lock, is_empty-nil l.write_lock)

lock_of-settle :
    (path q : Text) (l : LockSet) (m : LockTable)
    → lock_of q (if is_unlocked l then Maps.erase path m else Maps.put path l m)
      ≡ (if text_eq path q then l else lock_of q m)
unfolding lock_of
lock_of-settle path q l m =
    ground (arith, find-put path q l m, find-erase path q m, is_unlocked-eq l)

-- Unlocking takes the user from the readers and the writers that the mode names, on this path only.
pub unlock_cases :
    (path q : Text) (user mode : ℕ) (m : LockTable)
    → lock_of q (unlock path user mode m).0
      ≡ (if text_eq path q then unlocked user mode (lock_of path m) else lock_of q m)
unfolding unlock
unlock_cases path q user mode m = elim (Option-cases (Maps.find path m)) [
  | inl e ↦ rw (e, unlock) (unfold lock_of Sets.del in ground (arith, text_eq_iff path q))
  | inr (l, e) ↦
      rw (e, unlock)
        (let found : lock_of path m ≡ l = unfold lock_of in ground arith in
          rw found (lock_of-settle path q (unlocked user mode l) m))
]

del_self : (a : ℕ) → Sets.del a (a ∷ []) ≡ []
unfolding Sets.del
del_self a = ground arith

-- The requests of the users, one after another.
pub data Request : Type 0 where
  locks unlocks : Text → ℕ → ℕ → Request

unfoldable pub serve : List Request → LockTable → LockTable
serve [] m = m
serve (locks path user mode ∷ rs) m = serve rs (lock path user mode m).0
serve (unlocks path user mode ∷ rs) m = serve rs (unlock path user mode m).0

abbrev pub IsExclusive : LockTable → Type 0
IsExclusive m = (path : Text) → length (lock_of path m).write_lock ≤ 1

pub lock-IsExclusive :
    (path : Text) (user mode : ℕ) (m : LockTable)
    → IsExclusive m
    → IsExclusive (lock path user mode m).0
lock-IsExclusive path user mode m h q =
    ground (arith, (lock_cases path q user mode m).1, h q, h path)

length-del-le : (a : ℕ) (s : Set ℕ) → length (Sets.del a s) ≤ length s
unfolding Sets.del
length-del-le a [] = omega arith
length-del-le a (b ∷ s) = ground (arith, length-del-le a s)

pub unlock-IsExclusive :
    (path : Text) (user mode : ℕ) (m : LockTable)
    → IsExclusive m
    → IsExclusive (unlock path user mode m).0
unlock-IsExclusive path user mode m h q = ground (
  arith,
  unlock_cases path q user mode m,
  h q,
  h path,
  length-del-le user (lock_of path m).write_lock,
)

-- Whatever the users request and in which order, no path ever has two writers.
pub serve-IsExclusive :
    (rs : List Request) (m : LockTable) → IsExclusive m → IsExclusive (serve rs m)
unfolding serve
serve-IsExclusive [] m h = h
serve-IsExclusive (locks path user mode ∷ rs) m h =
    serve-IsExclusive rs _ (lock-IsExclusive path user mode m h)
serve-IsExclusive (unlocks path user mode ∷ rs) m h =
    serve-IsExclusive rs _ (unlock-IsExclusive path user mode m h)

-- A user who held no lock on the path and unlocks in the mode of a granted request leaves every
-- path with the locks that it had.
pub unlock-lock :
    (path q : Text) (user mode : ℕ) (m : LockTable)
    → (lock path user mode m).1 ≡ pos 0
    → Sets.has user (lock_of path m).read_lock ≡ false
    → lock_of q (unlock path user mode (lock path user mode m).0).0 ≡ lock_of q m
unlock-lock path q user mode m granted free = ground (
  arith,
  unlock_cases path q user mode (lock path user mode m).0,
  lock_cases path q user mode m,
  lock_cases path path user mode m,
  is_empty-nil (lock_of path m).write_lock,
  del_self user,
  del-add_absent user (lock_of path m).read_lock,
  text_eq_iff path q,
  text_eq_iff path path,
)
