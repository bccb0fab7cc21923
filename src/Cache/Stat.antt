-- ===== src/Cache/Stat.antt =====
-- StatCache against what each path should remember: how often it is open, and the last time and size
-- that were reported since it was opened.
use sector_sphere.Base.{
  ℕ, suc, ◌-◌, ◌≡◌, refl, ◌∙◌, ap, ℤ, pos, negsuc, Text, true, false, Option, none, some, List, [],
  ◌∷◌, if◌then◌else◌, ◌==◌, arith, Option-cases, inl, inr,
}
use sector_sphere.Base.Maps
use sector_sphere.Base.Keys.{text_key, text_eq, text_eq_iff}
use sector_sphere.Index.Tree.{Attr}
use sector_sphere.Cache.{StatRec, StatCache, insert, update, stat, remove}

-- What a client does with a file.
pub data Use : Type 0 where
  opens : Use
  reports : ℕ → ℕ → Use
  closes : Use

unfoldable pub apply : StatRec → Text → Use → StatCache → StatCache
apply blank path opens c = insert blank path c
apply blank path (reports ts size) c = update path ts size c
apply blank path closes c = remove path c

unfoldable pub run : StatRec → List (Text × Use) → StatCache → StatCache
unfolding apply
run blank [] c = c
run blank ((path, u) ∷ calls) c = run blank calls (apply blank path u c)

-- A file that is open: how often, and the last report.
pub record Opened : Type 0 where
  pub times : ℕ
  pub report : Option (ℕ × ℕ)

abbrev pub step : Use → Option Opened → Option Opened
step opens none = some (record { times = 1; report = none })
step opens (some o) = some (record o { times = suc o.times })
step (reports ts size) none = none
step (reports ts size) (some o) = some (record o { report = some (ts, size) })
step closes none = none
step closes (some o) = if o.times - 1 == 0 then none else some (record o { times = o.times - 1 })

-- What a path should remember after the calls, those for other paths included.
unfoldable pub remembered : Text → List (Text × Use) → Option Opened → Option Opened
remembered path [] o = o
remembered path ((p, u) ∷ calls) o = remembered path calls (if text_eq p path then step u o else o)

abbrev pub answer : Attr → Option Opened → Attr × ℤ
answer attr none = (attr, negsuc 0)
answer attr (some o) = elim o.report [
  | none ↦ (attr, pos 0)
  | some r ↦ (record attr { time_stamp = r.0; size = r.1 }, pos 1)
]

abbrev opened : StatRec → Opened
opened s = record {
  times = s.count;
  report = if s.change then some (s.time_stamp, s.size) else none;
}

abbrev view : Option StatRec → Option Opened
view none = none
view (some s) = some (opened s)

view-apply :
    (blank : StatRec) (p path : Text) (u : Use) (c : StatCache)
    → view (Maps.find path (apply blank p u c))
      ≡ (if text_eq p path then step u (view (Maps.find path c)) else view (Maps.find path c))
unfolding apply insert update remove
view-apply blank p path opens c = elim (Option-cases (Maps.find p c)) [
  | inl e ↦
      let r : StatRec = record blank { count = 1; change = false } in
      rw (e, insert) (ground (arith, e, Maps.find-put p path r c, text_eq_iff p path))
  | inr (s, e) ↦
      let r : StatRec = record s { count = suc s.count } in
      rw (e, insert) (ground (arith, e, Maps.find-put p path r c, text_eq_iff p path))
]
view-apply blank p path (reports ts size) c = elim (Option-cases (Maps.find p c)) [
  | inl e ↦ rw (e, update) (ground (arith, e, text_eq_iff p path))
  | inr (s, e) ↦
      let r : StatRec = record s { time_stamp = ts; size = size; change = true } in
      rw (e, update) (ground (arith, e, Maps.find-put p path r c, text_eq_iff p path))
]
view-apply blank p path closes c = elim (Option-cases (Maps.find p c)) [
  | inl e ↦ rw (e, remove) (ground (arith, e, text_eq_iff p path))
  | inr (s, e) ↦
      let r : StatRec = record s { count = s.count - 1 } in
      rw (e, remove)
        (ground (arith, e, Maps.find-put p path r c, Maps.find-erase p path c, text_eq_iff p path))
]

view-run :
    (blank : StatRec) (path : Text) (calls : List (Text × Use)) (c : StatCache)
    → view (Maps.find path (run blank calls c)) ≡ remembered path calls (view (Maps.find path c))
unfolding run remembered
view-run blank path [] c = refl
view-run blank path ((p, u) ∷ calls) c =
    view-run blank path calls (apply blank p u c)
    ∙ ap (remembered path calls) (view-apply blank p path u c)

stat-view :
    (path : Text) (attr : Attr) (c : StatCache)
    → stat path attr c ≡ answer attr (view (Maps.find path c))
unfolding stat
stat-view path attr c = elim (Option-cases (Maps.find path c)) [
  | inl e ↦ rw (e, stat) refl
  | inr (s, e) ↦ rw (e, stat) (ground arith)
]

-- From an empty cache, whatever a client opens, reports and closes, and whatever a new record holds,
-- StatCache::stat answers -1 for a path that is not open, 0 for one without a report since it was
-- opened first, and else 1 with the last report; only the last close of a path forgets it.
pub stat-run :
    (blank : StatRec) (path : Text) (attr : Attr) (calls : List (Text × Use))
    → stat path attr (run blank calls []) ≡ answer attr (remembered path calls none)
unfolding Maps.find
stat-run blank path attr calls =
    stat-view path attr (run blank calls []) ∙ ap (answer attr) (view-run blank path calls [])
