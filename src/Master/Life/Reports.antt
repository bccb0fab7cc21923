-- ===== src/Master/Life/Reports.antt =====
-- What the reports of slaves on one transaction leave of it and of the locks.
use sector_sphere.Base.{
  ◌≡◌, ◌≢◌, refl, ap, ◌∙◌, sym, ℕ, Text, Set, true, false, none, some, List, [], ◌∷◌, arith, inl,
  inr, Bool-cases, Option-cases, if◌then◌else◌, ◌==◌, length,
}
use sector_sphere.Base.Sets
use sector_sphere.Base.Sets.{del_absent, has-del, has-add}
use sector_sphere.Base.Keys.{nat_key, text_eq, text_eq_iff}
use sector_sphere.Index.Tree.{Attr}
use sector_sphere.Meta.{LockSet, unlock, lock_of, unlocked}
use sector_sphere.Meta.Locks.{unlock_cases}
use sector_sphere.Trans
use sector_sphere.Trans.{Transaction, retrieve, update_slave, opened}
use sector_sphere.Trans.Ledger.{retrieve-update_slave}
use sector_sphere.Trans.Slaves.{active, left, del_all}
use sector_sphere.Master.{Master, Client}
use sector_sphere.Master.System.{on_report}

-- A report of a slave on the transaction.
pub record Report : Type 0 where
  pub sender : Client
  pub slave : ℕ
  pub change : ℕ
  pub infos : List Attr

unfoldable pub reports : ℕ → List Report → Master → Master
reports transid [] m = m
reports transid (r ∷ rs) m =
    reports transid rs (on_report r.sender transid r.slave r.change r.infos m).0

abbrev pub slaves_of : List Report → List ℕ
slaves_of [] = []
slaves_of (r ∷ rs) = r.slave ∷ slaves_of rs

del_twice : (a : ℕ) (s : Set ℕ) → Sets.del a (Sets.del a s) ≡ Sets.del a s
del_twice a s = del_absent a (Sets.del a s) (ground (arith, has-del a a s))

unlocked_twice :
    (u mode : ℕ) (l : LockSet) → unlocked u mode (unlocked u mode l) ≡ unlocked u mode l
unlocked_twice u mode l = ground (arith, del_twice u l.read_lock, del_twice u l.write_lock)

report_gone :
    (transid : ℕ) (r : Report) (m : Master)
    → retrieve transid m.trans ≡ none
    → (on_report r.sender transid r.slave r.change r.infos m).0 ≡ m
unfolding on_report
report_gone transid r m h = rw (on_report, h) refl

reports_gone :
    (transid : ℕ) (rs : List Report) (m : Master)
    → retrieve transid m.trans ≡ none
    → reports transid rs m ≡ m
unfolding reports
reports_gone transid [] m h = refl
reports_gone transid (r ∷ rs) m h = rw (report_gone transid r m h) (reports_gone transid rs m h)

-- One report: the transaction and the locks after it.
report_trans :
    (transid : ℕ) (r : Report) (m : Master) (t : Transaction)
    → retrieve transid m.trans ≡ some t
    → t.type ≡ 0
    → (on_report r.sender transid r.slave r.change r.infos m).0.trans
      ≡ (update_slave transid r.slave m.trans).0
unfolding on_report
report_trans transid r m t h z = rw (on_report, h, z) refl

report_locks :
    (transid : ℕ) (r : Report) (m : Master) (t : Transaction)
    → retrieve transid m.trans ≡ some t
    → t.type ≡ 0
    → (on_report r.sender transid r.slave r.change r.infos m).0.locks
      ≡ (unlock t.file t.user_key t.mode m.locks).0
unfolding on_report
report_locks transid r m t h z = rw (on_report, h, z) refl

del_all_nil : (ss : List ℕ) → del_all ss [] ≡ []
unfolding del_all Sets.del
del_all_nil [] = refl
del_all_nil (s ∷ ss) = del_all_nil ss

length-nil : (s : Set ℕ) → (length s == 0) ≡ true → s ≡ []
length-nil [] h = refl
length-nil (a ∷ s) h = ground (arith, h)

left-none :
    (ss : List ℕ) (t : Transaction) → (length t.slave_id == 0) ≡ true → active (left ss t) ≡ none
left-none ss t h =
    let e : del_all ss t.slave_id ≡ [] =
      ap (del_all ss) (length-nil t.slave_id h) ∙ del_all_nil ss in
    rw e refl

pub one_left :
    (transid : ℕ) (r : Report) (m : Master) (t : Transaction)
    → retrieve transid m.trans ≡ some t
    → t.type ≡ 0
    → retrieve transid (on_report r.sender transid r.slave r.change r.infos m).0.trans
      ≡ active (left (r.slave ∷ []) t)
one_left transid r m t h z = rw (report_trans transid r m t h z) (
    unfold Trans.reported del_all in
    ground (arith, h, retrieve-update_slave transid r.slave transid m.trans))

-- The transaction after the reports: in the list exactly with the slaves that have not reported.
pub reports-left :
    (transid : ℕ) (rs : List Report) (m : Master) (t : Transaction)
    → retrieve transid m.trans ≡ active t
    → t.type ≡ 0
    → retrieve transid (reports transid rs m).trans ≡ active (left (slaves_of rs) t)
unfolding reports del_all
reports-left transid [] m t h z = h
reports-left transid (r ∷ rs) m t h z = elim (Bool-cases (length t.slave_id == 0)) [
  | inl e ↦
      let gone : retrieve transid m.trans ≡ none = h ∙ rw e refl in
      rw (reports_gone transid (r ∷ rs) m gone) (gone ∙ sym (left-none (slaves_of (r ∷ rs)) t e))
  | inr e ↦
      reports-left transid rs (on_report r.sender transid r.slave r.change r.infos m).0
        (left (r.slave ∷ []) t) (one_left transid r m t (h ∙ rw e refl) z) z
]

abbrev pub released : Transaction → Text → LockSet → LockSet
released t q l = if text_eq t.file q then unlocked t.user_key t.mode l else l

released_twice :
    (t : Transaction) (q : Text) (l : LockSet) → released t q (released t q l) ≡ released t q l
released_twice t q l = ground (arith, unlocked_twice t.user_key t.mode l)

one_released :
    (transid : ℕ) (r : Report) (m : Master) (t : Transaction) (q : Text)
    → retrieve transid m.trans ≡ some t
    → t.type ≡ 0
    → lock_of q (on_report r.sender transid r.slave r.change r.infos m).0.locks
      ≡ released t q (lock_of q m.locks)
one_released transid r m t q h z =
    rw (report_locks transid r m t h z)
      (ground (arith, unlock_cases t.file q t.user_key t.mode m.locks, text_eq_iff t.file q))

-- The first report releases the lock, and the further ones change no lock.
pub reports-released :
    (transid : ℕ) (r : Report) (rs : List Report) (m : Master) (t : Transaction) (q : Text)
    → retrieve transid m.trans ≡ some t
    → t.type ≡ 0
    → lock_of q (reports transid (r ∷ rs) m).locks ≡ released t q (lock_of q m.locks)
unfolding reports
reports-released transid r [] m t q h z = one_released transid r m t q h z
reports-released transid r (r' ∷ rs) m t q h z =
    let m1 = (on_report r.sender transid r.slave r.change r.infos m).0 in
    let t1 = left (r.slave ∷ []) t in
    let here = one_released transid r m t q h z in
    elim (Bool-cases (length t1.slave_id == 0)) [
      | inl e ↦
          let gone : retrieve transid m1.trans ≡ none = one_left transid r m t h z ∙ rw e refl in
          ap (λ (x : Master). lock_of q x.locks) (reports_gone transid (r' ∷ rs) m1 gone) ∙ here
      | inr e ↦
          reports-released transid r' rs m1 t1 q (one_left transid r m t h z ∙ rw e refl) z
          ∙ ap (released t1 q) here
          ∙ released_twice t q (lock_of q m.locks)
    ]

one_other :
    (transid j : ℕ) (r : Report) (m : Master)
    → j ≢ transid
    → retrieve j (on_report r.sender transid r.slave r.change r.infos m).0.trans
      ≡ retrieve j m.trans
unfolding on_report
one_other transid j r m n = elim (Option-cases (retrieve transid m.trans)) [
  | inl e ↦ rw (on_report, e) refl
  | inr (t, e) ↦ elim (Bool-cases (t.type == 0)) [
    | inl f ↦
        rw (on_report, e, f) (ground (arith, n, retrieve-update_slave transid r.slave j m.trans))
    | inr f ↦ rw (on_report, e, f) refl
  ]
]

pub reports_other :
    (transid j : ℕ) (rs : List Report) (m : Master)
    → j ≢ transid
    → retrieve j (reports transid rs m).trans ≡ retrieve j m.trans
unfolding reports
reports_other transid j [] m n = refl
reports_other transid j (r ∷ rs) m n =
    reports_other transid j rs (on_report r.sender transid r.slave r.change r.infos m).0 n
    ∙ one_other transid j r m n

pub none_in : (s : Set ℕ) → ((a : ℕ) → Sets.has a s ≡ false) → s ≡ []
unfolding Sets.has
none_in [] h = refl
none_in (a ∷ s) h = ground (arith, h a)
