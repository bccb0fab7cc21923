-- ===== src/Master/Life.antt =====
-- From the opening of a file to the reports of its slaves: the lock and the transaction are given back.
pub mod Reports
use sector_sphere.Base.{
  ◌≡◌, subst, ◌≢◌, refl, ap, ◌∙◌, sym, ℕ, Text, Set, true, false, none, some, List, [], ◌∷◌, arith,
  inl, inr, Bool-cases, Option-cases, if◌then◌else◌, ◌==◌, length, pos,
}
use sector_sphere.Base.Sets
use sector_sphere.Base.Sets.{del_absent, has-del, has-add}
use sector_sphere.Base.Keys.{nat_key, text_eq, text_eq_iff}
use sector_sphere.Index.Tree.{Attr}
use sector_sphere.Meta.{LockSet, LockTable, lock, unlock, lock_of, unlocked}
use sector_sphere.Meta.Locks.{unlock_cases, unlock-lock}
use sector_sphere.Trans
use sector_sphere.Trans.{Transaction, retrieve, update_slave, opened}
use sector_sphere.Trans.Ledger.{retrieve-update_slave}
use sector_sphere.Trans.Slaves.{active, left, del_all, has-del_all}
use sector_sphere.Master.{Master, Client, Sent}
use sector_sphere.Master.System.{on_report}
use sector_sphere.Trans.Ledger
use sector_sphere.Trans.{TransManager}
use sector_sphere.Master.Open.{open_path}
use sector_sphere.Master.Opened.{IsOpened, Opening, open_path-Opening}
use sector_sphere.Master.{World, Outcome}
use sector_sphere.Master.Opened.Chain.{add_ids}
use sector_sphere.Master.Life.Reports.{
  Report, reports, slaves_of, reports-left, one_left, reports-released, reports_other, released,
  none_in,
}

-- What is left once all the slaves have reported.
all_left :
    (transid : ℕ) (r : Report) (rs : List Report) (m : Master) (t : Transaction)
    → retrieve transid m.trans ≡ some t
    → t.type ≡ 0
    → del_all (slaves_of (r ∷ rs)) t.slave_id ≡ []
    → retrieve transid (reports transid (r ∷ rs) m).trans ≡ none
unfolding reports del_all
all_left transid r rs m t h z e =
    reports-left transid rs (on_report r.sender transid r.slave r.change r.infos m).0
      (left (r.slave ∷ []) t) (one_left transid r m t h z) z
    ∙ rw e refl

released-unlock :
    (t : Transaction) (q : Text) (m : LockTable)
    → released t q (lock_of q m) ≡ lock_of q (unlock t.file t.user_key t.mode m).0
released-unlock t q m =
    ground (arith, unlock_cases t.file q t.user_key t.mode m, text_eq_iff t.file q)

all_reported :
    (c : Client) (mode dataport : ℕ) (path : Text) (m m' : Master) (sent : List Sent) (r : Report)
    (rs : List Report)
    → (o : IsOpened c mode dataport path m m' sent) → (lock path c.key mode m.locks).1 ≡ pos 0
    → Sets.has c.key (lock_of path m.locks).read_lock ≡ false
    → ((s : ℕ) → Sets.has s (add_ids o.addr []) ≡ true → Sets.has s (slaves_of (r ∷ rs)) ≡ true)
    → let m'' = reports o.transid (r ∷ rs) m' in
      ((j : ℕ) → retrieve j m''.trans ≡ retrieve j m.trans)
      × ((q : Text) → lock_of q m''.locks ≡ lock_of q m.locks)
all_reported c mode dataport path m m' sent r rs o granted free all =
    let t : Transaction = record (opened 0 c.key 110 path mode o.now o.transid) {
      slave_id = add_ids o.addr [];
    } in
    let m'' = reports o.transid (r ∷ rs) m' in
    let empty : del_all (slaves_of (r ∷ rs)) t.slave_id ≡ [] =
      none_in (del_all (slaves_of (r ∷ rs)) t.slave_id)
        (λ a. ground (arith, has-del_all (slaves_of (r ∷ rs)) a t.slave_id, all a)) in
    let gone : retrieve o.transid m''.trans ≡ none =
      all_left o.transid r rs m' t o.found refl empty in
    (
      λ j. elim (Bool-cases (j == o.transid)) [
        | inl e ↦ let f : j ≡ o.transid = ground (arith, e) in rw f (gone ∙ sym o.fresh)
        | inr e ↦
            let f : j ≢ o.transid = ground (arith, e) in
            reports_other o.transid j (r ∷ rs) m' f ∙ o.others j f
      ],
      λ q.
          reports-released o.transid r rs m' t q o.found refl
          ∙ ap (λ l. released t q (lock_of q l)) o.locked
          ∙ released-unlock t q (lock path c.key mode m.locks).0
          ∙ unlock-lock path q c.key mode m.locks granted free,
    )

-- The transaction that is there after the opening and was not before is the one of the file.
same_transid :
    (c : Client) (mode dataport : ℕ) (path : Text) (m m' : Master) (sent : List Sent)
    (o : IsOpened c mode dataport path m m' sent) (transid : ℕ) (t : Transaction)
    → retrieve transid m.trans ≡ none
    → retrieve transid m'.trans ≡ some t
    → transid ≡ o.transid
same_transid c mode dataport path m m' sent o transid t before after =
    elim (Bool-cases (transid == o.transid)) [
      | inl e ↦ ground (arith, e)
      | inr e ↦
          let f : transid ≢ o.transid = ground (arith, e) in
          absurd (cc (o.others transid f, before, after))
    ]

reports-IsOpened :
    (c : Client) (mode dataport : ℕ) (path : Text) (m m' : Master) (sent : List Sent) (transid : ℕ)
    (t : Transaction) (r : Report) (rs : List Report)
    → IsOpened c mode dataport path m m' sent
    → (lock path c.key mode m.locks).1 ≡ pos 0
    → Sets.has c.key (lock_of path m.locks).read_lock ≡ false
    → retrieve transid m.trans ≡ none
    → retrieve transid m'.trans ≡ some t
    → ((s : ℕ) → Sets.has s t.slave_id ≡ true → Sets.has s (slaves_of (r ∷ rs)) ≡ true)
    → let m'' = reports transid (r ∷ rs) m' in
      ((j : ℕ) → retrieve j m''.trans ≡ retrieve j m.trans)
      × ((q : Text) → lock_of q m''.locks ≡ lock_of q m.locks)
reports-IsOpened c mode dataport path m m' sent transid t r rs o granted free before after all =
    let e = same_transid c mode dataport path m m' sent o transid t before after in
    let same : t.slave_id ≡ add_ids o.addr [] =
      cc (o.found, after, ap (λ i. retrieve i m'.trans) e) in
    let all' : (s : ℕ)
        → Sets.has s (add_ids o.addr []) ≡ true
        → Sets.has s (slaves_of (r ∷ rs)) ≡ true =
      λ s h. all s (rw same h) in
    rw e (all_reported c mode dataport path m m' sent r rs o granted free all')

-- An outcome that has made a transaction is an opening that is done.
Opening-done :
    (w : World) (c : Client) (mode dataport : ℕ) (path : Text) (m m' : Master) (sent : List Sent)
    (transid : ℕ) (t : Transaction) (o : Outcome)
    → Opening w c mode dataport path m o
    → o ≡ some (m', sent)
    → retrieve transid m.trans ≡ none
    → retrieve transid m'.trans ≡ some t
    → IsOpened c mode dataport path m m' sent
Opening-done w c mode dataport path m m' sent transid t none Opening.undefined e before after =
    absurd (cc)
Opening-done w c mode dataport path m m' sent transid t o (Opening.refused code m1 d k l) e before
      after =
    let same : m1 ≡ m' = cc in
    absurd (
      cc (
        before,
        after,
        ap (λ (x : Master). retrieve transid x.trans) same,
        ap (λ (x : TransManager). retrieve transid x) k,
      ))
Opening-done w c mode dataport path m m' sent transid t o (Opening.done m1 sent1 a b k) e before
      after =
    let same : m1 ≡ m' = cc in
    let same_sent : sent1 ≡ sent = cc in
    subst (λ x. IsOpened c mode dataport path m x sent) same
      (subst (λ x. IsOpened c mode dataport path m m1 x) same_sent k)

-- A file that was opened, its lock granted to a user who did not read it before, and then reported on by all the slaves of the
-- transaction that the opening has made, some of them perhaps more than once, in any order and with any changes: the
-- transaction is gone, every other one is as it was before the opening, and so is every lock. The list of transactions
-- is well formed before.
pub reports-open_path :
    (w : World) (c : Client) (mode dataport : ℕ) (hintip path : Text) (m m' : Master)
    (sent : List Sent) (transid : ℕ) (t : Transaction) (r : Report) (rs : List Report)
    → Ledger.IsValid m.trans
    → open_path w c mode dataport hintip path m ≡ some (m', sent)
    → (lock path c.key mode m.locks).1 ≡ pos 0
    → Sets.has c.key (lock_of path m.locks).read_lock ≡ false
    → retrieve transid m.trans ≡ none
    → retrieve transid m'.trans ≡ some t
    → ((s : ℕ) → Sets.has s t.slave_id ≡ true → Sets.has s (slaves_of (r ∷ rs)) ≡ true)
    → let m'' = reports transid (r ∷ rs) m' in
      ((j : ℕ) → retrieve j m''.trans ≡ retrieve j m.trans)
      × ((q : Text) → lock_of q m''.locks ≡ lock_of q m.locks)
reports-open_path w c mode dataport hintip path m m' sent transid t r rs v e granted free before
      after all =
    let o =
      Opening-done w c mode dataport path m m' sent transid t
        (open_path w c mode dataport hintip path m)
        (open_path-Opening w c mode dataport hintip path m v) e before after in
    reports-IsOpened c mode dataport path m m' sent transid t r rs o granted free before after all
