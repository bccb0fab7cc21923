-- ===== src/Master/Followers/Served.antt =====
-- Each request of Master::processFSCmd but a new file is followed by the other masters.
use sector_sphere.Base.{
  ◌≡◌, refl, ℕ, true, some, List, [], ◌∷◌, inl, inr, Bool-cases, Option-cases, ◌==◌,
}
use sector_sphere.Address.{Address}
use sector_sphere.Index.Tree.{Attr}
use sector_sphere.Trans
use sector_sphere.Trans.{TransManager}
use sector_sphere.Master.{
  Master, Client, FsRequest, ls, stat, mkdir, mv, rm, cp, touch, open_file, Change, reported, Sent,
  to_client, echoed, Reply,
}
use sector_sphere.Master.Files.{exists}
use sector_sphere.Master.Sync.{apply}
use sector_sphere.Master.System.{on_report, update_all, replicated, settle}
use sector_sphere.Master.Followers.{received, apply_all, IsFollowed, IsPeer, many_told}

one_change :
    (k : ℕ) (m m' : Master) (sent : List Sent) (change : Change)
    → received k sent ≡ change ∷ []
    → apply change m.metadata ≡ m'.metadata
    → IsFollowed k m (some (m', sent))
unfolding apply_all
one_change k m m' sent change h e = rw h e

answer-IsFollowed :
    (k : ℕ) (m m' : Master) (r : Reply)
    → m.metadata ≡ m'.metadata
    → IsFollowed k m (some (m', to_client r ∷ []))
unfolding received apply_all
answer-IsFollowed k m m' r e = e

-- A request that is not to open a file that is missing.
abbrev pub IsOld : FsRequest → Master → Type 0
IsOld (open_file mode dataport hintip path) m = exists path m ≡ true
IsOld (ls path) m = Unit
IsOld (stat path) m = Unit
IsOld (mkdir path) m = Unit
IsOld (mv src dst) m = Unit
IsOld (rm path) m = Unit
IsOld (cp src dst) m = Unit
IsOld (touch path ts) m = Unit

-- The same for the report of a slave, which names the changes of its files.
pub on_report-IsFollowed :
    (k : ℕ) (c : Client) (transid slaveid change : ℕ) (infos : List Attr) (m : Master)
    → IsPeer k m
    → IsFollowed k m (some (on_report c transid slaveid change infos m))
unfolding on_report
on_report-IsFollowed k c transid slaveid change infos m p =
    elim (Option-cases (Trans.retrieve transid m.trans)) [
      | inl e ↦ rw (on_report, e) (answer-IsFollowed k m m echoed refl)
      | inr (t, e) ↦
          let by : Change = reported change (record { ip = c.ip; port = c.port }) infos in
          let m' : Master = record m {
            metadata = update_all change (record { ip = c.ip; port = c.port }) infos m.metadata;
            on_replicate = replicated change infos m.on_replicate;
          } in
          let told = many_told k [] by m echoed p (unfold received in refl) in
          elim (Bool-cases (t.type == 0)) [
            | inl f ↦
                rw (on_report, e, f)
                  (one_change k m (settle transid slaveid t m') _ by told (unfold apply in refl))
            | inr f ↦ rw (on_report, e, f) (one_change k m m' _ by told (unfold apply in refl))
          ]
    ]
