-- ===== src/Master/Run/Events.antt =====
-- The requests of a master keep its state sound.
use sector_sphere.Base.{ℕ, Text, not, List, [], ◌∷◌, inl, inr, Bool-cases, Option-cases, ◌==◌}
use sector_sphere.Meta.{slash}
use sector_sphere.Meta.Locks.{unlock-IsExclusive}
use sector_sphere.Index.Read.{e_noexist}
use sector_sphere.Index.Tree.{Attr}
use sector_sphere.Index.Whole.Order.{substract-IsOrdered}
use sector_sphere.Routing.Table.{insert-IsValid}
use sector_sphere.Routing.{match_id}
use sector_sphere.Trans
use sector_sphere.Trans.{TransManager}
use sector_sphere.Security.{is_positive}
use sector_sphere.User
use sector_sphere.User.{User}
use sector_sphere.Slaves.{get_slave_addr}
use sector_sphere.Slaves.Members
use sector_sphere.Slaves.Votes.{vote_bad_slaves}
use sector_sphere.Master.{
  Master, World, Client, FsRequest, ls, stat, mkdir, mv, rm, cp, touch, open_file, touched,
  first_part, is_neg, e_master,
}
use sector_sphere.Master.Guards.{rejects, permits, permits_two}
use sector_sphere.Master.Files.{exists, list_dir, stat_path, copy_path, touch_path}
use sector_sphere.Master.Open.{open_path}
use sector_sphere.Master.System.{
  SysRequest, report, logout, sysinfo, sphere_report, master_list, keep_alive, unregister,
  process_sys, on_report, on_sphere_report,
}
use sector_sphere.Master.Sphere.{
  DcRequest, process_dc, run_dc, start_job, collect_all, prepare, locate_spes, start_spe,
  start_shuffler,
}
use sector_sphere.Master.Sync.{
  process_sync, MasterRequest, new_master, probe, slave_lost, process_m, on_slave_lost, no_address,
  apply,
}
use sector_sphere.Master.Dispatch.{
  process_fs, Request, sys_cmd, fs_cmd, dc_cmd, m_cmd, sync_cmd, unknown_cmd, process, process_ex,
  is_secure, refresh,
}
use sector_sphere.Master.Run.{
  IsSound, IsSafe, reject-IsSafe, with_metadata, make_dir-IsSafe, move_path-IsSafe,
  remove_path-IsSafe, open_new-IsSafe, open_old-IsSafe, update_all-Ordered, remove_all-Ordered,
  apply-Ordered,
}

module _ (w : World) (c : Client) (m : Master) (s : IsSound m) where
  process_fs-IsSafe : (r : FsRequest) → IsSafe (process_fs w c r m)
  unfolding process_fs list_dir stat_path copy_path touch_path open_path apply
  process_fs-IsSafe (ls path) = permits IsSafe m (reject-IsSafe m s) w c path 1 _ s
  process_fs-IsSafe (stat path) =
      permits IsSafe m (reject-IsSafe m s) w c path 1 _
        (rejects IsSafe m (reject-IsSafe m s) (not (exists path m)) e_noexist _ s)
  process_fs-IsSafe (mkdir path) = make_dir-IsSafe w c m s path
  process_fs-IsSafe (mv src dst) = move_path-IsSafe w c m s src dst
  process_fs-IsSafe (rm path) = remove_path-IsSafe w c m s path
  process_fs-IsSafe (cp src dst) =
      permits_two IsSafe m (reject-IsSafe m s) w c src dst (first_part dst) _ tt
        (record { ordered = s.ordered; exclusive = s.exclusive; routes = s.routes })
  process_fs-IsSafe (touch path ts) = permits IsSafe m (reject-IsSafe m s) w c path 2 _ (
      rejects IsSafe m (reject-IsSafe m s) (not (exists path m)) e_noexist _
        (with_metadata m _ s (apply-Ordered (touched path ts) m.metadata s.ordered)))
  process_fs-IsSafe (open_file mode dataport hintip path) =
      permits IsSafe m (reject-IsSafe m s) w c path mode _ (elim (Bool-cases (exists path m)) [
        | inl e ↦ rw e (open_old-IsSafe w c m s mode dataport hintip path)
        | inr e ↦ rw e (open_new-IsSafe w c m s mode dataport hintip path)
      ])

  on_report-IsSound :
      (transid slaveid change : ℕ) (infos : List Attr)
      → IsSound (on_report c transid slaveid change infos m).0
  unfolding on_report
  on_report-IsSound transid slaveid change infos =
      elim (Option-cases (Trans.retrieve transid m.trans)) [
        | inl e ↦ rw (on_report, e) s
        | inr (t, e) ↦
            let o =
              update_all-Ordered change (record { ip = c.ip; port = c.port }) infos m.metadata
                s.ordered in
            elim (Bool-cases (t.type == 0)) [
              | inl f ↦
                  rw (on_report, e, f)
                    (record {
                      ordered = o;
                      exclusive = unlock-IsExclusive t.file t.user_key t.mode m.locks s.exclusive;
                      routes = s.routes;
                    })
              | inr f ↦
                  rw (on_report, e, f)
                    (record { ordered = o; exclusive = s.exclusive; routes = s.routes })
            ]
      ]

  on_sphere_report-IsSafe :
      (transid slaveid num : ℕ) (buf : List ℕ)
      → IsSafe (on_sphere_report w c transid slaveid num buf m)
  unfolding on_sphere_report
  on_sphere_report-IsSafe transid slaveid num buf =
      elim (Option-cases (Trans.retrieve transid m.trans)) [
        | inl e ↦ rw (on_sphere_report, e) s
        | inr (t, e) ↦ elim (Bool-cases (t.type == 1)) [
          | inr f ↦ rw (on_sphere_report, e, f) s
          | inl f ↦
              elim (Option-cases
                (vote_bad_slaves w.blank (record { ip = c.ip; port = c.port }) num buf m.slaves)) [
                  | inl g ↦ rw (on_sphere_report, e, f, g) tt
                  | inr (slaves, g) ↦
                      rw (on_sphere_report, e, f, g)
                        (record { ordered = s.ordered; exclusive = s.exclusive; routes = s.routes })
                ]
        ]
      ]

  process_sys-IsSafe : (r : SysRequest) → IsSafe (process_sys w c r m)
  unfolding process_sys
  process_sys-IsSafe (report transid slaveid change infos) =
      on_report-IsSound transid slaveid change infos
  process_sys-IsSafe logout = record {
    ordered = s.ordered;
    exclusive = s.exclusive;
    routes = s.routes;
  }
  process_sys-IsSafe (sphere_report transid slaveid num buf) =
      on_sphere_report-IsSafe transid slaveid num buf
  process_sys-IsSafe master_list = s
  process_sys-IsSafe keep_alive = s
  process_sys-IsSafe sysinfo =
      rejects IsSafe m (reject-IsSafe m s) (not (match_id c.key m.router_key m.routing)) e_master _
        s
  process_sys-IsSafe (unregister paths) =
      with_metadata m _ s (remove_all-Ordered paths m.metadata s.ordered)

  process_dc-IsSound : (r : DcRequest) → IsSound (process_dc w c r m).0
  unfolding process_dc run_dc start_job
  process_dc-IsSound r = elim (Bool-cases c.user.exec) [ inr e ↦ rw e s | inl e ↦ rw e (ran r) ]
    where
      ran : (r : DcRequest) → IsSound (run_dc w c r m).0
      ran (prepare req) = elim (Option-cases (collect_all req [] m.metadata)) [
        | inl e ↦ rw (run_dc, e) s
        | inr (l, e) ↦ rw (run_dc, e) s
      ]
      ran locate_spes = s
      ran (start_spe addr) = record {
        ordered = s.ordered;
        exclusive = s.exclusive;
        routes = s.routes;
      }
      ran (start_shuffler addr) = record {
        ordered = s.ordered;
        exclusive = s.exclusive;
        routes = s.routes;
      }

  on_slave_lost-IsSafe : (sid : ℕ) → IsSafe (on_slave_lost w sid m)
  unfolding on_slave_lost
  on_slave_lost-IsSafe sid =
      let a = get_slave_addr sid no_address m.slaves in
      elim (Option-cases (Members.remove w.inet_pton w.now sid m.slaves)) [
        | inl e ↦ rw (on_slave_lost, e) tt
        | inr (r, e) ↦ elim (Bool-cases (is_neg a.1)) [
          | inl f ↦
              rw (on_slave_lost, e, f)
                (record { ordered = s.ordered; exclusive = s.exclusive; routes = s.routes })
          | inr f ↦
              rw (on_slave_lost, e, f)
                (record {
                  ordered = substract-IsOrdered (slash ∷ []) a.0 m.metadata s.ordered;
                  exclusive = s.exclusive;
                  routes = s.routes;
                })
        ]
      ]

  process_m-IsSafe : (r : MasterRequest) → IsSafe (process_m w r m)
  unfolding process_m
  process_m-IsSafe (new_master key addr) = record {
    ordered = s.ordered;
    exclusive = s.exclusive;
    routes = insert-IsValid key addr m.routing s.routes;
  }
  process_m-IsSafe (probe key) = s
  process_m-IsSafe (slave_lost sid) = on_slave_lost-IsSafe sid

  process_ex-IsSafe : (r : Request) → IsSafe (process_ex w c r m)
  unfolding process_ex process_sync
  process_ex-IsSafe (sys_cmd r) = process_sys-IsSafe r
  process_ex-IsSafe (fs_cmd r) = process_fs-IsSafe r
  process_ex-IsSafe (dc_cmd r) = process_dc-IsSound r
  process_ex-IsSafe (m_cmd r) = process_m-IsSafe r
  process_ex-IsSafe (sync_cmd r) = with_metadata m _ s (apply-Ordered r m.metadata s.ordered)
  process_ex-IsSafe unknown_cmd = s

refresh-IsSound :
    (now key : ℕ) (user : User) (m : Master) → IsSound m → IsSound (refresh now key user m)
refresh-IsSound now key user m s = elim (Bool-cases (is_positive key)) [
  | inl e ↦ rw e (record { ordered = s.ordered; exclusive = s.exclusive; routes = s.routes })
  | inr e ↦ rw e s
]

pub process-IsSafe :
    (w : World) (ip : Text) (port key : ℕ) (r : Request) (m : Master)
    → IsSound m
    → IsSafe (process w ip port key r m)
unfolding process
process-IsSafe w ip port key r m s = elim (Option-cases (User.lookup key m.users)) [
  | inl e ↦ rw (process, e) s
  | inr (user, e) ↦ elim (Bool-cases (is_secure ip port key user m)) [
    | inr f ↦ rw (process, e, f) s
    | inl f ↦
        rw (process, e, f)
          (process_ex-IsSafe w (record { ip = ip; port = port; user = user; key = key })
            (refresh w.now key user m) (refresh-IsSound w.now key user m s) r)
  ]
]
