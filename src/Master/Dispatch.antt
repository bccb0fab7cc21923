-- ===== src/Master/Dispatch.antt =====
-- Master::process and Master::processEx: who may send a request, and which handler gets it.
use sector_sphere.Base.{ℕ, Text, Bool, false, not, ◌&&◌, ◌||◌, none, some, if◌then◌else◌, ◌==◌}
use sector_sphere.Base.Maps
use sector_sphere.Base.Keys.{text_eq, nat_key}
use sector_sphere.Security.{is_positive}
use sector_sphere.User
use sector_sphere.User.{User, UserManager}
use sector_sphere.Routing.{get_router_id_of}
use sector_sphere.Slaves.{get_slave_id}
use sector_sphere.Master.{
  Master, World, Client, FsRequest, ls, stat, mkdir, mv, rm, cp, touch, open_file, Change, Outcome,
  reject, is_neg, e_security, e_expired, e_unknown,
}
use sector_sphere.Master.Files.{
  list_dir, stat_path, make_dir, move_path, remove_path, copy_path, touch_path,
}
use sector_sphere.Master.Open.{open_path}
use sector_sphere.Master.Sphere.{DcRequest, process_dc}
use sector_sphere.Master.System.{SysRequest, process_sys}
use sector_sphere.Master.Sync.{MasterRequest, process_m, process_sync}

unfoldable pub process_fs : World → Client → FsRequest → Master → Outcome
unfolding list_dir stat_path make_dir move_path remove_path copy_path touch_path open_path
process_fs w c (ls path) m = list_dir w c path m
process_fs w c (stat path) m = stat_path w c path m
process_fs w c (mkdir path) m = make_dir w c path m
process_fs w c (mv src dst) m = move_path w c src dst m
process_fs w c (rm path) m = remove_path w c path m
process_fs w c (cp src dst) m = copy_path w c src dst m
process_fs w c (touch path ts) m = touch_path w c path ts m
process_fs w c (open_file mode dataport hintip path) m = open_path w c mode dataport hintip path m

-- The message type in hundreds.
pub data Request : Type 0 where
  sys_cmd : SysRequest → Request
  fs_cmd : FsRequest → Request
  dc_cmd : DcRequest → Request
  m_cmd : MasterRequest → Request
  sync_cmd : Change → Request
  unknown_cmd : Request

unfoldable pub process_ex : World → Client → Request → Master → Outcome
unfolding process_fs process_sys process_dc process_m process_sync
process_ex w c (sys_cmd r) m = process_sys w c r m
process_ex w c (fs_cmd r) m = process_fs w c r m
process_ex w c (dc_cmd r) m = some (process_dc w c r m)
process_ex w c (m_cmd r) m = process_m w r m
process_ex w c (sync_cmd r) m = some (process_sync r m)
process_ex w c unknown_cmd m = reject e_unknown m

-- A user from the address of the log-in, or with the key 0 a slave or another master.
unfoldable pub is_secure : Text → ℕ → ℕ → User → Master → Bool
is_secure ip port key user m =
    if is_positive key
    then text_eq user.ip ip && user.port == port
    else if key == 0
    then not (is_neg (get_slave_id (record { ip = ip; port = port }) m.slaves))
      || not (is_neg (get_router_id_of (record { ip = ip; port = port }) m.routing))
    else false

-- The time of a user's last request. A user is shared between the map and its holders.
abbrev pub refresh : ℕ → ℕ → User → Master → Master
refresh now key user m =
    if is_positive key
    then record m {
      users = record {
        active_users = Maps.put key (record user { last_refresh_time = now }) m.users.active_users;
      };
    }
    else m

unfoldable pub process : World → Text → ℕ → ℕ → Request → Master → Outcome
unfolding is_secure process_ex
process w ip port key r m = elim (User.lookup key m.users) [
  | none ↦ reject e_expired m
  | some user ↦
      if not (is_secure ip port key user m)
      then reject e_security m
      else process_ex w (record { ip = ip; port = port; user = user; key = key }) r
          (refresh w.now key user m)
]
