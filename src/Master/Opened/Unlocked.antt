-- ===== src/Master/Opened/Unlocked.antt =====
-- A new file is opened whether or not its lock is granted.
use sector_sphere.Base.{◌≡◌, refl, ℕ, Text, true, false, some, List, [], arith, ◌==◌}
use sector_sphere.Meta.{lock, lock_of, writes}
use sector_sphere.Meta.Locks.{lock_cases}
use sector_sphere.Index.Edit.{create}
use sector_sphere.Trans.Ledger
use sector_sphere.User.{match}
use sector_sphere.Slaves.{SlaveNode, SlaveManager}
use sector_sphere.Slaves.IoNode.{choose_io_node}
use sector_sphere.Master.{Master, World, Client, Sent, is_neg}
use sector_sphere.Master.Files.{exists, routed}
use sector_sphere.Master.Open.{open_path, open_new, set_up, hint_of}
use sector_sphere.Master.Opened.{IsOpened, set_up-IsOpened}

module _ (w : World) (c : Client) (mode dataport : ℕ) (hintip path : Text) (m : Master) where
  -- A user who may write a path that is missing from the metadata but has a writer among its locks, as after the file
  -- has been removed while it was open, gets the file opened if there is a slave for it: with a transaction and orders like any
  -- other, but without the lock, since every path has the locks that it had.
  pub open_path_unlocked :
      (slaves : SlaveManager) (addr : List SlaveNode) (n : ℕ)
      → Ledger.IsValid m.trans
      → routed w path m ≡ true
      → match path mode c.user ≡ true
      → exists path m ≡ false
      → writes mode ≡ true
      → is_neg (lock path c.key mode m.locks).1 ≡ true
      → choose_io_node w.inet_pton w.coin w.first w.picks w.blank []
          (hint_of c hintip)
          mode
          []
          m.replica_num
          m.slaves
        ≡ some (slaves, (addr, n))
      → (n == 0) ≡ false
      → (m' : Master) × ((sent : List Sent) × (open_path w c mode dataport hintip path m
            ≡ some (m', sent))
          × IsOpened c mode dataport path m m' sent
          × ((q : Text) → lock_of q m'.locks ≡ lock_of q m.locks))
  unfolding open_path open_new
  open_path_unlocked slaves addr n v r a x f l e g =
      let m' : Master = record m {
        slaves = slaves;
        metadata = (create path false m.metadata).0;
        locks = (lock path c.key mode m.locks).0;
      } in
      let s = set_up w c mode dataport path 0 addr m' in
      (
        s.0,
        (
          s.1,
          rw (open_path, r, a, x, open_new, f, e, g) refl,
          set_up-IsOpened w c mode dataport path 0 addr m m' v refl refl (rw x refl),
          λ q. unfold set_up in ground (arith, l, lock_cases path q c.key mode m.locks),
        ),
      )
