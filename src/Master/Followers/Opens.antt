-- ===== src/Master/Followers/Opens.antt =====
-- Opening a file that exists tells the other masters nothing, and changes no metadata.
use sector_sphere.Base.{◌≡◌, refl, ℕ, Text, some, List, [], ◌∷◌, inl, inr, Bool-cases, Option-cases}
use sector_sphere.Address.{Address}
use sector_sphere.Trans
use sector_sphere.Trans.{TransManager}
use sector_sphere.Slaves.{SlaveNode}
use sector_sphere.Slaves.IoNode.{choose_io_node_of}
use sector_sphere.Meta.{lock}
use sector_sphere.Master.{Master, World, Client, to_client, Order, is_neg, e_busy, opened}
use sector_sphere.Master.Files.{attr_of}
use sector_sphere.Master.Open.{chain, set_up, open_old, hint_of, first_order}
use sector_sphere.Master.Followers.{
  received, apply_all, IsFollowed, received-append, reject-IsFollowed,
}

chain_told :
    (k : ℕ) (w : World) (mode : ℕ) (client : Address) (addr : List SlaveNode) (o : Order)
    (tm : TransManager)
    → received k (chain w mode client o addr tm).0 ≡ []
unfolding chain received
chain_told k w mode client [] o tm = refl
chain_told k w mode client (s ∷ addr) o tm = elim (Bool-cases (w.answers s)) [
  | inl e ↦ rw e (chain_told k w mode client addr _ _)
  | inr e ↦ rw e (chain_told k w mode client addr _ _)
]

-- Opening a file changes no metadata behind the point where it is there.
set_up-IsFollowed :
    (k : ℕ) (w : World) (c : Client) (mode dataport : ℕ) (path : Text) (size : ℕ)
    (addr : List SlaveNode) (m m' : Master)
    → m.metadata ≡ m'.metadata
    → IsFollowed k m (some (set_up w c mode dataport path size addr m'))
unfolding set_up apply_all
set_up-IsFollowed k w c mode dataport path size addr m m' e =
    let t = Trans.create 0 c.key 110 path mode w.now m'.trans in
    let r =
      chain w mode (record { ip = c.ip; port = dataport }) (first_order c mode t.1 path) addr t.0 in
    rw
      (
        received-append k r.0 (to_client (opened r.1.1 t.1 size) ∷ []),
        chain_told k w mode (record { ip = c.ip; port = dataport }) addr
            (first_order c mode t.1 path) t.0,
      )
      (unfold received in e)

pub open_old-IsFollowed :
    (k : ℕ) (w : World) (c : Client) (mode dataport : ℕ) (hintip path : Text) (m : Master)
    → IsFollowed k m (open_old w c mode dataport hintip path m)
unfolding open_old
open_old-IsFollowed k w c mode dataport hintip path m =
    elim (Bool-cases (is_neg (lock path c.key mode m.locks).1)) [
      | inl e ↦ rw (open_old, e) (reject-IsFollowed k e_busy m)
      | inr e ↦
          elim (Option-cases (
            choose_io_node_of w.inet_pton w.coin w.first w.picks w.blank (attr_of path m).location
              (hint_of c hintip) mode [] m.replica_num m.slaves)) [
                | inl f ↦ rw (open_old, e, f) tt
                | inr ((slaves, (addr, n)), f) ↦
                    rw (open_old, e, f)
                      (set_up-IsFollowed k w c mode dataport path (attr_of path m).size addr m
                        (record m { slaves = slaves; locks = (lock path c.key mode m.locks).0 })
                        refl)
              ]
    ]
