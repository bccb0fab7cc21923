-- ===== src/Master/Followers.antt =====
-- Master::sync and Master::processSyncCmd: the other masters follow what one of them does.
pub mod Opens
pub mod Served
use sector_sphere.Base.{
  ◌≡◌, ◌⊎◌, refl, ap, ◌∙◌, sym, ℕ, ℤ, pos, negsuc, Text, Map, Bool, true, false, not, ◌&&◌, Option,
  none, some, List, [], ◌∷◌, ◌++◌, arith, inl, inr, Bool-cases, Option-cases, if◌then◌else◌, ◌==◌,
  ltb, is_some, ◌<◌,
}
use sector_sphere.Base.Maps
use sector_sphere.Base.Keys.{nat_key}
use sector_sphere.Address.{Address}
use sector_sphere.Index.Tree.{Attr, SNode}
use sector_sphere.Trans.{TransManager}
use sector_sphere.Routing.{get_num_of_masters}
use sector_sphere.Slaves.{SlaveNode}
use sector_sphere.User.{match}
use sector_sphere.Master.{
  Master, World, Client, FsRequest, Change, Sent, to_client, forward, relocate, order, replicate,
  start, sync, lost, Outcome, Reply, reject, sync_all, sync_many, forward_all, others, Order,
  sublevel_of,
}
use sector_sphere.Master.Sync.{apply}
use sector_sphere.Master.Files.{relocate_all}

-- What a message tells the master with a key.
unfoldable pub told : ℕ → Sent → List Change
told k (to_client r) = []
told k (forward a r) = []
told k (relocate a src uplevel newname) = []
told k (order a o) = []
told k (replicate a t ts src dst) = []
told k (start a t ip p d) = []
told k (sync al change) = if is_some (Maps.find k al) then change ∷ [] else []
told k (lost al sid) = []

unfoldable pub received : ℕ → List Sent → List Change
unfolding told
received k [] = []
received k (s ∷ l) = told k s ++ received k l

unfoldable pub apply_all : List Change → SNode → SNode
apply_all [] root = root
apply_all (change ∷ l) root = apply_all l (apply change root)

-- A master that handles what it is told comes from the old metadata to the new one.
abbrev pub IsFollowed : ℕ → Master → Outcome → Type 0
IsFollowed k m none = Unit
IsFollowed k m (some (m', sent)) = apply_all (received k sent) m.metadata ≡ m'.metadata

-- Another master that this one knows, beside itself.
pub record IsPeer (k : ℕ) (m : Master) : Type 0 where
  pub known : is_some (Maps.find k (others m.router_key m.routing.address_list)) ≡ true
  pub many : 1 < get_num_of_masters m.routing

pub received-append : (k : ℕ) (a b : List Sent) → received k (a ++ b) ≡ received k a ++ received k b
unfolding received
received-append k [] b = refl
received-append k (s ∷ a) b = rw (received-append k a b) (ground (arith))

pub received-forward_all :
    (k : ℕ) (r : FsRequest) (l : List Address) → received k (forward_all r l) ≡ []
unfolding received
received-forward_all k r [] = refl
received-forward_all k r (a ∷ l) = received-forward_all k r l

pub received-relocate_all :
    (k : ℕ) (src uplevel newname : Text) (l : List Address)
    → received k (relocate_all src uplevel newname l) ≡ []
unfolding received relocate_all
received-relocate_all k src uplevel newname [] = refl
received-relocate_all k src uplevel newname (a ∷ l) = received-relocate_all k src uplevel newname l

pub sync_many_told :
    (k : ℕ) (change : Change) (m : Master)
    → IsPeer k m
    → received k (sync_many change m) ≡ change ∷ []
unfolding received
sync_many_told k change m p = ground (arith, p.many, p.known)

pub sync_all_told :
    (k : ℕ) (change : Change) (m : Master)
    → IsPeer k m
    → received k (sync_all change m) ≡ change ∷ []
unfolding received
sync_all_told k change m p = ground (arith, p.known)

-- What stands before and behind the change that is synchronised tells other masters nothing.
pub many_told :
    (k : ℕ) (before : List Sent) (change : Change) (m : Master) (r : Reply)
    → IsPeer k m
    → received k before ≡ []
    → received k (before ++ (sync_many change m ++ to_client r ∷ [])) ≡ change ∷ []
many_told k before change m r p h =
    rw
      (
        received-append k before (sync_many change m ++ to_client r ∷ []),
        h,
        received-append k (sync_many change m) (to_client r ∷ []),
        sync_many_told k change m p,
      )
      (unfold received in refl)

pub all_told :
    (k : ℕ) (before : List Sent) (change : Change) (m : Master) (r : Reply)
    → IsPeer k m
    → received k before ≡ []
    → received k (before ++ (sync_all change m ++ to_client r ∷ [])) ≡ change ∷ []
all_told k before change m r p h =
    rw
      (
        received-append k before (sync_all change m ++ to_client r ∷ []),
        h,
        received-append k (sync_all change m) (to_client r ∷ []),
        sync_all_told k change m p,
      )
      (unfold received in refl)

pub reject-IsFollowed : (k : ℕ) (code : ℤ) (m : Master) → IsFollowed k m (reject code m)
unfolding received apply_all
reject-IsFollowed k code m = refl
