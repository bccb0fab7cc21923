-- ===== src/Index/Edit/Order.antt =====
-- Every operation of common/index.cpp that changes the tree keeps it ordered.
use sector_sphere.Base.{
  ◌≡◌, refl, ℕ, Text, Bool, true, false, Option, none, some, List, [], ◌∷◌, arith, if◌then◌else◌,
  is_empty, Option-cases, inl, inr, pos, negsuc, ℤ,
}
use sector_sphere.Meta.{parse_path}
use sector_sphere.Address.{Address, addr_key}
use sector_sphere.Index.Tree.{Attr, nil, SNode, find}
use sector_sphere.Index.Tree.Order.{IsOrdered, put-IsOrdered, erase-IsOrdered, find-IsOrdered}
use sector_sphere.Index.Walk.{locate, modify, ensure, fresh, last_name}
use sector_sphere.Index.Edit.Remove.{remove_in-cut}
use sector_sphere.Index.Edit.{
  create, utime, remove, remove_in, update, update_in, move, move_node, graft, cut, with_child,
  with_name, with_time, e_invalid,
}

abbrev pub Keeps : (SNode → SNode) → Type 0
Keeps f = (s : SNode) → IsOrdered s.directory → IsOrdered (f s).directory

pub modify-IsOrdered :
    (f : SNode → SNode) (p : List Text) (s : SNode)
    → Keeps f
    → IsOrdered s.directory
    → IsOrdered (modify f p s).directory
unfolding modify
modify-IsOrdered f [] s k o = k s o
modify-IsOrdered f (n ∷ p) s k o = elim (Option-cases (find n s.directory)) [
  | inl e ↦ rw (e, modify) o
  | inr (c, e) ↦
      rw (e, modify)
        (put-IsOrdered n (modify f p c) s.directory
          (modify-IsOrdered f p c k (find-IsOrdered n s.directory c o e)) o)
]

ensure-IsOrdered :
    (p : List Text) (s : SNode) → IsOrdered s.directory → IsOrdered (ensure p s).0.directory
unfolding ensure
ensure-IsOrdered [] s o = o
ensure-IsOrdered (n ∷ p) s o = elim (Option-cases (find n s.directory)) [
  | inl e ↦ rw (e, ensure) (put-IsOrdered n _ s.directory (ensure-IsOrdered p (fresh n 0) tt) o)
  | inr (c, e) ↦
      rw (e, ensure)
        (put-IsOrdered n _ s.directory (ensure-IsOrdered p c (find-IsOrdered n s.directory c o e))
          o)
]

cut-IsOrdered : (p : List Text) → Keeps (cut p)
unfolding cut
cut-IsOrdered [] s o = o
cut-IsOrdered (n ∷ []) s o = erase-IsOrdered n s.directory o
cut-IsOrdered (n ∷ m ∷ p) s o = elim (Option-cases (find n s.directory)) [
  | inl e ↦ rw (e, cut) o
  | inr (c, e) ↦
      rw (e, cut)
        (put-IsOrdered n _ s.directory
          (cut-IsOrdered (m ∷ p) c (find-IsOrdered n s.directory c o e)) o)
]

locate-IsOrdered :
    (p : List Text) (s c : SNode)
    → IsOrdered s.directory
    → locate p s ≡ some c
    → IsOrdered c.directory
unfolding locate
locate-IsOrdered [] s c o h = ground arith
locate-IsOrdered (n ∷ p) s c o h = elim (Option-cases (find n s.directory)) [
  | inl e ↦ ground arith
  | inr (d, e) ↦ locate-IsOrdered p d c (find-IsOrdered n s.directory d o e) (ground arith)
]

update_in-IsOrdered :
    (sn : Attr) (loc : Address) (type : ℕ) (p : List Text) (s : SNode)
    → IsOrdered s.directory
    → IsOrdered (update_in sn loc type p s).0.directory
unfolding update_in
update_in-IsOrdered sn loc type [] s o = o
update_in-IsOrdered sn loc type (n ∷ []) s o = elim (Option-cases (find n s.directory)) [
  | inl e ↦
      rw (e, update_in)
        (let new : SNode = record { attr = record sn { name = n }; directory = nil } in
          ground (arith, put-IsOrdered n new s.directory tt o))
  | inr (c, e) ↦
      rw (e, update_in) (put-IsOrdered n _ s.directory (find-IsOrdered n s.directory c o e) o)
]
update_in-IsOrdered sn loc type (n ∷ m ∷ p) s o = elim (Option-cases (find n s.directory)) [
  | inl e ↦
      let r = update_in sn loc type (m ∷ p) (fresh n sn.time_stamp) in
      let h = update_in-IsOrdered sn loc type (m ∷ p) (fresh n sn.time_stamp) tt in
      rw (e, update_in) (ground (arith, put-IsOrdered n r.0 s.directory h o))
  | inr (c, e) ↦
      rw (e, update_in)
        (put-IsOrdered n _ s.directory
          (update_in-IsOrdered sn loc type (m ∷ p) (with_time sn.time_stamp c)
            (find-IsOrdered n s.directory c o e))
          o)
]

remove_in-IsOrdered :
    (recursive : Bool) (p : List Text) (s r : SNode)
    → IsOrdered s.directory
    → remove_in recursive p s ≡ some r
    → IsOrdered r.directory
remove_in-IsOrdered recursive [] s r o h = unfold remove_in in cc
remove_in-IsOrdered recursive (n ∷ p) s r o h =
    ground (arith, remove_in-cut recursive n p s, cut-IsOrdered (n ∷ p) s o)

graft-IsOrdered :
    (p : List Text) (name : Text) (c : SNode) → IsOrdered c.directory → Keeps (graft p name c)
unfolding graft
graft-IsOrdered p name c k s o =
    modify-IsOrdered (λ t. with_child name t c) p s (λ t h. put-IsOrdered name c t.directory k h) o

move_node-IsOrdered : (old new : List Text) (newname : Text) → Keeps (move_node old new newname)
unfolding move_node
move_node-IsOrdered old new newname s o = elim (Option-cases (locate old s)) [
  | inl e ↦ rw (e, move_node) o
  | inr (c, e) ↦ rw (e, move_node) (moved newname c (locate-IsOrdered old s c o e))
]
  where
    moved :
        (newname : Text) (c : SNode)
        → IsOrdered c.directory
        → IsOrdered
            (if is_empty newname
              then cut old (graft new (last_name [] old) c s)
              else cut old (
                  graft new newname
                    (with_name newname c)
                    (modify (with_name newname) old s))).directory
    moved [] c k = cut-IsOrdered old _ (graft-IsOrdered new (last_name [] old) c k s o)
    moved (l ∷ name) c k = cut-IsOrdered old _ (
        graft-IsOrdered new (l ∷ name) (with_name (l ∷ name) c) k
          (modify (with_name (l ∷ name)) old s)
          (modify-IsOrdered (with_name (l ∷ name)) old s (λ t h. h) o))

-- A call of the index that may change it.
pub data Call : Type 0 where
  creates : Text → Bool → Call
  moves : Text → Text → Text → Call
  removes : Text → Bool → Call
  updates : Attr → Address → ℕ → Call
  utimes : Text → ℕ → Call

unfoldable pub apply : Call → SNode → SNode
apply (creates path isdir) root = (create path isdir root).0
apply (moves oldpath newpath newname) root = (move oldpath newpath newname root).0
apply (removes path recursive) root = (remove path recursive root).0
apply (updates fileinfo loc type) root = (update fileinfo loc type root).0
apply (utimes path ts) root = (utime path ts root).0

removed :
    (s : SNode) (x : Option SNode) (given : Bool)
    → IsOrdered s.directory
    → ((r : SNode) → x ≡ some r → IsOrdered r.directory)
    → IsOrdered
        (if◌then◌else◌ {A = SNode × ℤ} given
          (s, e_invalid)
          (elim x [ none ↦ (s, negsuc 0) | some r ↦ (r, pos 0) ])).0.directory
removed s x true o h = o
removed s none false o h = o
removed s (some r) false o h = h r refl

pub apply-IsOrdered : (c : Call) → Keeps (apply c)
unfolding apply create move remove update utime
apply-IsOrdered (creates path isdir) s o =
    let dir = parse_path path in
    let k = ensure-IsOrdered dir s o in
    ground (
      arith,
      o,
      k,
      modify-IsOrdered (λ t. record t { attr = record t.attr { is_dir = isdir } }) dir
          (ensure dir s).0 (λ t h. h) k,
    )
apply-IsOrdered (moves oldpath newpath newname) s o =
    let new = parse_path newpath in
    ground (
      arith,
      o,
      move_node-IsOrdered (parse_path oldpath) new newname (ensure new s).0
          (ensure-IsOrdered new s o),
    )
apply-IsOrdered (removes path recursive) s o =
    removed s (remove_in recursive (parse_path path) s) (is_empty (parse_path path)) o
      (λ r h. remove_in-IsOrdered recursive (parse_path path) s r o h)
apply-IsOrdered (updates fileinfo loc type) s o =
    update_in-IsOrdered _ loc type (parse_path fileinfo.name) s o
apply-IsOrdered (utimes path ts) s o =
    ground (arith, o, modify-IsOrdered (with_time ts) (parse_path path) s (λ t h. h) o)

unfoldable pub run : List Call → SNode → SNode
run [] root = root
run (c ∷ cs) root = run cs (apply c root)

-- Whatever calls are made, failing ones included, an ordered index stays ordered at every level.
pub run-IsOrdered :
    (cs : List Call) (root : SNode) → IsOrdered root.directory → IsOrdered (run cs root).directory
unfolding run
run-IsOrdered [] root o = o
run-IsOrdered (c ∷ cs) root o = run-IsOrdered cs (apply c root) (apply-IsOrdered c root o)
