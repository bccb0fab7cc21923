-- ===== src/Master/Guards.antt =====
-- The tests at the head of the requests, for any property of an outcome that every rejection has.
use sector_sphere.Base.{
  ℤ, Text, Bool, true, false, not, ◌&&◌, Option-cases, inl, inr, ℕ, none, if◌then◌else◌,
}
use sector_sphere.User.{match}
use sector_sphere.Master.{Master, World, Client, Outcome, reject, sublevel_of}
use sector_sphere.Master.Files.{
  permit, permit_at, permit_two, routed, exists, missing_above, attr_of,
}

module _ (P : Outcome → Type 0) (m : Master) (r : (code : ℤ) → P (reject code m)) where
  pub rejects : (b : Bool) (code : ℤ) (o : Outcome) → P o → P (if b then reject code m else o)
  rejects true code o h = r code
  rejects false code o h = h

  pub permits :
      (w : World) (c : Client) (path : Text) (rwx : ℕ) (go : Outcome)
      → P go
      → P (permit w c path rwx m go)
  permits w c path rwx go h =
      rejects (not (routed w path m)) _ _ (rejects (not (match path rwx c.user)) _ go h)

  permits_at :
      (w : World) (c : Client) (src dst uplevel sublevel : Text) (go : Outcome)
      → P go
      → P (permit_at w c src dst uplevel sublevel m go)
  permits_at w c src dst uplevel sublevel go h = rejects (not (routed w src m)) _ _ (
      rejects (missing_above uplevel m) _ _ (
        rejects (exists sublevel m) _ _ (
          rejects (not (match src 1 c.user)) _ _ (
            rejects (not (match dst 2 c.user)) _ _ (
              rejects (not (exists src m)) _ _
                (rejects (exists dst m && not (attr_of dst m).is_dir) _ go h))))))

  pub permits_two :
      (w : World) (c : Client) (src dst uplevel : Text) (go : Outcome)
      → P none
      → P go
      → P (permit_two w c src dst uplevel m go)
  permits_two w c src dst uplevel go n h = elim (Option-cases (sublevel_of src dst)) [
    | inl e ↦ rw (permit_two, e) n
    | inr (s, e) ↦ rw (permit_two, e) (permits_at w c src dst uplevel s go h)
  ]
