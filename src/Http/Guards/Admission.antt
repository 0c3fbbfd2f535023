-- ===== src/Http/Guards/Admission.antt =====
-- Which requests pass the guards.
use arcana_cloud_nodejs.Base.{
  ℕ, String, ◌≡◌, sym, ◌∙◌, ap, Bool, true, none, some, List, All, inl, inr, Bool-cases,
}
use arcana_cloud_nodejs.Base.Exec.{Outcome, ok, err, ok_injective}
use arcana_cloud_nodejs.Errors.{Throwable}
use arcana_cloud_nodejs.Accounts.Models.{UserRole, UserPublic}
use arcana_cloud_nodejs.Accounts.Prisma.{Prisma, IsPrisma}
use arcana_cloud_nodejs.Accounts.Platform.{Platform, IsQuiet}
use arcana_cloud_nodejs.Accounts.Auth.{validate_token, logout}
use arcana_cloud_nodejs.Accounts.Auth.Logout.{AccessAt, has_access, validate_token-logout}
use arcana_cloud_nodejs.Http.Guards.{
  Request, Reply, request_user, bearer_token, includes, role_required, signed_in, with_token,
  token_required, then_role, guarded,
}

module _ {W : Type 0} (prisma : Prisma W) (platform : Platform W) where
  -- the answer of the guards, from the end of `validateToken`
  abbrev ending : List UserRole → Request → Outcome W UserPublic → Outcome W Reply
  ending roles req o = elim (signed_in prisma platform req o) as (λ x. Outcome W Reply) [
    | ok reply v ↦ ok (then_role prisma platform roles reply) v
    | err e v ↦ err e v
  ]

  guarded-eq :
      (roles : List UserRole) (req : Request) (token : String) (w : W)
      → bearer_token req.authorization ≡ some token
      → guarded prisma platform roles req w
        ≡ ending roles req (validate_token prisma platform token w)
  unfolding guarded token_required
  guarded-eq roles req token w h =
      ap
        (λ o. elim (with_token prisma platform req o w) as (λ x. Outcome W Reply) [
          | ok reply v ↦ ok (then_role prisma platform roles reply) v
          | err e v ↦ err e v
        ])
        h

  ending-admits :
      (roles : List UserRole) (req req' : Request) (o : Outcome W UserPublic) {v : W}
      → ending roles req o ≡ ok (req', none) v
      → (user : UserPublic) × (o ≡ ok user v)
        × (includes roles user.role ≡ true)
        × (req'.user ≡ some (request_user user))
  unfolding role_required
  ending-admits roles req req' (err e s) h = cc
  ending-admits roles req req' (ok user s) {v} h = elim (Bool-cases (includes roles user.role)) [
    | inl allowed ↦
        let (reply, last) = ok_injective (rw allowed at h) in
        (user, ap (ok user) last, allowed, ap (λ (x : Reply). x.0.user) (sym reply))
    | inr refused ↦
        let (reply, last) = ok_injective (rw refused at h) in
        let clash = ap (λ (x : Reply). x.1) reply in cc
  ]

  -- A request with a bearer token passes `tokenRequired` and `roleRequired` only if `validateToken`
  -- accepts the token, for a user with an allowed role, and it goes on with that user.
  pub guarded_lem :
      (roles : List UserRole) (req req' : Request) (token : String) (w : W) {v : W}
      → bearer_token req.authorization ≡ some token
      → guarded prisma platform roles req w ≡ ok (req', none) v
      → (user : UserPublic) × (validate_token prisma platform token w ≡ ok user v)
        × (includes roles user.role ≡ true)
        × (req'.user ≡ some (request_user user))
  guarded_lem roles req req' token w bears h =
      ending-admits roles req req' (validate_token prisma platform token w)
        (sym (guarded-eq roles req token w bears) ∙ h)

  -- On a database that meets `IsPrisma`, with a platform that leaves the token table alone: after a
  -- logout that returned, a request with the access token goes on to the error handler as it came,
  -- whatever roles the route allows, if the token had a row and no two.
  pub guarded-logout :
      (lawful : IsPrisma prisma) (quiet : IsQuiet prisma platform) (roles : List UserRole)
      (req : Request) (token : String) (i : ℕ) (w : W) {b : Bool} {v : W}
      → bearer_token req.authorization ≡ some token
      → has_access token (prisma.tokens w) ≡ true
      → All (AccessAt token i) (prisma.tokens w)
      → logout prisma platform token w ≡ ok b v
      → (e : Throwable) × (u : W) × (guarded prisma platform roles req v ≡ ok (req, some e) u)
  guarded-logout lawful quiet roles req token i w {b} {v} bears there only h =
      let (e, u, refused) =
        validate_token-logout prisma platform lawful quiet token i w there only h in
      (e, u, guarded-eq roles req token v bears ∙ ap (ending roles req) refused)
