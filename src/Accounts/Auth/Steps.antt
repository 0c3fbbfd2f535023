-- ===== src/Accounts/Auth/Steps.antt =====
-- What the steps of the service leave true of the token table.
use arcana_cloud_nodejs.Base.{
  ℕ, ◌≡◌, refl, ◌∙◌, subst, Bool, true, false, Option, none, some, List, [], ◌∷◌, ◌++◌, All, inl,
  inr, Bool-cases,
}
use arcana_cloud_nodejs.Base.Exec.{Outcome, ok, err, Exec, throw_if, after, ◌>>=◌, ◌>>◌}
use arcana_cloud_nodejs.Errors.{Throwable}
use arcana_cloud_nodejs.Events.Domain.{DomainEvent, Payload, create_event}
use arcana_cloud_nodejs.Accounts.Models.{OAuthToken}
use arcana_cloud_nodejs.Accounts.Prisma.{
  Prisma, Found, present, TokenFilter, matches, revoked_at, revoke_matching,
}
use arcana_cloud_nodejs.Accounts.Platform.{Platform, IsQuiet, emit, rejection}
use arcana_cloud_nodejs.Accounts.Auth.{required}

All-at :
    (P : OAuthToken → Type 0) (front rest : List OAuthToken) (t : OAuthToken)
    → All P (front ++ t ∷ rest)
    → P t
All-at P [] rest t (h, hs) = h
All-at P (x ∷ front) rest t (h, hs) = All-at P front rest t hs

-- A row that was found has what every row has.
pub All-Found :
    (P : OAuthToken → Type 0) {q : TokenFilter} {ts : List OAuthToken} {t : OAuthToken}
    → Found q ts (some t)
    → All P ts
    → P t
All-Found P (present front rest t same fits) h = All-at P front rest t (subst (All P) same h)

pub Found-matches :
    {q : TokenFilter} {ts : List OAuthToken} {t : OAuthToken}
    → Found q ts (some t)
    → matches q t ≡ true
Found-matches (present front rest t same fits) = fits

-- A revocation gives a property to all rows, if it gives it to those that it matches, and the others
-- have it.
pub revoke_matching-All :
    (P Q : OAuthToken → Type 0) (q : TokenFilter) (n : ℕ) (ts : List OAuthToken)
    → ((t : OAuthToken) → P t → matches q t ≡ true → Q (revoked_at n t))
    → ((t : OAuthToken) → P t → matches q t ≡ false → Q t)
    → All P ts
    → All Q (revoke_matching q n ts)
revoke_matching-All P Q q n [] hit miss h = tt
revoke_matching-All P Q q n (t ∷ ts) hit miss (h, hs) = elim (Bool-cases (matches q t)) [
  | inl fits ↦ rw fits (hit t h fits, revoke_matching-All P Q q n ts hit miss hs)
  | inr differs ↦ rw differs (miss t h differs, revoke_matching-All P Q q n ts hit miss hs)
]

module _ {W : Type 0} where
  -- What must have held where a block returned.
  pub throw_if-then :
      {A : Type 0} (b : Bool) (e : Throwable) (k : Exec W A) (w : W) {a : A} {v : W}
      → (throw_if b e >> k) w ≡ ok a v
      → (b ≡ false) × (k w ≡ ok a v)
  throw_if-then true e k w h = cc
  throw_if-then false e k w h = (refl, h)

  pub required-ok :
      {A : Type 0} (o : Option A) (e : Throwable) (w : W) {a : A} {v : W}
      → required o (λ s. err e s) w ≡ ok a v
      → (o ≡ some a) × (w ≡ v)
  required-ok none e w h = cc
  required-ok (some b) e w h = (cc h, cc h)

  pub required-then :
      {A B : Type 0} (o : Option A) (e : Throwable) (f : A → Exec W B) (w : W) {b : B} {v : W}
      → (required o (λ s. err e s) >>= f) w ≡ ok b v
      → (a : A) × (o ≡ some a) × (f a w ≡ ok b v)
  required-then none e f w h = cc
  required-then (some a) e f w h = (a, refl, h)

module _ {W : Type 0} (prisma : Prisma W) (platform : Platform W)
    (quiet : IsQuiet prisma platform) where
  -- An event leaves the token table alone, however its publication ends.
  pub emit-quiet :
      (p : Payload) (w : W) → prisma.tokens (after (emit prisma platform p w)) ≡ prisma.tokens w
  unfolding emit
  emit-quiet p w = sent (
      create_event platform.is_email platform.is_ip (platform.uuid w).0
        (prisma.now (platform.uuid w).1) p)
    where
      sent :
          (o : Option (DomainEvent Payload))
          → prisma.tokens (
              after (elim o as (λ x. Outcome W (Unit {0})) [
                | none ↦ err (rejection platform p) w
                | some event ↦ platform.publish event (platform.uuid w).1
              ]))
            ≡ prisma.tokens w
      sent none = refl
      sent (some event) = quiet.publish_quiet event (platform.uuid w).1 ∙ quiet.uuid_quiet w
