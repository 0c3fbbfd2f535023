-- ===== src/Accounts/Platform.antt =====
-- What the services use beside the tables: jsonwebtoken, bcrypt, uuid, the settings, and the bus that
-- `getEventBus()` answers.
use Prim.Native.String.{◌++◌ as concat}
use arcana_cloud_nodejs.Base.{ℕ, String, ◌≡◌, Bool, Option, none, some}
use arcana_cloud_nodejs.Base.Exec.{Exec, err, after}
use arcana_cloud_nodejs.Errors.{Throwable, plain}
use arcana_cloud_nodejs.Events.Domain.{DomainEvent, Payload, create_event, type_name, type_of}
use arcana_cloud_nodejs.Accounts.Models.{UserRole}
use arcana_cloud_nodejs.Accounts.Prisma.{Prisma}

pub data TokenKind : Type 0 where
  access refresh : TokenKind

-- `iat` and `exp` are of the library alone.
pub record JwtPayload : Type 0 where
  pub user_id : ℕ
  pub username : String
  pub email : String
  pub role : UserRole
  pub token_type : TokenKind
  pub jti : String

pub record Platform (W : Type 0) : Type 0 where
  -- `config.jwt`
  pub access_expires_in_seconds : ℕ
  pub refresh_expires_in_seconds : ℕ
  -- `jwt.sign` for a number of seconds, and `jwt.verify`, at the time of the world
  pub sign : JwtPayload → ℕ → W → String
  pub verify : String → W → Option JwtPayload
  -- `bcrypt.compare` and `bcrypt.hash`
  pub compare : String → Option String → Exec W Bool
  pub hash : String → ℕ → Exec W String
  pub uuid : W → String × W
  -- `getEventBus().publish`
  pub publish : DomainEvent Payload → Exec W (Unit {0})
  -- the formats of zod, and the text of its error
  pub is_email : String → Bool
  pub is_ip : String → Bool
  pub issues : Payload → String

-- These leave the token table alone.
pub record IsQuiet {W : Type 0} (prisma : Prisma W) (platform : Platform W) : Type 0 where
  pub compare_quiet :
      (p : String) (h : Option String) (w : W)
      → prisma.tokens (after (platform.compare p h w)) ≡ prisma.tokens w
  pub hash_quiet :
      (p : String) (n : ℕ) (w : W) → prisma.tokens (after (platform.hash p n w)) ≡ prisma.tokens w
  pub uuid_quiet : (w : W) → prisma.tokens (platform.uuid w).1 ≡ prisma.tokens w
  pub publish_quiet :
      (e : DomainEvent Payload) (w : W)
      → prisma.tokens (after (platform.publish e w)) ≡ prisma.tokens w

abbrev pub rejection : {W : Type 0} → Platform W → Payload → Throwable
rejection platform p = plain (
    concat "Event validation failed for "
      (concat (type_name (type_of p)) (concat ": " (platform.issues p))))

module _ {W : Type 0} (prisma : Prisma W) (platform : Platform W) where
  -- `await getEventBus().publish(Events.…(payload))`
  unfoldable pub emit : Payload → Exec W (Unit {0})
  emit p w =
      let (id, w') = platform.uuid w in
      elim (create_event platform.is_email platform.is_ip id (prisma.now w') p) [
        | some event ↦ platform.publish event w'
        | none ↦ err (rejection platform p) w
      ]
