-- ===== src/Tasks/Lock.antt =====
-- `DistributedLock` and `withLock` of src/tasks/distributed-lock.ts. The process identifier, the time
-- and the random UUID of a lock's value are inputs; the interval timer is the flag `renewing`, and
-- a tick of it is `renew`.
pub mod Laws
use Prim.Native.String.{◌++◌}
use arcana_cloud_nodejs.Base.{
  ℕ, zero, suc, String, Bool, true, false, not, Option, none, some, ◌==◌, str_eq, if◌then◌else◌,
}
use arcana_cloud_nodejs.Base.Exec.{Outcome, ok, err, Exec, throw_if, ◌>>=◌, ◌>>◌}
use arcana_cloud_nodejs.Errors.{plain}
use arcana_cloud_nodejs.Tasks.Redis.{Redis}

pub record DistributedLock : Type 0 where
  pub name : String
  pub lock_key : String
  pub lock_value : String
  pub ttl_ms : ℕ
  pub renewing : Bool

-- `n || d` for a number that may be undefined
abbrev pub or_default : Option ℕ → ℕ → ℕ
or_default none d = d
or_default (some zero) d = d
or_default (some (suc n)) d = suc n

unfoldable pub new_lock : String → String → Option ℕ → DistributedLock
new_lock name lock_value ttl_ms = record {
  name = name;
  lock_key = "lock:" ++ name;
  lock_value = lock_value;
  ttl_ms = or_default ttl_ms 30000;
  renewing = false;
}

unfoldable pub start_renewal : DistributedLock → DistributedLock
start_renewal lock = record lock { renewing = true }

unfoldable pub stop_renewal : DistributedLock → DistributedLock
stop_renewal lock = record lock { renewing = false }

-- One process that holds a lock object, and the server.
pub record Session (R : Type 0) : Type 0 where
  pub lock : DistributedLock
  pub server : R

-- A test of `redis.call("get", KEYS[1]) == ARGV[1]`
abbrev pub holds : Option String → String → Bool
holds none v = false
holds (some w) v = str_eq w v

-- `configured` says whether `config.redisUrl` is set.
module _ {R : Type 0} (redis : Redis R) (configured : Bool) where
  pub get_redis {ℓ} : {S : Type ℓ} → Exec S (Unit {0})
  get_redis = throw_if (not configured) (plain "Redis required for distributed locking")

  -- The two scripts run on the server, each as one atomic command.
  unfoldable pub release_script : String → String → R → ℕ × R
  release_script key arg r = if holds (redis.get key r) arg then redis.del key r else (0, r)

  unfoldable pub extend_script : String → String → ℕ → R → ℕ × R
  extend_script key arg ttl r =
      if holds (redis.get key r) arg then redis.pexpire key ttl r else (0, r)

  unfoldable pub acquire : Exec (Session R) Bool
  unfolding get_redis start_renewal
  acquire = do
    get_redis
    λ s.
        let (done, r) = redis.set_px_nx s.lock.lock_key s.lock.lock_value s.lock.ttl_ms s.server in
        if done
        then ok true (record { lock = start_renewal s.lock; server = r })
        else ok false (record s { server = r })

  unfoldable pub release : Exec (Session R) Bool
  unfolding get_redis stop_renewal release_script
  release = do
    λ s. ok tt (record s { lock = stop_renewal s.lock })
    get_redis
    λ s.
        let (count, r) = release_script s.lock.lock_key s.lock.lock_value s.server in
        ok (count == 1) (record s { server = r })

  unfoldable pub extend : Option ℕ → Exec (Session R) Bool
  unfolding get_redis extend_script
  extend ttl_ms = do
    get_redis
    λ s.
        let new_ttl = or_default ttl_ms s.lock.ttl_ms in
        let (count, r) = extend_script s.lock.lock_key s.lock.lock_value new_ttl s.server in
        ok (count == 1) (record s { server = r })

  -- a tick of the interval that `startRenewal` sets
  unfoldable pub renew : Exec (Session R) (Unit {0})
  unfolding extend stop_renewal
  renew = do
    extended ← extend none
    λ s. ok tt (if extended then s else record s { lock = stop_renewal s.lock })

  -- What `finally { await lock.release() }` makes of the outcome of the block before it: a throw in
  -- `release` replaces it.
  finish {κ} : {T : Type κ} → Outcome R (Option T) → Outcome (Session R) Bool → Outcome R (Option T)
  finish (ok a r) (ok b s) = ok a s.server
  finish (err e r) (ok b s) = err e s.server
  finish o (err e s) = err e s.server

  -- `try { return await fn(); } finally { await lock.release(); }`
  unfoldable pub run_locked {κ} : {T : Type κ} → DistributedLock → Exec R T → Exec R (Option T)
  unfolding finish
  run_locked lock fn r = elim (fn r) [
    | ok a r' ↦ finish (ok (some a) r') (release (record { lock = lock; server = r' }))
    | err e r' ↦ finish (err e r') (release (record { lock = lock; server = r' }))
  ]

  -- The rounds of the loop of `withLock` that are left after this one come first.
  unfoldable pub attempt_lock {κ} :
      {T : Type κ} → ℕ → ℕ → DistributedLock → Exec R T → Exec R (Option T)
  attempt_lock zero wait_ms lock fn r = elim (acquire (record { lock = lock; server = r })) [
    | ok true s ↦ run_locked s.lock fn s.server
    | ok false s ↦ ok none s.server
    | err e s ↦ err e s.server
  ]
  attempt_lock (suc more) wait_ms lock fn r = elim (acquire (record { lock = lock; server = r })) [
    | ok true s ↦ run_locked s.lock fn s.server
    | ok false s ↦ attempt_lock more wait_ms lock fn (redis.wait wait_ms s.server)
    | err e s ↦ err e s.server
  ]

  unfoldable pub with_lock {κ} :
      {T : Type κ} → String → String → Exec R T → Option ℕ → Option ℕ → Option ℕ → Exec R (Option T)
  with_lock lock_name lock_value fn ttl_ms wait_ms retries =
      attempt_lock (or_default retries 0) (or_default wait_ms 1000)
        (new_lock lock_name lock_value ttl_ms) fn
