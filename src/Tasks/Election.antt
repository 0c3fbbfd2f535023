-- ===== src/Tasks/Election.antt =====
-- `LeaderElection` of src/tasks/distributed-lock.ts. The two callbacks are recorded in `notices`, in
-- the order of their calls; the interval of `start` is the flag `electing`.
pub mod Ticks
pub mod Cluster
use Prim.Native.String.{◌++◌ as concat}
use arcana_cloud_nodejs.Base.{
  ℕ, String, Bool, true, false, Option, none, List, [], ◌∷◌, ◌++◌, if◌then◌else◌,
}
use arcana_cloud_nodejs.Base.Exec.{Outcome, ok, err, Exec, ◌>>=◌, ◌>>◌}
use arcana_cloud_nodejs.Tasks.Redis.{Redis}
use arcana_cloud_nodejs.Tasks.Lock.{
  DistributedLock, Session, new_lock, acquire, release, extend, renew,
}

pub data Notice : Type 0 where
  became_leader lost_leadership : Notice

pub record LeaderElection : Type 0 where
  pub lock : DistributedLock
  pub is_leader : Bool
  pub electing : Bool
  pub notices : List Notice

unfoldable pub new_election : String → String → Option ℕ → LeaderElection
unfolding new_lock
new_election name lock_value ttl_ms = record {
  lock = new_lock (concat "leader:" name) lock_value ttl_ms;
  is_leader = false;
  electing = false;
  notices = [];
}

-- One instance of the program, and the server that it shares with the others.
pub record Office (R : Type 0) : Type 0 where
  pub node : LeaderElection
  pub server : R

abbrev pub gain : LeaderElection → LeaderElection
gain n = record n { is_leader = true; notices = n.notices ++ became_leader ∷ [] }

abbrev pub lose : LeaderElection → LeaderElection
lose n = record n { is_leader = false; notices = n.notices ++ lost_leadership ∷ [] }

module _ {R : Type 0} (redis : Redis R) (configured : Bool) where
  abbrev back {κ} : {A : Type κ} → LeaderElection → Outcome (Session R) A → Outcome (Office R) A
  back n (ok a s) = ok a (record { node = record n { lock = s.lock }; server = s.server })
  back n (err e s) = err e (record { node = record n { lock = s.lock }; server = s.server })

  -- a method of `this.lock`
  abbrev pub on_lock {κ} : {A : Type κ} → Exec (Session R) A → Exec (Office R) A
  on_lock m o = back o.node (m (record { lock = o.node.lock; server = o.server }))

  unfoldable pub try_become_leader : Exec (Office R) (Unit {0})
  try_become_leader o =
      if o.node.is_leader
      then (do
        extended ← on_lock (extend redis configured none)
        λ o. ok tt (if extended then o else record o { node = lose o.node }))
          o
      else (do
        acquired ← on_lock (acquire redis configured)
        λ o. ok tt (if acquired then record o { node = gain o.node } else o))
          o

  unfoldable pub start : Exec (Office R) (Unit {0})
  start = do try_become_leader; λ o. ok tt (record o { node = record o.node { electing = true } })

  unfoldable pub stop : Exec (Office R) (Unit {0})
  stop = do
    λ o. ok tt (record o { node = record o.node { electing = false } })
    λ o.
        if o.node.is_leader
        then (do
          released ← on_lock (release redis configured)
          λ o. ok tt (record o { node = lose o.node }))
            o
        else ok tt o

  -- a tick of the renewal interval of the lock
  unfoldable pub renew_lock : Exec (Office R) (Unit {0})
  renew_lock = on_lock (renew redis configured)

unfoldable pub get_is_leader : LeaderElection → Bool
get_is_leader n = n.is_leader
