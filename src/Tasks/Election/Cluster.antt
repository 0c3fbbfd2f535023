-- ===== src/Tasks/Election/Cluster.antt =====
-- Several instances of the program in one election: every interleaving of their ticks, renewals,
-- starts, stops and crashes with the passing of time. `lease` is not part of the program: it is the
-- time up to which the last command of an instance has secured the key for it.
mod Entries
mod Invariant
pub mod Safety
use arcana_cloud_nodejs.Base.{
  ℕ, String, ◌≡◌, Bool, true, false, Option, none, some, ◌==◌, str_eq, if◌then◌else◌,
}
use arcana_cloud_nodejs.Base.Exec.{Exec, after}
use arcana_cloud_nodejs.Tasks.Redis.{Redis}
use arcana_cloud_nodejs.Tasks.Election.{
  LeaderElection, Office, try_become_leader, start, stop, renew_lock,
}

pub record Cluster (R : Type 0) : Type 0 where
  pub server : R
  pub nodes : ℕ → LeaderElection
  pub lease : ℕ → ℕ

abbrev pub update {ℓ} : {A : Type ℓ} → (ℕ → A) → ℕ → A → ℕ → A
update f i a j = if i == j then a else f j

abbrev pub lease_of : Option (String × ℕ) → String → ℕ → ℕ
lease_of none own old = old
lease_of (some (v, e)) own old = if str_eq v own then e else old

-- the instance ends without a call of `stop`
abbrev pub dead : LeaderElection → LeaderElection
dead n = record n { is_leader = false; electing = false; lock = record n.lock { renewing = false } }

module _ {R : Type 0} (redis : Redis R) where
  abbrev pub office : Cluster R → ℕ → Office R
  office c i = record { node = c.nodes i; server = c.server }

  abbrev pub put : Cluster R → ℕ → Office R → Cluster R
  put c i o = record {
    server = o.server;
    nodes = update c.nodes i o.node;
    lease = update c.lease i (
        lease_of (redis.entry (c.nodes i).lock.lock_key o.server) (c.nodes i).lock.lock_value
          (c.lease i));
  }

  -- an action of instance `i`
  abbrev pub run : Cluster R → ℕ → Exec (Office R) (Unit {0}) → Cluster R
  run c i m = put c i (after (m (office c i)))

  pub data Step (c : Cluster R) : Cluster R → Type 0 where
    starts : (i : ℕ) → Step c (run c i (start redis true))
    ticks : (i : ℕ) → (c.nodes i).electing ≡ true → Step c (run c i (try_become_leader redis true))
    renews : (i : ℕ) → (c.nodes i).lock.renewing ≡ true → Step c (run c i (renew_lock redis true))
    -- the release and the loss of the leadership in one step, though the code awaits the release in between
    stops : (i : ℕ) → Step c (run c i (stop redis true))
    crashes : (i : ℕ) → Step c (record c { nodes = update c.nodes i (dead (c.nodes i)) })
    waits : (d : ℕ) → Step c (record c { server = redis.wait d c.server })

  pub data Reach (c : Cluster R) : Cluster R → Type 0 where
    here : Reach c c
    next : {d e : Cluster R} → Reach c d → Step d e → Reach c e
