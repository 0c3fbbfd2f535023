-- ===== src/Tasks/Election/Cluster/Safety.antt =====
-- At most one instance leads on the strength of a lease that has not run out, and a leader that
-- stops renewing is succeeded.
use arcana_cloud_nodejs.Base.{ℕ, suc, ◌+◌, ◌≤◌, String, ◌≡◌, refl, true, false, none, some, arith}
use arcana_cloud_nodejs.Base.Exec.{ok}
use arcana_cloud_nodejs.Tasks.Redis.{Redis, IsRedis}
use arcana_cloud_nodejs.Tasks.Lock.{start_renewal}
use arcana_cloud_nodejs.Tasks.Election.{
  LeaderElection, Office, gain, new_election, try_become_leader,
}
use arcana_cloud_nodejs.Tasks.Election.Ticks.{tick-free}
use arcana_cloud_nodejs.Tasks.Election.Cluster.{Cluster, office, Reach}
use arcana_cloud_nodejs.Tasks.Election.Cluster.Entries.{run_out}
use arcana_cloud_nodejs.Tasks.Election.Cluster.Invariant.{IsSafe, Reach-IsSafe}

module _ {R : Type 0} (redis : Redis R) (lawful : IsRedis redis) where
  -- The instances before any of them has started.
  abbrev pub initial : (ℕ → LeaderElection) → R → Cluster R
  initial nodes r = record { server = r; nodes = nodes; lease = λ i. 0 }

  module _ (name : String) (ttl : ℕ) (value : ℕ → String) (r : R) where
    abbrev pub members : ℕ → LeaderElection
    members i = new_election name (value i) (some (suc ttl))

    initial-IsSafe :
        redis.entry (members 0).lock.lock_key r ≡ none
        → IsSafe redis lawful (members 0).lock.lock_key (suc ttl) value (initial members r)
    unfolding new_election
    initial-IsSafe h = record {
      keys = λ i. refl;
      values = λ i. refl;
      ttls = λ i. refl;
      leased = λ i leads live. cc;
      bounded = λ v e k. cc;
    }

    -- On a server that meets `IsRedis`, with distinct lock values, a positive TTL and no key at
    -- first: in any reachable state, if no command reaches the server for at least the TTL, whoever
    -- was leader before, the next tick of an instance that is not leader returns, makes it leader,
    -- and secures the key for it for a full TTL.
    pub failover :
        {c : Cluster R} (i d : ℕ)
        → ((i j : ℕ) → value i ≡ value j → i ≡ j)
        → redis.entry (members 0).lock.lock_key r ≡ none
        → Reach redis (initial members r) c
        → (c.nodes i).is_leader ≡ false
        → suc ttl ≤ d
        → (o : Office R) × (try_become_leader redis true
              (office redis (record c { server = redis.wait d c.server }) i)
            ≡ ok tt o)
          × (o.node.is_leader ≡ true)
          × (redis.entry (members 0).lock.lock_key o.server
              ≡ some (value i, redis.clock c.server + d + suc ttl))
    failover {c} i d distinct absent reach follows long =
        let h =
          Reach-IsSafe redis lawful (members 0).lock.lock_key (suc ttl) value (omega arith) distinct
            reach (initial-IsSafe absent) in
        let key = (members 0).lock.lock_key in
        let o = office redis (record c { server = redis.wait d c.server }) i in
        let gone : redis.entry key (redis.wait d c.server) ≡ none = rw lawful.entry-wait (
          run_out (redis.clock c.server + d) (redis.entry key c.server)
            (λ v e k. omega (arith, h.bounded v e k))) in
        let (r', returns, held, same) =
          tick-free redis lawful o (rw (h.ttls i) (omega arith)) follows (rw (h.keys i) gone) in
        (
          record { node = gain (record o.node { lock = start_renewal o.node.lock }); server = r' },
          returns,
          refl,
          secured r' held,
        )
      where
        secured :
            (r' : R)
            → redis.entry (c.nodes i).lock.lock_key r'
              ≡ some (
                (c.nodes i).lock.lock_value,
                redis.clock (redis.wait d c.server) + (c.nodes i).lock.ttl_ms,
              )
            → redis.entry (members 0).lock.lock_key r'
              ≡ some (value i, redis.clock c.server + d + suc ttl)
        secured r' held =
            let h =
              Reach-IsSafe redis lawful (members 0).lock.lock_key (suc ttl) value (omega arith)
                distinct reach (initial-IsSafe absent) in
            rw (h.keys i, h.values i, h.ttls i, lawful.clock-wait) at held
