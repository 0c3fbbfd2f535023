-- ===== src/Tasks/Election/Cluster/Invariant.antt =====
-- The invariant of an election, and that every step keeps it.
use arcana_cloud_nodejs.Base.{
  ℕ, ◌+◌, ◌≤◌, ◌<◌, String, ◌≡◌, refl, ◌∙◌, sym, ap, true, false, some, ◌⊎◌, inl, inr, arith, ◌==◌,
  ==_iff, Bool-cases, lt→ltb,
}
use arcana_cloud_nodejs.Base.Exec.{Exec, ok}
use arcana_cloud_nodejs.Tasks.Redis.{Redis, IsRedis}
use arcana_cloud_nodejs.Tasks.Election.{Office, try_become_leader, start, stop, renew_lock}
use arcana_cloud_nodejs.Tasks.Election.Ticks.{
  Effect, Change, tick-Change, renew-Change, stop-Change,
}
use arcana_cloud_nodejs.Tasks.Election.Cluster.{
  Cluster, update, lease_of, office, put, run, dead, Step, starts, ticks, renews, stops, crashes,
  waits, Reach, here, next,
}
use arcana_cloud_nodejs.Tasks.Election.Cluster.Entries.{
  leased_self, leased_other, bounded_after, unexpired,
}

module _ {R : Type 0} (redis : Redis R) (lawful : IsRedis redis) where
  -- All instances take part in one election, with the same TTL and lock values of their own.
  pub record IsSafe (key : String) (ttl : ℕ) (value : ℕ → String) (c : Cluster R) : Type 0 where
    pub keys : (i : ℕ) → (c.nodes i).lock.lock_key ≡ key
    pub values : (i : ℕ) → (c.nodes i).lock.lock_value ≡ value i
    pub ttls : (i : ℕ) → (c.nodes i).lock.ttl_ms ≡ ttl
    pub leased :
        (i : ℕ)
        → (c.nodes i).is_leader ≡ true
        → redis.clock c.server < c.lease i
        → redis.entry key c.server ≡ some (value i, c.lease i)
    pub bounded :
        (v : String) (e : ℕ)
        → redis.entry key c.server ≡ some (v, e)
        → e ≤ redis.clock c.server + ttl

  module _ (key : String) (ttl : ℕ) (value : ℕ → String) (c : Cluster R) where
    module _ (i : ℕ) (o' : Office R) (h : IsSafe key ttl value c)
        (ch : Change redis lawful (office redis c i) o') where
      Effect-at :
          Effect
            (value i)
            (redis.clock c.server + ttl)
            (redis.entry key c.server)
            (redis.entry key o'.server)
      Effect-at = rw (h.keys i, h.values i, h.ttls i) at ch.effect

      leading_at :
          o'.node.is_leader ≡ true
          → (redis.entry key o'.server ≡ some (value i, redis.clock c.server + ttl))
            ⊎ (((c.nodes i).is_leader ≡ true)
                × (redis.entry key o'.server ≡ redis.entry key c.server))
      leading_at = rw (h.keys i, h.values i, h.ttls i) at ch.leading

      leased_at :
          o'.node.is_leader ≡ true
          → redis.clock o'.server < lease_of (redis.entry key o'.server) (value i) (c.lease i)
          → redis.entry key o'.server
            ≡ some (value i, lease_of (redis.entry key o'.server) (value i) (c.lease i))
      leased_at leads live =
          leased_self (value i) (c.lease i) (redis.clock o'.server) _ (redis.entry key c.server) _
            (leading_at leads) (λ led k. h.leased i led (rw ch.same_clock at k)) live

    -- An action of one instance keeps the invariant.
    put-IsSafe :
        ((i j : ℕ) → value i ≡ value j → i ≡ j)
        → (i : ℕ) (o' : Office R) → IsSafe key ttl value c
        → Change redis lawful (office redis c i) o'
        → IsSafe key ttl value (put redis c i o')
    put-IsSafe distinct i o' h ch = record {
      keys = λ j. ground (arith, ch.same_key, h.keys i, h.keys j);
      values = λ j. elim (Bool-cases (i == j)) [
        | inl same ↦ rw same (ch.same_value ∙ h.values i ∙ ap value ((==_iff i j).0 same))
        | inr other ↦ rw other (h.values j)
      ];
      ttls = λ j. ground (arith, ch.same_ttl, h.ttls i, h.ttls j);
      leased = λ j. elim (Bool-cases (i == j)) [
        | inl same ↦
            rw (same, h.keys i, h.values i, ← ap value ((==_iff i j).0 same)) (leased_at i o' h ch)
        | inr other ↦ rw other (λ leads live.
            leased_other (value j) (c.lease j) (Effect-at i o' h ch) (λ e. absurd (apart j other e))
              (h.leased j leads (rw (sym ch.same_clock) live)))
      ];
      bounded = λ v e k. rw ch.same_clock (bounded_after (Effect-at i o' h ch) h.bounded v e k);
    }
      where
        apart : (j : ℕ) → (i == j) ≡ false → value i ≡ value j → ⊥
        apart j other e = ground (arith, distinct i j e)

    run-IsSafe :
        ((i j : ℕ) → value i ≡ value j → i ≡ j)
        → (i : ℕ) {o' : Office R} (m : Exec (Office R) (Unit {0})) → IsSafe key ttl value c
        → m (office redis c i) ≡ ok tt o'
        → Change redis lawful (office redis c i) o'
        → IsSafe key ttl value (run redis c i m)
    run-IsSafe distinct i {o'} m h returns ch = rw returns (put-IsSafe distinct i o' h ch)

    crash-IsSafe :
        (i : ℕ)
        → IsSafe key ttl value c
        → IsSafe key ttl value (record c { nodes = update c.nodes i (dead (c.nodes i)) })
    crash-IsSafe i h = record {
      keys = λ j. ground (arith, h.keys i, h.keys j);
      values = λ j. elim (Bool-cases (i == j)) [
        | inl same ↦ rw same (h.values i ∙ ap value ((==_iff i j).0 same))
        | inr other ↦ rw other (h.values j)
      ];
      ttls = λ j. ground (arith, h.ttls i, h.ttls j);
      leased = λ j. elim (Bool-cases (i == j)) [
        | inl same ↦ rw same (λ leads live. cc)
        | inr other ↦ rw other (h.leased j)
      ];
      bounded = h.bounded;
    }

    wait-IsSafe :
        (d : ℕ)
        → IsSafe key ttl value c
        → IsSafe key ttl value (record c { server = redis.wait d c.server })
    wait-IsSafe d h = record {
      keys = h.keys;
      values = h.values;
      ttls = h.ttls;
      leased = λ j leads live.
          let later : redis.clock c.server + d < c.lease j = rw lawful.clock-wait at live in
          rw (lawful.entry-wait, h.leased j leads (omega arith), lt→ltb _ _ later) refl;
      bounded = λ v e k.
          let before : redis.entry key c.server ≡ some (v, e) =
            unexpired _ (redis.entry key c.server) (rw lawful.entry-wait at k) in
          rw lawful.clock-wait (omega (arith, h.bounded v e before));
    }

  module _ (key : String) (ttl : ℕ) (value : ℕ → String) (p : 0 < ttl)
      (distinct : (i j : ℕ) → value i ≡ value j → i ≡ j) where
    start-Change :
        (o : Office R)
        → 0 < o.node.lock.ttl_ms
        → (o' : Office R) × (start redis true o ≡ ok tt o') × Change redis lawful o o'
    unfolding start
    start-Change o pos =
        let (o', returns, ch, leads) = tick-Change redis lawful o pos in
        (
          record o' { node = record o'.node { electing = true } },
          ground (arith, returns),
          record {
            same_clock = ch.same_clock;
            same_key = ch.same_key;
            same_value = ch.same_value;
            same_ttl = ch.same_ttl;
            effect = ch.effect;
            leading = ch.leading;
          },
        )

    -- Every step keeps the invariant.
    pub Step-IsSafe :
        {c d : Cluster R} → Step redis c d → IsSafe key ttl value c → IsSafe key ttl value d
    Step-IsSafe {c} (starts i) h =
        let (o', returns, ch) = start-Change (office redis c i) (rw (h.ttls i) p) in
        run-IsSafe key ttl value c distinct i (start redis true) h returns ch
    Step-IsSafe {c} (ticks i on) h =
        let (o', returns, ch, _) = tick-Change redis lawful (office redis c i) (rw (h.ttls i) p) in
        run-IsSafe key ttl value c distinct i (try_become_leader redis true) h returns ch
    Step-IsSafe {c} (renews i on) h =
        let (o', returns, ch) = renew-Change redis lawful (office redis c i) (rw (h.ttls i) p) in
        run-IsSafe key ttl value c distinct i (renew_lock redis true) h returns ch
    Step-IsSafe {c} (stops i) h =
        let (o', returns, ch, _, _) = stop-Change redis lawful (office redis c i) in
        run-IsSafe key ttl value c distinct i (stop redis true) h returns ch
    Step-IsSafe {c} (crashes i) h = crash-IsSafe key ttl value c i h
    Step-IsSafe {c} (waits d) h = wait-IsSafe key ttl value c d h

    pub Reach-IsSafe :
        {c d : Cluster R} → Reach redis c d → IsSafe key ttl value c → IsSafe key ttl value d
    Reach-IsSafe here h = h
    Reach-IsSafe (next r s) h = Step-IsSafe s (Reach-IsSafe r h)
