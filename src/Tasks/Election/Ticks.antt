-- ===== src/Tasks/Election/Ticks.antt =====
-- What one instance does to the key of its election.
use arcana_cloud_nodejs.Base.{
  ℕ, ◌+◌, ◌<◌, String, ◌≡◌, refl, ◌⊎◌, inl, inr, true, false, Option, none, some, arith, str_eq,
  eq_iff, Bool-cases, Option-cases,
}
use arcana_cloud_nodejs.Base.Exec.{ok}
use arcana_cloud_nodejs.Tasks.Redis.{Redis, IsRedis, value_of}
use arcana_cloud_nodejs.Tasks.Lock.{renew, holds, start_renewal, stop_renewal}
use arcana_cloud_nodejs.Tasks.Lock.Laws.{
  acquire-free, acquire-held, release-owned, release-other, extend-owned, extend-other,
}
use arcana_cloud_nodejs.Tasks.Election.{Office, gain, lose, try_become_leader, stop, renew_lock}

-- The changes to an entry that an instance may make.
pub data Effect (own : String) (until : ℕ) (old new : Option (String × ℕ)) : Type 0 where
  kept : new ≡ old → Effect own until old new
  taken : old ≡ none → new ≡ some (own, until) → Effect own until old new
  extended : (e : ℕ) → old ≡ some (own, e) → new ≡ some (own, until) → Effect own until old new
  released : (e : ℕ) → old ≡ some (own, e) → new ≡ none → Effect own until old new

-- The three states of a key, as its owner sees it.
pub data View (own : String) (entry : Option (String × ℕ)) : Type 0 where
  free : entry ≡ none → View own entry
  mine : (e : ℕ) → entry ≡ some (own, e) → View own entry
  other : (x : String × ℕ) → entry ≡ some x → holds (value_of entry) own ≡ false → View own entry

pub view : (own : String) (entry : Option (String × ℕ)) → View own entry
view own none = free refl
view own (some (v, e)) = elim (Bool-cases (str_eq v own)) [
  | inl same ↦ mine e (rw ((eq_iff v own).0 same))
  | inr differs ↦ other (v, e) refl differs
]

pub owner :
    {own : String} (entry : Option (String × ℕ))
    → holds (value_of entry) own ≡ true
    → (e : ℕ) × (entry ≡ some (own, e))
owner {own} none h = cc
owner {own} (some (v, e)) h = (e, rw ((eq_iff v own).0 h))

module _ {R : Type 0} (redis : Redis R) (lawful : IsRedis redis) where
  abbrev pub key_of : Office R → Option (String × ℕ)
  key_of o = redis.entry o.node.lock.lock_key o.server

  abbrev pub until : Office R → ℕ
  until o = redis.clock o.server + o.node.lock.ttl_ms

  -- What every method of an instance respects: a leader afterwards has just written the key, or was
  -- leader before and has left the key alone.
  pub record Change (o o' : Office R) : Type 0 where
    pub same_clock : redis.clock o'.server ≡ redis.clock o.server
    pub same_key : o'.node.lock.lock_key ≡ o.node.lock.lock_key
    pub same_value : o'.node.lock.lock_value ≡ o.node.lock.lock_value
    pub same_ttl : o'.node.lock.ttl_ms ≡ o.node.lock.ttl_ms
    pub effect :
        Effect o.node.lock.lock_value
          (until o)
          (key_of o)
          (redis.entry o.node.lock.lock_key o'.server)
    pub leading :
        o'.node.is_leader ≡ true
        → (redis.entry o.node.lock.lock_key o'.server ≡ some (o.node.lock.lock_value, until o))
          ⊎ ((o.node.is_leader ≡ true) × (redis.entry o.node.lock.lock_key o'.server ≡ key_of o))

  -- A leader that still holds the key extends it, and stays leader.
  pub tick-mine :
      (o : Office R) (e : ℕ)
      → 0 < o.node.lock.ttl_ms
      → o.node.is_leader ≡ true
      → key_of o ≡ some (o.node.lock.lock_value, e)
      → (r : R) × (try_become_leader redis true o ≡ ok tt (record o { server = r }))
        × (redis.entry o.node.lock.lock_key r ≡ some (o.node.lock.lock_value, until o))
        × (redis.clock r ≡ redis.clock o.server)
  unfolding try_become_leader
  tick-mine o e p leads h =
      let (r, extends, held, same) =
        extend-owned redis lawful (record { lock = o.node.lock; server = o.server }) e p h in
      (r, ground (arith, extends), held, same)

  -- A leader that does not hold the key is leader no more, and has left the key alone.
  pub tick-lost :
      (o : Office R)
      → o.node.is_leader ≡ true
      → holds (value_of (key_of o)) o.node.lock.lock_value ≡ false
      → try_become_leader redis true o ≡ ok tt (record o { node = lose o.node })
  unfolding try_become_leader
  tick-lost o leads h =
      ground (arith, extend-other redis lawful (record { lock = o.node.lock; server = o.server }) h)

  -- An instance that is not leader takes a free key, and is leader.
  pub tick-free :
      (o : Office R)
      → 0 < o.node.lock.ttl_ms
      → o.node.is_leader ≡ false
      → key_of o ≡ none
      → (r : R) × (try_become_leader redis true o
          ≡ ok tt (record {
            node = gain (record o.node { lock = start_renewal o.node.lock });
            server = r;
          }))
        × (redis.entry o.node.lock.lock_key r ≡ some (o.node.lock.lock_value, until o))
        × (redis.clock r ≡ redis.clock o.server)
  unfolding try_become_leader
  tick-free o p follows h =
      let (r, acquired, held, same) =
        acquire-free redis lawful (record { lock = o.node.lock; server = o.server }) p h in
      (r, ground (arith, acquired), held, same)

  -- While the key exists, an instance that is not leader changes nothing.
  pub tick-held :
      (o : Office R) {x : String × ℕ}
      → o.node.is_leader ≡ false
      → key_of o ≡ some x
      → try_become_leader redis true o ≡ ok tt o
  unfolding try_become_leader
  tick-held o follows h =
      ground (arith, acquire-held redis lawful (record { lock = o.node.lock; server = o.server }) h)

  -- A tick on a reachable server returns; a leader after it holds the key for a full TTL.
  pub tick-Change :
      (o : Office R)
      → 0 < o.node.lock.ttl_ms
      → (o' : Office R) × (try_become_leader redis true o ≡ ok tt o')
        × Change o o'
        × (o'.node.is_leader ≡ true
            → redis.entry o.node.lock.lock_key o'.server ≡ some (o.node.lock.lock_value, until o))
  unfolding start_renewal
  tick-Change o p = elim (Bool-cases o.node.is_leader) [
    | inl leads ↦ elim (view o.node.lock.lock_value (key_of o)) [
      | free h ↦ lost leads (rw h refl)
      | mine e h ↦
          let (r, runs, held, same) = tick-mine o e p leads h in
          (
            record o { server = r },
            runs,
            record {
              same_clock = same;
              same_key = refl;
              same_value = refl;
              same_ttl = refl;
              effect = extended e h held;
              leading = λ _. inl held;
            },
            λ _. held,
          )
      | other x h d ↦ lost leads d
    ]
    | inr follows ↦ elim (Option-cases (key_of o)) [
      | inl h ↦
          let (r, runs, held, same) = tick-free o p follows h in
          (
            record { node = gain (record o.node { lock = start_renewal o.node.lock }); server = r },
            runs,
            record {
              same_clock = same;
              same_key = refl;
              same_value = refl;
              same_ttl = refl;
              effect = taken h held;
              leading = λ _. inl held;
            },
            λ _. held,
          )
      | inr (x, h) ↦ (
        o,
        tick-held o follows h,
        record {
          same_clock = refl;
          same_key = refl;
          same_value = refl;
          same_ttl = refl;
          effect = kept refl;
          leading = λ l. cc;
        },
        λ l. cc,
      )
    ]
  ]
    where
      lost :
          o.node.is_leader ≡ true
          → holds (value_of (key_of o)) o.node.lock.lock_value ≡ false
          → (o' : Office R) × (try_become_leader redis true o ≡ ok tt o')
            × Change o o'
            × (o'.node.is_leader ≡ true
                → redis.entry o.node.lock.lock_key o'.server
                  ≡ some (o.node.lock.lock_value, until o))
      lost leads d = (
        record o { node = lose o.node },
        tick-lost o leads d,
        record {
          same_clock = refl;
          same_key = refl;
          same_value = refl;
          same_ttl = refl;
          effect = kept refl;
          leading = λ l. cc;
        },
        λ l. cc,
      )

  -- A renewal of the lock.
  pub renew-Change :
      (o : Office R)
      → 0 < o.node.lock.ttl_ms
      → (o' : Office R) × (renew_lock redis true o ≡ ok tt o') × Change o o'
  unfolding renew_lock renew stop_renewal
  renew-Change o p = elim (Bool-cases (holds (value_of (key_of o)) o.node.lock.lock_value)) [
    | inl owned ↦
        let (e, h) = owner (key_of o) owned in
        let (r, extends, held, same) =
          extend-owned redis lawful (record { lock = o.node.lock; server = o.server }) e p h in
        (
          record o { server = r },
          ground (arith, extends),
          record {
            same_clock = same;
            same_key = refl;
            same_value = refl;
            same_ttl = refl;
            effect = extended e h held;
            leading = λ _. inl held;
          },
        )
    | inr d ↦ (
      record o { node = record o.node { lock = stop_renewal o.node.lock } },
      ground
          (arith, extend-other redis lawful (record { lock = o.node.lock; server = o.server }) d),
      record {
        same_clock = refl;
        same_key = refl;
        same_value = refl;
        same_ttl = refl;
        effect = kept refl;
        leading = λ l. inr (l, refl);
      },
    )
  ]

  -- `stop`: the instance is not leader, and holds the key no longer if it was.
  pub stop-Change :
      (o : Office R)
      → (o' : Office R) × (stop redis true o ≡ ok tt o')
        × Change o o'
        × (o'.node.is_leader ≡ false)
        × (o'.node.electing ≡ false)
  unfolding stop stop_renewal
  stop-Change o = elim (Bool-cases o.node.is_leader) [
    | inl leads ↦ elim (Bool-cases (holds (value_of (key_of o)) o.node.lock.lock_value)) [
      | inl owned ↦
          let (e, h) = owner (key_of o) owned in
          let (r, frees, gone, same) =
            release-owned redis lawful (record { lock = o.node.lock; server = o.server }) e h in
          (
            record {
              node = lose (record o.node { electing = false; lock = stop_renewal o.node.lock });
              server = r;
            },
            ground (arith, frees),
            record {
              same_clock = same;
              same_key = refl;
              same_value = refl;
              same_ttl = refl;
              effect = released e h gone;
              leading = λ l. cc;
            },
            refl,
            refl,
          )
      | inr d ↦ (
        record o {
          node = lose (record o.node { electing = false; lock = stop_renewal o.node.lock });
        },
        ground (
          arith,
          release-other redis lawful (record { lock = o.node.lock; server = o.server }) d,
        ),
        record {
          same_clock = refl;
          same_key = refl;
          same_value = refl;
          same_ttl = refl;
          effect = kept refl;
          leading = λ l. cc;
        },
        refl,
        refl,
      )
    ]
    | inr follows ↦ (
      record o { node = record o.node { electing = false } },
      ground arith,
      record {
        same_clock = refl;
        same_key = refl;
        same_value = refl;
        same_ttl = refl;
        effect = kept refl;
        leading = λ l. cc;
      },
      follows,
      refl,
    )
  ]
