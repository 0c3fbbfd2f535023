-- ===== src/Tasks/Lock/Laws.antt =====
-- What the lock of src/tasks/distributed-lock.ts guarantees, on a server that meets `IsRedis`.
use arcana_cloud_nodejs.Base.{
  ℕ, zero, suc, ◌+◌, ◌*◌, ◌<◌, String, ◌≡◌, refl, sym, ◌∙◌, ap, true, false, Option, none, some,
  arith, eq_refl, lt→ltb,
}
use arcana_cloud_nodejs.Base.Exec.{Outcome, ok, err, Exec, after, ok_injective}
use arcana_cloud_nodejs.Tasks.Redis.{Redis, IsRedis, value_of}
use arcana_cloud_nodejs.Tasks.Lock.{
  DistributedLock, Session, or_default, holds, acquire, release, extend, start_renewal,
  stop_renewal, attempt_lock, run_locked, finish, with_lock, new_lock,
}

or_default_pos : (ttl : Option ℕ) → 0 < or_default ttl 30000
or_default_pos none = omega arith
or_default_pos (some zero) = omega arith
or_default_pos (some (suc n)) = omega arith

module _ {R : Type 0} (redis : Redis R) (lawful : IsRedis redis) where
  -- `acquire` on a server where the key does not exist.
  pub acquire-free :
      (s : Session R)
      → 0 < s.lock.ttl_ms
      → redis.entry s.lock.lock_key s.server ≡ none
      → (r : R) × (acquire redis true s
          ≡ ok true (record { lock = start_renewal s.lock; server = r }))
        × (redis.entry s.lock.lock_key r
            ≡ some (s.lock.lock_value, redis.clock s.server + s.lock.ttl_ms))
        × (redis.clock r ≡ redis.clock s.server)
  unfolding acquire
  acquire-free s p h =
      let (done, held, same) = lawful.set-absent _ s.lock.lock_value _ s.server p h in
      (
        (redis.set_px_nx s.lock.lock_key s.lock.lock_value s.lock.ttl_ms s.server).1,
        ground (arith, done),
        held,
        same,
      )

  -- `acquire` on a server where it does.
  pub acquire-held :
      (s : Session R) {e : String × ℕ}
      → redis.entry s.lock.lock_key s.server ≡ some e
      → acquire redis true s ≡ ok false s
  unfolding acquire
  acquire-held s {e} h = rw (lawful.set-present _ _ _ _ h)

  -- `release` by the owner.
  pub release-owned :
      (s : Session R) (e : ℕ)
      → redis.entry s.lock.lock_key s.server ≡ some (s.lock.lock_value, e)
      → (r : R) × (release redis true s
          ≡ ok true (record { lock = stop_renewal s.lock; server = r }))
        × (redis.entry s.lock.lock_key r ≡ none)
        × (redis.clock r ≡ redis.clock s.server)
  unfolding release
  release-owned s e h =
      let (count, gone, same) = lawful.del-present _ s.server h in
      ((redis.del s.lock.lock_key s.server).1, rw (lawful.get-entry, h, eq_refl, count), gone, same)

  -- `release` by anybody else.
  pub release-other :
      (s : Session R)
      → holds (value_of (redis.entry s.lock.lock_key s.server)) s.lock.lock_value ≡ false
      → release redis true s ≡ ok false (record s { lock = stop_renewal s.lock })
  unfolding release
  release-other s h = rw (lawful.get-entry, h)

  -- `extend` by the owner.
  pub extend-owned :
      (s : Session R) (e : ℕ)
      → 0 < s.lock.ttl_ms
      → redis.entry s.lock.lock_key s.server ≡ some (s.lock.lock_value, e)
      → (r : R) × (extend redis true none s ≡ ok true (record s { server = r }))
        × (redis.entry s.lock.lock_key r
            ≡ some (s.lock.lock_value, redis.clock s.server + s.lock.ttl_ms))
        × (redis.clock r ≡ redis.clock s.server)
  unfolding extend
  extend-owned s e p h =
      let (count, held, same) = lawful.pexpire-present _ s.lock.lock_value e _ s.server p h in
      (
        (redis.pexpire s.lock.lock_key s.lock.ttl_ms s.server).1,
        rw (lawful.get-entry, h, eq_refl, count),
        held,
        same,
      )

  -- `extend` by anybody else.
  pub extend-other :
      (s : Session R)
      → holds (value_of (redis.entry s.lock.lock_key s.server)) s.lock.lock_value ≡ false
      → extend redis true none s ≡ ok false s
  unfolding extend
  extend-other s h = rw (lawful.get-entry, h)

  -- the server after `n` waits of `w` milliseconds
  unfoldable pub wait_times : ℕ → ℕ → R → R
  wait_times zero w r = r
  wait_times (suc n) w r = wait_times n w (redis.wait w r)

  attempt_lock-held {κ} :
      {T : Type κ} (n w : ℕ) (lock : DistributedLock) (fn : Exec R T) (r : R) (v : String) (e : ℕ)
      → redis.entry lock.lock_key r ≡ some (v, e)
      → redis.clock r + n * w < e
      → attempt_lock redis true n w lock fn r ≡ ok none (wait_times n w r)
  unfolding attempt_lock wait_times
  attempt_lock-held zero w lock fn r v e h p =
      rw (acquire-held (record { lock = lock; server = r }) h, attempt_lock)
  attempt_lock-held (suc n) w lock fn r v e h p =
      rw (acquire-held (record { lock = lock; server = r }) h, attempt_lock)
        (attempt_lock-held n w lock fn (redis.wait w r) v e
          (rw (lawful.entry-wait, h, lt→ltb (redis.clock r + w) e (grind arith)))
          (rw lawful.clock-wait (grind arith)))

  -- On a server that meets `IsRedis`: while another process holds the key and does not let it
  -- expire, `withLock` gives up after its retries: it has run nothing, and has changed nothing on
  -- the server but the time.
  pub with_lock-held {κ} :
      {T : Type κ} (name value : String) (fn : Exec R T) (ttl wait retries : Option ℕ) (r : R)
      (v : String) (e : ℕ)
      → redis.entry (new_lock name value ttl).lock_key r ≡ some (v, e)
      → redis.clock r + or_default retries 0 * or_default wait 1000 < e
      → with_lock redis true name value fn ttl wait retries r
        ≡ ok none (wait_times (or_default retries 0) (or_default wait 1000) r)
  unfolding with_lock
  with_lock-held name value fn ttl wait retries r v e h p =
      attempt_lock-held (or_default retries 0) (or_default wait 1000) (new_lock name value ttl) fn r
        v e h p

  -- what `withLock` makes of the end of `fn`, with the server as it is then
  abbrev pub passed_on {κ} : {T : Type κ} → Outcome R T → R → Outcome R (Option T)
  passed_on (ok a r) t = ok (some a) t
  passed_on (err x r) t = err x t

  run_locked-passes {κ} :
      {T : Type κ} (lock : DistributedLock) (fn : Exec R T) (r : R) (e : ℕ)
      → redis.entry lock.lock_key (after (fn r)) ≡ some (lock.lock_value, e)
      → (t : R) × (run_locked redis true lock fn r ≡ passed_on (fn r) t)
        × (redis.entry lock.lock_key t ≡ none)
  unfolding run_locked
  run_locked-passes {T = T} lock fn r e h = ends (fn r) h
    where
      ends :
          (o : Outcome R T)
          → redis.entry lock.lock_key (after o) ≡ some (lock.lock_value, e)
          → (t : R) × (run_locked redis true lock (λ _. o) r ≡ passed_on o t)
            × (redis.entry lock.lock_key t ≡ none)
      ends (ok a r') h =
          let (t, released, gone, same) = release-owned (record { lock = lock; server = r' }) e h in
          (t, rw (released, finish) refl, gone)
      ends (err x r') h =
          let (t, released, gone, same) = release-owned (record { lock = lock; server = r' }) e h in
          (t, rw (released, finish) refl, gone)

  attempt_lock-free {κ} :
      {T : Type κ} (n w : ℕ) (lock : DistributedLock) (fn : Exec R T) (r : R)
      → 0 < lock.ttl_ms
      → redis.entry lock.lock_key r ≡ none
      → (r' : R) × (attempt_lock redis true n w lock fn r
          ≡ run_locked redis true (start_renewal lock) fn r')
        × (acquire redis true (record { lock = lock; server = r })
            ≡ ok true (record { lock = start_renewal lock; server = r' }))
  unfolding attempt_lock
  attempt_lock-free zero w lock fn r p h =
      let (r', acquired, held, same) = acquire-free (record { lock = lock; server = r }) p h in
      (r', rw (acquired, attempt_lock) refl, acquired)
  attempt_lock-free (suc n) w lock fn r p h =
      let (r', acquired, held, same) = acquire-free (record { lock = lock; server = r }) p h in
      (r', rw (acquired, attempt_lock) refl, acquired)

  -- On a server that meets `IsRedis`: `withLock` on a free key acquires it, here with the server
  -- `s.server` as the result. However `fn` then ends, if the lock is still held by then: its result
  -- or its error is passed on, and the key is free again.
  pub with_lock-free {κ} :
      {T : Type κ} (name value : String) (fn : Exec R T) (ttl wait retries : Option ℕ) (r : R)
      {s : Session R} (e : ℕ)
      → redis.entry (new_lock name value ttl).lock_key r ≡ none
      → acquire redis true (record { lock = new_lock name value ttl; server = r }) ≡ ok true s
      → redis.entry (new_lock name value ttl).lock_key (after (fn s.server)) ≡ some (value, e)
      → (t : R) × (with_lock redis true name value fn ttl wait retries r
          ≡ passed_on (fn s.server) t)
        × (redis.entry (new_lock name value ttl).lock_key t ≡ none)
  unfolding with_lock new_lock start_renewal
  with_lock-free name value fn ttl wait retries r {s} e h acquired held =
      let lock = new_lock name value ttl in
      let (r', ran, same) =
        attempt_lock-free (or_default retries 0) (or_default wait 1000) lock fn r
          (or_default_pos ttl) h in
      let at : r' ≡ s.server =
        ap (λ (x : Session R). x.server) (ok_injective (sym same ∙ acquired)).1 in
      let (t, released, gone) =
        run_locked-passes (start_renewal lock) fn r' e
          (ap (λ x. redis.entry lock.lock_key (after (fn x))) at ∙ held) in
      (t, ran ∙ released ∙ ap (λ x. passed_on (fn x) t) at, gone)
