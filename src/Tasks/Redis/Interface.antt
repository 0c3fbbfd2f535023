-- ===== src/Tasks/Redis/Interface.antt =====
-- The commands of the server as parameters, and what the Redis manual says of them.
use arcana_cloud_nodejs.Base.{
  ℕ, ◌+◌, ◌<◌, String, ◌≡◌, Bool, true, false, Option, none, some, ltb, if◌then◌else◌,
}

pub record Redis (R : Type 0) : Type 0 where
  -- SET key value PX ttl NX; true for the reply OK
  pub set_px_nx : String → String → ℕ → R → Bool × R
  pub get : String → R → Option String
  -- the reply of DEL and of PEXPIRE is the number of keys
  pub del : String → R → ℕ × R
  pub pexpire : String → ℕ → R → ℕ × R
  -- time passes on the server
  pub wait : ℕ → R → R
  -- what can be seen of the state
  pub clock : R → ℕ
  pub entry : String → R → Option (String × ℕ)

abbrev pub value_of : Option (String × ℕ) → Option String
value_of none = none
value_of (some (v, e)) = some v

-- An entry exists before its time of expiry only.
abbrev pub expire : ℕ → Option (String × ℕ) → Option (String × ℕ)
expire now none = none
expire now (some (v, e)) = if ltb now e then some (v, e) else none

pub record IsRedis {R : Type 0} (redis : Redis R) : Type 0 where
  pub get-entry : (k : String) (r : R) → redis.get k r ≡ value_of (redis.entry k r)
  pub set-absent :
      (k v : String) (t : ℕ) (r : R)
      → 0 < t
      → redis.entry k r ≡ none
      → ((redis.set_px_nx k v t r).0 ≡ true)
        × (redis.entry k (redis.set_px_nx k v t r).1 ≡ some (v, redis.clock r + t))
        × (redis.clock (redis.set_px_nx k v t r).1 ≡ redis.clock r)
  pub set-present :
      (k v : String) (t : ℕ) (r : R) {e : String × ℕ}
      → redis.entry k r ≡ some e
      → redis.set_px_nx k v t r ≡ (false, r)
  pub del-present :
      (k : String) (r : R) {e : String × ℕ}
      → redis.entry k r ≡ some e
      → ((redis.del k r).0 ≡ 1)
        × (redis.entry k (redis.del k r).1 ≡ none)
        × (redis.clock (redis.del k r).1 ≡ redis.clock r)
  pub pexpire-present :
      (k v : String) (e t : ℕ) (r : R)
      → 0 < t
      → redis.entry k r ≡ some (v, e)
      → ((redis.pexpire k t r).0 ≡ 1)
        × (redis.entry k (redis.pexpire k t r).1 ≡ some (v, redis.clock r + t))
        × (redis.clock (redis.pexpire k t r).1 ≡ redis.clock r)
  pub clock-wait : (d : ℕ) (r : R) → redis.clock (redis.wait d r) ≡ redis.clock r + d
  pub entry-wait :
      (k : String) (d : ℕ) (r : R)
      → redis.entry k (redis.wait d r) ≡ expire (redis.clock r + d) (redis.entry k r)
