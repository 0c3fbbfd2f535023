-- ===== src/Tests/Tasks.antt =====
-- The locks and elections of src/tasks/distributed-lock.ts, on a server in memory.
use arcana_cloud_nodejs.Base.{
  ℕ, zero, suc, String, ◌≡◌, refl, true, false, none, some, arith, str_eq, ap, if◌then◌else◌,
}
use arcana_cloud_nodejs.Base.Exec.{Exec, ok}
use arcana_cloud_nodejs.Tasks.Redis.{Server, memory, memory-IsRedis, fresh}
use arcana_cloud_nodejs.Tasks.Lock.{Session, new_lock, with_lock, acquire, start_renewal}
use arcana_cloud_nodejs.Tasks.Lock.Laws.{with_lock-held, with_lock-free, wait_times}
use arcana_cloud_nodejs.Tasks.Election.{Office, try_become_leader, start, new_election}
use arcana_cloud_nodejs.Tasks.Election.Cluster.{Cluster, office, Reach, starts, here, next, run}
use arcana_cloud_nodejs.Tasks.Election.Cluster.Safety.{initial, members, failover}

abbrev read_clock : Exec Server ℕ
read_clock s = ok s.time s

-- a server on which another process holds the lock "jobs" up to time 5000
abbrev busy : Server
busy = record {
  time = 0;
  stored = λ k. if str_eq k "lock:jobs" then some ("other", 5000) else none;
}

with_lock-held_example :
    with_lock memory true "jobs" "mine" read_clock none none (some 2) busy
    ≡ ok none (wait_times memory memory-IsRedis 2 1000 busy)
unfolding new_lock
with_lock-held_example =
    with_lock-held memory memory-IsRedis "jobs" "mine" read_clock none none (some 2) busy "other"
      5000 refl (omega arith)

abbrev ours : Session Server
ours = record {
  lock = start_renewal (new_lock "jobs" "mine" none);
  server = (memory.set_px_nx "lock:jobs" "mine" 30000 fresh).1;
}

acquires :
    acquire memory true (record { lock = new_lock "jobs" "mine" none; server = fresh })
    ≡ ok true ours
unfolding acquire new_lock start_renewal
acquires = refl

with_lock-free_example :
    (t : Server) × (with_lock memory true "jobs" "mine" read_clock none none none fresh
      ≡ ok (some 0) t)
    × (memory.entry "lock:jobs" t ≡ none)
unfolding new_lock
with_lock-free_example =
    with_lock-free memory memory-IsRedis "jobs" "mine" read_clock none none none fresh 30000 refl
      acquires refl

-- the lock values "", "+", "++", …
abbrev value : ℕ → String
value zero = String.[]
value (suc i) = String.◌∷◌ "+" (value i)

value_injective : (i j : ℕ) → value i ≡ value j → i ≡ j
value_injective zero zero h = refl
value_injective zero (suc j) h = cc
value_injective (suc i) zero h = cc
value_injective (suc i) (suc j) h = ap suc (value_injective i j (cc h))

abbrev opening : Cluster Server
opening =
    initial memory memory-IsRedis (members memory memory-IsRedis "jobs" 29999 value fresh) fresh

abbrev running : Cluster Server
running = run memory (run memory opening 0 (start memory true)) 1 (start memory true)

both_started : Reach memory opening running
both_started = next (next here (starts 0)) (starts 1)

-- the first of two instances leads
leader_of_two : ((running.nodes 0).is_leader ≡ true) × ((running.nodes 1).is_leader ≡ false)
unfolding start try_become_leader acquire new_election
leader_of_two = (refl, refl)

failover_example :
    (o : Office Server) × (try_become_leader memory true
        (office memory (record running { server = memory.wait 30000 running.server }) 1)
      ≡ ok tt o)
    × (o.node.is_leader ≡ true)
    × (memory.entry "lock:leader:jobs" o.server ≡ some ("+", 60000))
unfolding start try_become_leader acquire new_election
failover_example =
    failover memory memory-IsRedis "jobs" 29999 value fresh 1 30000 value_injective refl
      both_started refl (omega arith)
